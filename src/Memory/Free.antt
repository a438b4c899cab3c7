-- ===== src/Memory/Free.antt =====
-- `mem_free` keeps the heap in one piece.
use sistemas_operacionais.Base.{
  ℕ, zero, suc, ◌+◌, ◌-◌, ◌^◌, ◌≤◌, ◌<◌, ◌≡◌, refl, ap, Bool, true, false, arith, ◌==◌, leb, some,
  List, [], ◌∷◌, ◌++◌, length, if◌then◌else◌, differ, same,
}
use sistemas_operacionais.Memory.{
  Ptr, null, Header, Cells, Heap, Run, Status, no_error, ok, heap_size, header_size, avail,
  find_block, release, free,
}
use sistemas_operacionais.Memory.Tiling.{Tile, next_of, Tiled, free_bytes, total, Took-cons}
use sistemas_operacionais.Memory.FirstFit.{tile}
use sistemas_operacionais.Memory.Absorb.{absorb, absorb-next, total-absorb, free_bytes-total}
use sistemas_operacionais.Memory.Relink.{load-some}
use sistemas_operacionais.Memory.Release.{
  Released, release-first, release-behind_used, release-behind_free,
}
use sistemas_operacionais.Memory.Alloc.{IsHeap}

-- The address behind these blocks, which begin at an address, and that of the last of them.
unfoldable pub behind : Ptr → List Tile → Ptr
behind p [] = p
behind p (t ∷ ts) = behind (p + (32 + t.size)) ts

unfoldable pub last_of : Ptr → List Tile → Ptr
last_of p [] = null
last_of p (t ∷ []) = p
last_of p (t ∷ (u ∷ us)) = last_of (p + (32 + t.size)) (u ∷ us)

-- The blocks when the one of this size between two lists is freed: it takes in a free block
-- behind it, and a free block before it takes in the result.
unfoldable pub coalesce : List Tile → (size : ℕ) → List Tile → List Tile
coalesce [] size ts = absorb size ts
coalesce (t ∷ []) size ts = if t.used then t ∷ absorb size ts else absorb t.size (absorb size ts)
coalesce (t ∷ (u ∷ us)) size ts = t ∷ coalesce (u ∷ us) size ts

append-next :
    (p k : ℕ) (pre : List Tile) (t : Tile) (ts : List Tile)
    → next_of p k (pre ++ (t ∷ ts)) ≡ p + (32 + k)
append-next p k [] t ts = refl
append-next p k (u ∷ us) t ts = refl

one-next :
    (p k n : ℕ) (used : Bool) (size : ℕ) (ts : List Tile)
    → next_of p k (coalesce (tile n used ∷ []) size ts) ≡ p + (32 + k)
unfolding coalesce
one-next p k n true size ts = refl
one-next p k n false size ts = absorb-next p k n (absorb size ts)

coalesce-next :
    (p k : ℕ) (pre : List Tile) (size : ℕ) (ts : List Tile)
    → next_of p k (coalesce pre size ts) ≡ p + (32 + k)
unfolding coalesce
coalesce-next p k [] size ts = absorb-next p k size ts
coalesce-next p k (t ∷ []) size ts = one-next p k t.size t.used size ts
coalesce-next p k (t ∷ (u ∷ us)) size ts = refl

one-total :
    (n : ℕ) (used : Bool) (size : ℕ) (ts : List Tile)
    → total (coalesce (tile n used ∷ []) size ts) ≡ 32 + n + (32 + size + total ts)
unfolding coalesce total
one-total n true size ts = omega (arith, total-absorb size ts)
one-total n false size ts = omega (arith, total-absorb n (absorb size ts), total-absorb size ts)

coalesce-total :
    (pre : List Tile) (size : ℕ) (ts : List Tile)
    → total (coalesce pre size ts) ≡ total (pre ++ (tile size true ∷ ts))
unfolding coalesce total
coalesce-total [] size ts = total-absorb size ts
coalesce-total (t ∷ []) size ts = one-total t.size t.used size ts
coalesce-total (t ∷ (u ∷ us)) size ts = ap (λ n. 32 + t.size + n) (coalesce-total (u ∷ us) size ts)

release-one :
    (m : Heap) (q n : ℕ) (used : Bool) (size : ℕ) (ts : List Tile)
    → Tiled m.cell q (tile n used ∷ tile size true ∷ ts)
    → m.available_bytes < 2 ^ 31
    → 32 + n + (32 + size + total ts) < 2 ^ 31
    → ((b : Header) → m.cell (q + (32 + n)) ≡ some b → b.prev ≡ q)
    → Released
        (release m (q + (32 + n)))
        m
        q
        (tile n used ∷ tile size true ∷ ts)
        (coalesce (tile n used ∷ []) size ts)
unfolding Tiled coalesce
release-one m q n true size ts t counted small prev =
    let (nq, id', prev', at_q, (ne, id, prev'', at, rest)) = t in
    release-behind_used m (q + (32 + n)) size id prev'' ts ne counted (omega (arith, small)) at rest
      q n id' prev' nq refl (prev _ at) at_q t
release-one m q n false size ts t counted small prev =
    let (nq, id', prev', at_q, (ne, id, prev'', at, rest)) = t in
    release-behind_free m (q + (32 + n)) size id prev'' ts ne counted (omega (arith, small)) at rest
      q n id' prev' nq refl (prev _ at) small at_q t

-- Whatever blocks come before, the release is `coalesce`.
release-Released :
    (pre : List Tile) (m : Heap) (p size : ℕ) (ts : List Tile)
    → Tiled m.cell p (pre ++ (tile size true ∷ ts))
    → m.available_bytes < 2 ^ 31
    → total (pre ++ (tile size true ∷ ts)) < 2 ^ 31
    → ((b : Header) → m.cell (behind p pre) ≡ some b → b.prev ≡ last_of p pre)
    → Released (release m (behind p pre)) m p (pre ++ (tile size true ∷ ts)) (coalesce pre size ts)
unfolding Tiled behind last_of coalesce total
release-Released [] m p size ts (ne, id, prev', at, rest) counted small prev =
    release-first m p size id prev' ts ne counted small at rest (prev _ at)
release-Released (t ∷ []) m p size ts tiled counted small prev =
    release-one m p t.size t.used size ts tiled counted small prev
release-Released (t ∷ (u ∷ us)) m p size ts tiled counted small prev =
    let r =
      release-Released (u ∷ us) m (p + (32 + t.size)) size ts tiled.4 counted (omega (arith, small))
        prev in
    record {
      heap = r.heap;
      is_run = r.is_run;
      took =
          Took-cons m r.heap p t.size t.used u (us ++ (tile size true ∷ ts))
            (coalesce (u ∷ us) size ts) (coalesce-next p t.size (u ∷ us) size ts) tiled r.took;
    }

behind-le : (p : Ptr) (pre : List Tile) → p ≤ behind p pre
unfolding behind
behind-le p [] = omega arith
behind-le p (t ∷ ts) = omega (arith, behind-le (p + (32 + t.size)) ts)

-- The search of `mem_free` finds the block.
find_block-found :
    (pre : List Tile) (c : Cells) (p : Ptr) (k : ℕ) (t : Tile) (ts : List Tile)
    → Tiled c p (pre ++ (t ∷ ts))
    → length pre < k
    → find_block k c p (behind p pre) ≡ ok true
unfolding Tiled behind find_block
find_block-found pre c p zero t ts tiled fuel = absurd (omega (arith, fuel))
find_block-found [] c p (suc k) t ts (ne, id, prev, at, rest) fuel =
    rw (find_block, differ p null ne, same p p) refl
find_block-found (u ∷ us) c p (suc k) t ts (ne, id, prev, at, rest) fuel =
    let on = behind-le (p + (32 + u.size)) us in
    let ahead : (p == behind (p + (32 + u.size)) us) ≡ false = ground (arith, on) in
    rw (find_block, differ p null ne, ahead, load-some c p _ ne at, append-next p u.size us t ts)
      (find_block-found us c (p + (32 + u.size)) k t ts (rw (← append-next p u.size us t ts) rest)
        (omega (arith, fuel)))

used-bytes :
    (pre : List Tile) (size : ℕ) (ts : List Tile)
    → free_bytes (pre ++ (tile size true ∷ ts)) + (32 + size) ≤ total (pre ++ (tile size true ∷ ts))
unfolding free_bytes total
used-bytes [] size ts = omega (arith, free_bytes-total ts)
used-bytes (t ∷ pre) size ts = ground (arith, used-bytes pre size ts)

Released-IsHeap :
    (run : Run (Status × Heap)) (m : Heap) (ts us : List Tile)
    → IsHeap m ts
    → total us ≡ total ts
    → (r : Released run m m.start ts us) → IsHeap r.heap us
Released-IsHeap run m ts us h whole r =
    let counted : r.heap.available_bytes ≡ 32 + free_bytes us =
      omega (arith, h.counted, r.took.bytes) in
    record {
      blocks = rw r.took.same_start r.took.tiled;
      counted = counted;
      bounded = omega (arith, counted, free_bytes-total us, whole, h.filled);
      filled = rw whole h.filled;
    }

-- `mem_free` of a block in use, of which the header's `prev` is the block before it, succeeds on
-- a heap whose blocks fill it without a gap, with fuel for each block: the block is free, with a
-- free block behind it taken in, and a free block before it takes in the result; no bytes are
-- lost, the counter of available bytes is again that of the free blocks, and the heap is again
-- such a heap.
pub free-IsHeap :
    (fuel size : ℕ) (m : Heap) (pre ts : List Tile)
    → IsHeap m (pre ++ (tile size true ∷ ts))
    → 0 < size
    → ((b : Header) → m.cell (behind m.start pre) ≡ some b → b.prev ≡ last_of m.start pre)
    → length pre < fuel
    → (m' : Heap) × (free fuel (behind m.start pre + 32) m ≡ ok (no_error, m'))
      × IsHeap m' (coalesce pre size ts)
unfolding free avail
free-IsHeap fuel size m pre ts h some_bytes prev enough =
    let r =
      release-Released pre m m.start size ts h.blocks
        (omega (arith, h.counted, used-bytes pre size ts, h.filled)) (omega (arith, h.filled))
        prev in
    let fewer : leb heap_size m.available_bytes ≡ false =
      ground (arith, h.counted, used-bytes pre size ts, h.filled, some_bytes) in
    let back : behind m.start pre + 32 - header_size ≡ behind m.start pre = omega arith in
    let there : (behind m.start pre + 32 == null) ≡ false = ground arith in
    (
      r.heap,
      rw
          (
            free,
            fewer,
            there,
            back,
            find_block-found pre m.cell m.start fuel (tile size true) ts h.blocks enough,
          )
          r.is_run,
      Released-IsHeap (release m (behind m.start pre)) m _ _ h (coalesce-total pre size ts) r,
    )
