-- ===== src/Memory/Release.antt =====
-- `mem_free` at a block that it has found.
use sistemas_operacionais.Base.{
  ℕ, ◌+◌, ◌^◌, ◌<◌, ◌≡◌, refl, sym, ap, ◌∙◌, ◌≢◌, Bool, true, false, arith, some, List, ◌∷◌, differ,
}
use sistemas_operacionais.Memory.{
  Ptr, null, Header, Heap, Run, Status, no_error, ok, write, merge_next, merge_prev, release,
  add_u64, sub_u64,
}
use sistemas_operacionais.Memory.Split.{write_self, write-away}
use sistemas_operacionais.Memory.Tiling.{
  Tile, next_of, Tiled, free_bytes, total, write-before, tail-frame, Took, Took-cons,
}
use sistemas_operacionais.Memory.FirstFit.{tile}
use sistemas_operacionais.Memory.Absorb.{absorb, absorb-next, total-absorb, free_bytes-total}
use sistemas_operacionais.Memory.Relink.{load-some, Merged, at_size}
use sistemas_operacionais.Memory.Merge.{merge_next-Merged}

merge_prev-first :
    (m : Heap) (p : Ptr) (b : Header)
    → p ≢ null
    → m.cell p ≡ some b
    → b.prev ≡ null
    → merge_prev m p ≡ ok m
unfolding merge_prev
merge_prev-first m p b ne at e = rw (merge_prev, load-some m.cell p b ne at, e) refl

merge_prev-used :
    (m : Heap) (p : Ptr) (b a : Header)
    → p ≢ null
    → m.cell p ≡ some b
    → b.prev ≢ null
    → m.cell b.prev ≡ some a
    → a.is_used ≡ true
    → merge_prev m p ≡ ok m
unfolding merge_prev
merge_prev-used m p b a ne at ne' at' e =
    rw
      (
        merge_prev,
        load-some m.cell p b ne at,
        differ b.prev null ne',
        load-some m.cell b.prev a ne' at',
        e,
      )
      refl

-- Between two free blocks, merging backwards is merging the first one forwards.
pub merge_prev-next :
    (m : Heap) (p q : Ptr) (b a : Header)
    → p ≢ null
    → q ≢ null
    → m.cell p ≡ some b
    → m.cell q ≡ some a
    → b.prev ≡ q
    → a.next ≡ p
    → a.is_used ≡ false
    → b.is_used ≡ false
    → merge_prev m p ≡ merge_next m q
unfolding merge_prev merge_next
merge_prev-next m p q b a np nq at_p at_q prev next ua ub =
    rw
      (
        merge_prev,
        merge_next,
        load-some m.cell p b np at_p,
        load-some m.cell q a nq at_q,
        prev,
        next,
        differ q null nq,
        differ p null np,
        load-some m.cell p b np at_p,
        load-some m.cell q a nq at_q,
        ua,
        ub,
      )
      refl

-- The heap when the block at `p` is marked as free.
abbrev pub marked : Heap → Ptr → Header → Heap
marked m p b = record m {
  cell = write m.cell p (record b { is_used = false });
  allocated_bytes = sub_u64 m.allocated_bytes b.size;
  available_bytes = add_u64 m.available_bytes b.size;
}

pub release-run :
    (m m1 m2 : Heap) (p : Ptr) (b : Header)
    → p ≢ null
    → m.cell p ≡ some b
    → b.is_used ≡ true
    → merge_next (marked m p b) p ≡ ok m1
    → merge_prev m1 p ≡ ok m2
    → release m p ≡ ok (no_error, m2)
unfolding release
release-run m m1 m2 p b ne at e f g = rw (release, load-some m.cell p b ne at, e, f, g) refl

pub record Released (run : Run (Status × Heap)) (m : Heap) (p : Ptr) (before after : List Tile)
    : Type 0 where
  pub heap : Heap
  pub is_run : run ≡ ok (no_error, heap)
  pub took : Took m heap p before after

Took-trans :
    (m m1 m2 : Heap) (p : Ptr) (before between after : List Tile)
    → Took m m1 p before between
    → Took m1 m2 p between after
    → Took m m2 p before after
Took-trans m m1 m2 p before between after t u = record {
  tiled = u.tiled;
  below = λ x far. u.below x far ∙ t.below x far;
  same_start = u.same_start ∙ t.same_start;
  bytes = omega (arith, t.bytes, u.bytes);
}

-- The header of the block that is freed.
abbrev pub used_header : (id : ℕ) (prev : Ptr) (size : ℕ) (next : Ptr) → Header
used_header id prev size next = record {
  id = id;
  size = size;
  is_used = true;
  next = next;
  prev = prev;
}

module _ (m : Heap) (p size id : ℕ) (prev : Ptr) (ts : List Tile) (ne : p ≢ null)
    (counted : m.available_bytes < 2 ^ 31) (small : 32 + size + total ts < 2 ^ 31)
    (at : m.cell p ≡ some (used_header id prev size (next_of p size ts)))
    (rest : Tiled m.cell (next_of p size ts) ts) where
  abbrev b : Header
  b = used_header id prev size (next_of p size ts)

  forward :
      Merged
        (merge_next (marked m p b) p)
        (marked m p b)
        p
        prev
        (tile size false ∷ ts)
        (absorb size ts)
  forward =
      merge_next-Merged (marked m p b) p size id prev ts ne (omega (arith, counted, small))
        (omega (arith, small)) (write_self m.cell p _)
        (tail-frame m.cell _ p (p + 32) size ts (omega arith) (λ x far. write-away m.cell p _ x far)
          rest)

  forward-Took : Took m forward.heap p (tile size true ∷ ts) (absorb size ts)
  unfolding free_bytes
  forward-Took = record {
    tiled = forward.took.tiled;
    below = λ x far. forward.took.below x far ∙ write-before m.cell p _ x far;
    same_start = forward.took.same_start;
    bytes = omega (arith, forward.took.bytes, counted, small);
  }

  -- The first block of the list.
  pub release-first :
      prev ≡ null → Released (release m p) m p (tile size true ∷ ts) (absorb size ts)
  release-first first = record {
    heap = forward.heap;
    is_run =
        release-run m forward.heap forward.heap p b ne at refl forward.is_run (
          merge_prev-first forward.heap p forward.header ne forward.at (forward.same_prev ∙ first));
    took = forward-Took;
  }

  -- A block behind the one at `q`.
  module _ (q n id' : ℕ) (prev' : Ptr) (nq : q ≢ null) (step : p ≡ q + (32 + n))
      (back : prev ≡ q) where
    behind-Took :
        (used : Bool)
        → Tiled m.cell q (tile n used ∷ tile size true ∷ ts)
        → Took m forward.heap q (tile n used ∷ tile size true ∷ ts) (tile n used ∷ absorb size ts)
    behind-Took used tiled =
        Took-cons m forward.heap q n used (tile size true) ts (absorb size ts)
          (absorb-next q n size ts) tiled (rw (← step) forward-Took)

    from : forward.header.prev ≡ q
    from = forward.same_prev ∙ back

    kept : forward.heap.cell q ≡ m.cell q
    kept = forward-Took.below q (omega (arith, step))

    onward : next_of q n (absorb size ts) ≡ p
    onward = absorb-next q n size ts ∙ sym step

    few : forward.heap.available_bytes < 2 ^ 32
    unfolding free_bytes
    few = omega (
      arith,
      forward-Took.bytes,
      counted,
      small,
      free_bytes-total (absorb size ts),
      total-absorb size ts,
    )

    pub release-behind_used :
        m.cell q ≡ some (used_header id' prev' n p)
        → Tiled m.cell q (tile n true ∷ tile size true ∷ ts)
        → Released
            (release m p)
            m
            q
            (tile n true ∷ tile size true ∷ ts)
            (tile n true ∷ absorb size ts)
    release-behind_used at_q tiled = record {
      heap = forward.heap;
      is_run = release-run m forward.heap forward.heap p b ne at refl forward.is_run (
          merge_prev-used forward.heap p forward.header (used_header id' prev' n p) ne forward.at
            (λ e. nq (sym from ∙ e)) (ap forward.heap.cell from ∙ (kept ∙ at_q)) refl);
      took = behind-Took true tiled;
    }

    pub release-behind_free :
        32 + n + (32 + size + total ts) < 2 ^ 31
        → m.cell q ≡ some (at_size id' prev' n p)
        → Tiled m.cell q (tile n false ∷ tile size true ∷ ts)
        → Released
            (release m p)
            m
            q
            (tile n false ∷ tile size true ∷ ts)
            (absorb n (absorb size ts))
    release-behind_free all at_q tiled = record {
      heap = merge.heap;
      is_run = release-run m forward.heap merge.heap p b ne at refl forward.is_run (
          merge_prev-next forward.heap p q forward.header (at_size id' prev' n p) ne nq forward.at
            (kept ∙ at_q) from refl refl forward.unused
          ∙ merge.is_run);
      took = Took-trans m forward.heap merge.heap q _ _ _ (behind-Took false tiled) merge.took;
    }
      where
        merge :
            Merged
              (merge_next forward.heap q)
              forward.heap
              q
              prev'
              (tile n false ∷ absorb size ts)
              (absorb n (absorb size ts))
        merge =
            merge_next-Merged forward.heap q n id' prev' (absorb size ts) nq few
              (omega (arith, all, total-absorb size ts))
              (kept ∙ (at_q ∙ ap (λ r. some (at_size id' prev' n r)) (sym onward)))
              (rw onward forward-Took.tiled)
