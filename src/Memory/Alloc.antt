-- ===== src/Memory/Alloc.antt =====
-- `mem_alloc` keeps the heap in one piece.
use sistemas_operacionais.Base.{
  ℕ, suc, ◌+◌, ◌-◌, ◌^◌, ◌≤◌, ◌<◌, ◌≡◌, refl, ap, ◌∙◌, ◌≢◌, Bool, true, false, arith, ltb, leb,
  same, List, [], ◌∷◌, length, Bool-cases, inl, inr,
}
use sistemas_operacionais.Base.Int.{pos}
use sistemas_operacionais.Memory.{
  Ptr, null, Heap, ok, alloc_loop, alloc, round_up, init, boot, heap_size,
}
use sistemas_operacionais.Memory.Split.{write_self}
use sistemas_operacionais.Memory.Tiling.{
  Tile, Tiled, suits, cut, carve, place, free_bytes, total, Roomy, Took,
}
use sistemas_operacionais.Memory.FirstFit.{tile, carve-miss, place-miss, loop-Placed}

cut-bytes :
    (a size : ℕ) (ts : List Tile) → free_bytes (cut a (tile size false) ts) ≤ size + free_bytes ts
unfolding free_bytes
cut-bytes a size ts = elim (Bool-cases (leb (a + 48) size)) [
  | inl wide ↦ rw wide (omega arith)
  | inr narrow ↦ rw narrow (omega arith)
]

carve-bytes_on :
    (a size : ℕ) (used : Bool) (ts : List Tile)
    → free_bytes (carve a ts) ≤ free_bytes ts
    → free_bytes (carve a (tile size used ∷ ts)) ≤ free_bytes (tile size used ∷ ts)
unfolding free_bytes carve
carve-bytes_on a size true ts h = omega (arith, h)
carve-bytes_on a size false ts h = elim (Bool-cases (leb a size)) [
  | inl hit ↦ rw hit (cut-bytes a size ts)
  | inr miss ↦ rw miss (omega (arith, h))
]

carve-bytes : (a : ℕ) (ts : List Tile) → free_bytes (carve a ts) ≤ free_bytes ts
unfolding free_bytes carve
carve-bytes a [] = omega arith
carve-bytes a (t ∷ ts) = carve-bytes_on a t.size t.used ts (carve-bytes a ts)

cut-total :
    (a size : ℕ) (used : Bool) (ts : List Tile)
    → total (cut a (tile size used) ts) ≡ total (tile size used ∷ ts)
unfolding total
cut-total a size used ts = elim (Bool-cases (leb (a + 48) size)) [
  | inl wide ↦ rw wide (ground arith)
  | inr narrow ↦ rw narrow refl
]

-- All bytes stay with some block.
carve-total : (a : ℕ) (ts : List Tile) → total (carve a ts) ≡ total ts
unfolding total carve
carve-total a [] = refl
carve-total a (t ∷ ts) = elim (Bool-cases (suits a t)) [
  | inl hit ↦ rw (carve, hit) (cut-total a t.size t.used ts)
  | inr miss ↦ rw (carve, miss) (ap (λ n. 32 + t.size + n) (carve-total a ts))
]

scarce-suits :
    (a size : ℕ) (used : Bool) (ts : List Tile)
    → free_bytes (tile size used ∷ ts) < a
    → (suits a (tile size used) ≡ false) × (free_bytes ts < a)
unfolding free_bytes
scarce-suits a size true ts h = (refl, omega (arith, h))
scarce-suits a size false ts h = (ground arith, omega (arith, h))

-- No block suits when there are fewer free bytes than that.
scarce :
    (a : ℕ) (p : Ptr) (ts : List Tile)
    → free_bytes ts < a
    → (place a p ts ≡ null) × (carve a ts ≡ ts)
unfolding carve place
scarce a p [] h = (refl, refl)
scarce a p (t ∷ ts) h =
    let (miss, less) = scarce-suits a t.size t.used ts h in
    let (none, same) = scarce a (p + (32 + t.size)) ts less in
    (
      place-miss a p t.size t.used ts miss ∙ none,
      carve-miss a t.size t.used ts miss ∙ ap (λ us. t ∷ us) same,
    )

round_up-le : (n : ℕ) → suc n ≤ round_up (suc n)
unfolding round_up
round_up-le n = omega arith

-- The blocks of `ts` fill the list from the heap's start, and `available_bytes` is what is free,
-- and the first header; all of it lies in the array.
pub record IsHeap (m : Heap) (ts : List Tile) : Type 0 where
  pub blocks : Tiled m.cell m.start ts
  pub counted : m.available_bytes ≡ 32 + free_bytes ts
  pub bounded : m.available_bytes < 2 ^ 64
  pub filled : total ts ≤ heap_size

alloc-short :
    (fuel n : ℕ) (m : Heap) → m.available_bytes < suc n → alloc fuel (pos (suc n)) m ≡ ok (null, m)
unfolding alloc
alloc-short fuel n m h =
    let short : ltb m.available_bytes (suc n) ≡ true = ground arith in rw (alloc, short) refl

alloc-looks :
    (fuel n : ℕ) (m : Heap)
    → suc n ≤ m.available_bytes
    → alloc fuel (pos (suc n)) m ≡ alloc_loop fuel m m.start (round_up (suc n))
unfolding alloc
alloc-looks fuel n m h =
    let long : ltb m.available_bytes (suc n) ≡ false = ground arith in rw (alloc, long) refl

Took-IsHeap :
    (m m' : Heap) (ts us : List Tile)
    → IsHeap m ts
    → Took m m' m.start ts us
    → free_bytes us ≤ free_bytes ts
    → total us ≡ total ts
    → IsHeap m' us
Took-IsHeap m m' ts us h t less whole =
    let counted : m'.available_bytes ≡ 32 + free_bytes us = omega (arith, h.counted, t.bytes) in
    record {
      blocks = rw t.same_start t.tiled;
      counted = counted;
      bounded = omega (arith, counted, less, h.counted, h.bounded);
      filled = rw whole h.filled;
    }

-- `mem_alloc` of a positive size is first fit: on a heap whose list of blocks fills it without a
-- gap and whose available bytes are the free ones and 32, with no free block between the rounded
-- size and 32 bytes more and fuel for each block, it returns the address behind the header of the
-- first free block that is large enough, or NULL if there is none; that block alone changes, in
-- use afterwards and cut where 48 bytes are left over; and the heap is such a heap again.
pub alloc-IsHeap :
    (fuel n : ℕ) (m : Heap) (t : Tile) (ts : List Tile)
    → IsHeap m (t ∷ ts)
    → Roomy (round_up (suc n)) (t ∷ ts)
    → length ts < fuel
    → (m' : Heap) × (alloc fuel (pos (suc n)) m
        ≡ ok (place (round_up (suc n)) m.start (t ∷ ts), m'))
      × IsHeap m' (carve (round_up (suc n)) (t ∷ ts))
alloc-IsHeap fuel n m t ts h roomy enough = elim (Bool-cases (ltb m.available_bytes (suc n))) [
  | inl short ↦
      let less : m.available_bytes < suc n = ground arith in
      let (none, same) =
        scarce (round_up (suc n)) m.start (t ∷ ts)
          (omega (arith, less, h.counted, round_up-le n)) in
      (m, rw none (alloc-short fuel n m less), rw same h)
  | inr long ↦
      let more : suc n ≤ m.available_bytes = ground arith in
      let p =
        loop-Placed fuel m m.start (round_up (suc n)) t.size t.used ts h.bounded enough h.blocks
          roomy (omega (arith, h.counted)) in
      (
        p.after,
        alloc-looks fuel n m more ∙ p.is_run,
        Took-IsHeap m p.after (t ∷ ts) _ h p.took (carve-bytes (round_up (suc n)) (t ∷ ts))
            (carve-total (round_up (suc n)) (t ∷ ts)),
      )
]

-- What `mem_init` makes is such a heap, of one free block.
pub init-IsHeap :
    (start : Ptr) → start ≢ null → IsHeap (init (boot start)) (tile (heap_size - 32) false ∷ [])
unfolding init Tiled free_bytes total
init-IsHeap start ne = record {
  blocks = (ne, 0, null, write_self _ start _, refl);
  counted = refl;
  bounded = omega arith;
  filled = omega arith;
}
