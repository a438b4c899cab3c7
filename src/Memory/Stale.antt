-- ===== src/Memory/Stale.antt =====
-- `mem_free` at a block of which the `prev` is out of date: a split in `mem_alloc` leaves that of
-- the block behind the two parts at the first one.
use sistemas_operacionais.Base.{
  ℕ, suc, ◌+◌, ◌-◌, ◌%◌, ◌^◌, ◌≤◌, ◌<◌, ◌≡◌, refl, sym, ◌∙◌, ◌≢◌, true, false, arith, ◌==◌, leb,
  some, Bool-cases, inl, inr, differ,
}
use sistemas_operacionais.Memory.{
  Ptr, null, Header, Heap, ok, no_error, error, heap_size, header_size, write, avail, find_block,
  free, merge_next, merge_prev, set_prev, release, add_u64, sub_u64,
}
use sistemas_operacionais.Memory.Split.{write_self}
use sistemas_operacionais.Memory.Tiling.{write-before}
use sistemas_operacionais.Memory.Relink.{load-some, at_size}
use sistemas_operacionais.Memory.Release.{used_header, marked, release-run}

-- The first block, free, after the last one has been merged into it.
abbrev grown : (id size b : ℕ) → Header
grown id size b = at_size id null ((size + (header_size + b)) % 2 ^ 32) null

abbrev swallowed : Heap → (id size id' r b : ℕ) → Heap
swallowed m id size id' r b =
    let m1 : Heap = marked m r (used_header id' m.start b null) in
    record m1 {
      cell = write m1.cell m.start (grown id size b);
      available_bytes = add_u64 m1.available_bytes header_size;
      allocated_bytes = sub_u64 m1.allocated_bytes header_size;
    }

-- A block is not found in a list of one other block.
not_found :
    (k : ℕ) (h : Heap) (q : Ptr) (a : Header)
    → h.start ≢ null
    → h.cell h.start ≡ some a
    → a.next ≡ null
    → q ≢ h.start
    → free (suc (suc k)) (q + 32) h ≡ ok (error, h)
unfolding free find_block avail
not_found k h q a ne at e other = elim (Bool-cases (leb heap_size h.available_bytes)) [
  | inl empty ↦ rw (free, empty) refl
  | inr some_used ↦
      let back : q + 32 - header_size ≡ q = omega arith in
      let set : (q + 32 == null) ≡ false = ground arith in
      rw
        (
          free,
          some_used,
          set,
          back,
          find_block,
          differ h.start null ne,
          differ h.start q (λ e. other (sym e)),
          load-some h.cell h.start a ne at,
          e,
        )
        refl
]

module _ (m : Heap) (id size id' q r b : ℕ) (ne : m.start ≢ null)
    (first : m.cell m.start ≡ some (at_size id null size q))
    (last : m.cell r ≡ some (used_header id' m.start b null)) (behind : m.start + 32 ≤ r) where
  not_null : r ≢ null
  not_null e = omega (arith, e, behind)

  merge-last :
      merge_prev (marked m r (used_header id' m.start b null)) r ≡ ok (swallowed m id size id' r b)
  unfolding merge_prev set_prev
  merge-last =
      let still : write m.cell r (record (used_header id' m.start b null) { is_used = false })
            m.start
          ≡ some (at_size id null size q) =
        write-before m.cell r _ m.start behind ∙ first in
      rw
        (
          merge_prev,
          load-some _ r _ not_null (write_self m.cell r _),
          differ m.start null ne,
          load-some _ m.start _ ne still,
        )
        refl

  release-last : release m r ≡ ok (no_error, swallowed m id size id' r b)
  unfolding merge_next
  release-last =
      release-run m (marked m r (used_header id' m.start b null)) (swallowed m id size id' r b) r
        (used_header id' m.start b null) not_null last refl
        (rw (merge_next, load-some _ r _ not_null (write_self m.cell r _)) refl) merge-last

  -- In a heap whose first block is free and has no `prev`, and of which the last block, in use, has
  -- the first as its `prev`, `mem_free` of the last block succeeds, if its search finds it, and
  -- leaves the first block alone in the list: `mem_free` of the block that came second then
  -- fails, even if it is another one and in use.
  pub free-loses :
      (k : ℕ)
      → m.available_bytes < heap_size
      → find_block (suc (suc k)) m.cell m.start r ≡ ok true
      → q ≢ m.start
      → (m' : Heap) × (free (suc (suc k)) (r + 32) m ≡ ok (no_error, m'))
        × (free (suc (suc k)) (q + 32) m' ≡ ok (error, m'))
  unfolding free avail
  free-loses k some_used there other =
      let guard : leb heap_size m.available_bytes ≡ false = ground arith in
      let back : r + 32 - header_size ≡ r = omega arith in
      let set : (r + 32 == null) ≡ false = ground arith in
      (
        swallowed m id size id' r b,
        rw (free, guard, set, back, there) release-last,
        not_found k (swallowed m id size id' r b) q (grown id size b) ne (write_self _ m.start _)
            refl other,
      )
