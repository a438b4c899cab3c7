-- ===== src/Memory/Split.antt =====
-- `mem_alloc` at the block that it chooses.
use sistemas_operacionais.Base.{
  ℕ, suc, ◌+◌, ◌-◌, ◌^◌, ◌≤◌, ◌<◌, ◌≡◌, refl, ap, ◌∙◌, ◌≢◌, true, false, arith, ◌==◌, ltb, leb,
  some, differ, same,
}
use sistemas_operacionais.Memory.{
  Ptr, null, Header, Cells, Heap, write, ok, load, sub_u64, splits, left_over, take_split, take,
  fits, alloc_loop,
}

pub write_self : (c : Cells) (p : Ptr) (b : Header) → write c p b p ≡ some b
unfolding write
write_self c p b = rw (same p p)

pub write-away : (c : Cells) (p : Ptr) (b : Header) (a : Ptr) → p + 32 ≤ a → write c p b a ≡ c a
unfolding write
write-away c p b a far =
    let other : (a == p) ≡ false = ground arith in
    let behind : ltb a (p + 32) ≡ false = ground arith in rw (other, behind)

-- The first block of the search fits and is split.
pub loop-split :
    (k : ℕ) (m : Heap) (p : Ptr) (b : Header) (allocated : ℕ)
    → p ≢ null
    → m.cell p ≡ some b
    → b.is_used ≡ false
    → allocated ≤ b.size
    → splits b.size allocated ≡ true
    → alloc_loop (suc k) m p allocated ≡ ok (p + 32, take_split m p b allocated)
unfolding alloc_loop load fits take
loop-split k m p b allocated ne at unused enough split =
    let fit : leb allocated b.size ≡ true = ground arith in
    rw (alloc_loop, differ p null ne, at, unused, fit, split)

-- The two headers after a split.
pub headers :
    (m : Heap) (p : Ptr) (b : Header) (allocated : ℕ)
    → ((take_split m p b allocated).cell p
        ≡ some (record b { is_used = true; next = p + (32 + allocated); size = allocated }))
      × ((take_split m p b allocated).cell (p + (32 + allocated))
          ≡ some (record {
            id = m.block_number;
            size = left_over b.size allocated;
            is_used = false;
            next = b.next;
            prev = p;
          }))
unfolding take_split
headers m p b allocated = (
  write_self _ p _,
  write-away _ p _ (p + (32 + allocated)) (omega arith) ∙ write_self m.cell _ _,
)

wide :
    (size allocated : ℕ)
    → size < 2 ^ 32
    → allocated + 48 ≤ size
    → sub_u64 (size - allocated) 32 ≡ size - allocated - 32
wide size allocated small room = omega arith

pub wide-splits :
    (size allocated : ℕ) → size < 2 ^ 32 → allocated + 48 ≤ size → splits size allocated ≡ true
unfolding splits
wide-splits size allocated small room = rw (wide size allocated small room) (ground arith)

pub wide-left_over :
    (size allocated : ℕ)
    → size < 2 ^ 32
    → allocated + 48 ≤ size
    → left_over size allocated ≡ size - allocated - 32
unfolding left_over
wide-left_over size allocated small room = rw (wide size allocated small room) (omega arith)

none_left : (size : ℕ) → size - size ≡ 0
none_left size = omega arith

exact-splits : (size : ℕ) → splits size size ≡ true
unfolding splits
exact-splits size = rw (none_left size) refl

exact-left_over : (size : ℕ) → left_over size size ≡ 2 ^ 32 - 32
unfolding left_over
exact-left_over size = rw (none_left size) refl

-- When `mem_alloc` comes to a free block at least 48 bytes larger than what is asked for, of a size
-- below 2 ^ 32, it returns the address behind that block's header, and the block is cut in two that
-- lie one behind the other in memory and in the list: the first is in use with the bytes asked for,
-- the second free with what is left without its header.
pub alloc_loop-split :
    (k : ℕ) (m : Heap) (p : Ptr) (b : Header) (allocated : ℕ)
    → p ≢ null
    → m.cell p ≡ some b
    → b.is_used ≡ false
    → b.size < 2 ^ 32
    → allocated + 48 ≤ b.size
    → (m' : Heap) × (alloc_loop (suc k) m p allocated ≡ ok (p + 32, m'))
      × (m'.cell p
          ≡ some (record b { is_used = true; next = p + (32 + allocated); size = allocated }))
      × (m'.cell (p + (32 + allocated))
          ≡ some (record {
            id = m.block_number;
            size = b.size - allocated - 32;
            is_used = false;
            next = b.next;
            prev = p;
          }))
alloc_loop-split k m p b allocated ne at unused small room = (
  take_split m p b allocated,
  loop-split k m p b allocated ne at unused (omega arith) (wide-splits b.size allocated small room),
  (headers m p b allocated).0,
  (headers m p b allocated).1
      ∙ ap
          (λ n.
            some
              (record { id = m.block_number; size = n; is_used = false; next = b.next; prev = p }))
          (wide-left_over b.size allocated small room),
)

-- When `mem_alloc` comes to a free block of exactly the size asked for whose next block of the list
-- is the next in memory, the block is split all the same: a header is written over that of the next
-- block, with a size 32 below 2 ^ 32 and itself as its next.
pub alloc_loop-exact_fit :
    (k : ℕ) (m : Heap) (p : Ptr) (b : Header)
    → p ≢ null
    → m.cell p ≡ some b
    → b.is_used ≡ false
    → b.next ≡ p + (32 + b.size)
    → (m' : Heap) × (alloc_loop (suc k) m p b.size ≡ ok (p + 32, m'))
      × (m'.cell b.next
          ≡ some (record {
            id = m.block_number;
            size = 2 ^ 32 - 32;
            is_used = false;
            next = b.next;
            prev = p;
          }))
alloc_loop-exact_fit k m p b ne at unused next = (
  take_split m p b b.size,
  loop-split k m p b b.size ne at unused (omega arith) (exact-splits b.size),
  ap (take_split m p b b.size).cell next
      ∙ (headers m p b b.size).1
      ∙ ap
          (λ n.
            some
              (record { id = m.block_number; size = n; is_used = false; next = b.next; prev = p }))
          (exact-left_over b.size),
)
