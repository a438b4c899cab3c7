-- ===== src/Memory.antt =====
-- The heap allocator of kernel/memory.c. The headers lie in the array at their addresses;
-- writing one destroys any other that it overlaps. `unsigned long` counters are taken modulo
-- 2 ^ 64, `unsigned int` sizes modulo 2 ^ 32 and `unsigned short` ids modulo 2 ^ 16. The walks
-- over the list of blocks run on fuel.
pub mod Split
pub mod Tiling
pub mod Cut
pub mod FirstFit
pub mod Alloc
pub mod Absorb
pub mod Relink
pub mod Merge
pub mod Release
pub mod Free
pub mod Stale
pub mod Report
use sistemas_operacionais.Base.{
  ℕ, zero, suc, ◌+◌, ◌-◌, ◌*◌, ◌/◌, ◌%◌, ◌^◌, Bool, true, false, not, ◌&&◌, ◌||◌, Option, none,
  some, ◌==◌, ltb, leb, if◌then◌else◌,
}
use sistemas_operacionais.Base.Int.{ℤ, pos, negsuc}

abbrev pub Ptr : Type 0
Ptr = ℕ

abbrev pub null : Ptr
null = 0

-- `HEAP_SIZE`
abbrev pub heap_size : ℕ
heap_size = 64 * 1024 * 1024

-- `sizeof(block_header)` on the x86-64 that kernel/ctx.s is written for
abbrev pub header_size : ℕ
header_size = 32

-- `block_header`
pub record Header : Type 0 where
  pub id : ℕ
  pub size : ℕ
  pub is_used : Bool
  pub next : Ptr
  pub prev : Ptr

abbrev pub Cells : Type 0
Cells = Ptr → Option Header

-- The array `heap`, which begins at `start`, and the counters beside it.
pub record Heap : Type 0 where
  pub start : Ptr
  pub cell : Cells
  pub block_number : ℕ
  pub allocated_bytes : ℕ
  pub available_bytes : ℕ

-- Writing a header leaves nothing of another that begins fewer than 32 bytes away.
unfoldable pub write : Cells → Ptr → Header → Cells
write c p b a =
    if a == p
    then some b
    else if ltb a (p + header_size) && ltb p (a + header_size)
    then none
    else c a

-- How a call ends: with a value, by reading what is no header, or with no fuel left.
pub data Run (A : Type 0) : Type 0 where
  ok : A → Run A
  fault : Run A
  out_of_fuel : Run A

abbrev pub chain : {A B : Type 0} → Run A → (A → Run B) → Run B
chain (ok a) k = k a
chain fault k = fault
chain out_of_fuel k = out_of_fuel

infixl 5 ◌>>=◌
abbrev pub ◌>>=◌ : {A B : Type 0} → Run A → (A → Run B) → Run B
m >>= k = chain m k

-- `*p`
unfoldable pub load : Cells → Ptr → Run Header
load c p = if p == null then fault else elim (c p) [ none ↦ fault | some b ↦ ok b ]

-- The static initialisers, at an array that begins at `start`.
abbrev pub boot : Ptr → Heap
boot start = record {
  start = start;
  cell = λ _. none;
  block_number = 0;
  allocated_bytes = 0;
  available_bytes = heap_size;
}

-- `mem_init`
unfoldable pub init : Heap → Heap
init m = record m {
  cell = write m.cell m.start (record {
    id = m.block_number;
    size = heap_size - header_size;
    is_used = false;
    next = null;
    prev = null;
  });
  block_number = (m.block_number + 1) % 2 ^ 16;
}

-- `mem_size`
unfoldable pub total_size : ℕ
total_size = heap_size

-- `mem_avail`: the counter never leaves the range of `int` while it counts bytes of the heap.
unfoldable pub avail : Heap → ℕ
avail m = m.available_bytes

-- `((size - 1) | 15) + 1`: setting the low four bits of x gives x / 16 * 16 + 15.
unfoldable pub round_up : ℕ → ℕ
round_up size = ((size - 1) / 16 * 16 + 15) + 1

-- `a - b` and `a + b` in `unsigned long`
abbrev pub sub_u64 : ℕ → ℕ → ℕ
sub_u64 a b = (a + 2 ^ 64 - b) % 2 ^ 64

abbrev pub add_u64 : ℕ → ℕ → ℕ
add_u64 a b = (a + b) % 2 ^ 64

-- `size - allocated_size - sizeof(block_header) >= 16`: the first difference is of unsigned ints,
-- the second of unsigned longs, so it wraps when fewer than 32 bytes are left over.
unfoldable pub splits : (size allocated : ℕ) → Bool
splits size allocated = leb 16 (sub_u64 (size - allocated) header_size)

-- The same difference stored in an `unsigned int`.
unfoldable pub left_over : (size allocated : ℕ) → ℕ
left_over size allocated = sub_u64 (size - allocated) header_size % 2 ^ 32

-- The branch that takes a free block, of which `b` is the header at `p`.
unfoldable pub take_split : Heap → (p : Ptr) → Header → (allocated : ℕ) → Heap
take_split m p b allocated =
    let new : Ptr = p + (header_size + allocated) in
    let rest : Header = record {
      id = m.block_number;
      size = left_over b.size allocated;
      is_used = false;
      next = b.next;
      prev = p;
    } in
    record m {
      cell =
          write (write m.cell new rest) p
            (record b { is_used = true; next = new; size = allocated });
      block_number = (m.block_number + 1) % 2 ^ 16;
      available_bytes = sub_u64 (sub_u64 m.available_bytes header_size) allocated;
      allocated_bytes = add_u64 (add_u64 m.allocated_bytes header_size) allocated;
    }

-- `else allocated_size = current_block->size`
unfoldable pub take_whole : Heap → (p : Ptr) → Header → Heap
take_whole m p b = record m {
  cell = write m.cell p (record b { is_used = true });
  allocated_bytes = add_u64 m.allocated_bytes b.size;
  available_bytes = sub_u64 m.available_bytes b.size;
}

unfoldable pub take : Heap → (p : Ptr) → Header → (allocated : ℕ) → Ptr × Heap
take m p b allocated =
    if splits b.size allocated
    then (p + header_size, take_split m p b allocated)
    else (p + header_size, take_whole m p b)

-- `!current_block->is_used && current_block->size >= allocated_size`
unfoldable pub fits : Header → (allocated : ℕ) → Bool
fits b allocated = not b.is_used && leb allocated b.size

-- The `do … while` of `mem_alloc`.
unfoldable pub alloc_loop : ℕ → Heap → (p : Ptr) → (allocated : ℕ) → Run (Ptr × Heap)
alloc_loop zero m p allocated = out_of_fuel
alloc_loop (suc k) m p allocated =
    let on = λ (q : Ptr). alloc_loop k m q allocated in
    load m.cell p >>= λ b.
    if fits b allocated
    then ok (take m p b allocated)
    else if b.next == null
    then ok (null, m)
    else on b.next

-- `mem_alloc`, on `fuel` blocks at most.
unfoldable pub alloc : (fuel : ℕ) → ℤ → Heap → Run (Ptr × Heap)
alloc fuel (negsuc n) m = ok (null, m)
alloc fuel (pos zero) m = ok (null, m)
alloc fuel (pos (suc n)) m =
    if ltb m.available_bytes (suc n)
    then ok (null, m)
    else alloc_loop fuel m m.start (round_up (suc n))

-- The loop of `mem_free` that looks for the block: whether it is in the list.
unfoldable pub find_block : ℕ → Cells → (p target : Ptr) → Run Bool
find_block zero c p target = out_of_fuel
find_block (suc k) c p target =
    let on = λ (q : Ptr). find_block k c q target in
    if p == null then ok false else if p == target then ok true else (load c p >>= λ b. on b.next)

-- `if (p) p->prev = q`
unfoldable pub set_prev : Cells → (p q : Ptr) → Run Cells
set_prev c p q =
    if p == null then ok c else load c p >>= λ b. ok (write c p (record b { prev = q }))

-- "trying to merge forwards"
unfoldable pub merge_next : Heap → (p : Ptr) → Run Heap
merge_next m p = load m.cell p >>= λ b.
    if b.next == null
    then ok m
    else load m.cell b.next >>= λ n.
        if n.is_used
        then ok m
        else set_prev
            (write m.cell p
              (record b { size = (b.size + (header_size + n.size)) % 2 ^ 32; next = n.next }))
            n.next p
          >>= λ c. ok (record m {
            cell = c;
            available_bytes = add_u64 m.available_bytes header_size;
            allocated_bytes = sub_u64 m.allocated_bytes header_size;
          })

-- "trying to merge backwards"
unfoldable pub merge_prev : Heap → (p : Ptr) → Run Heap
merge_prev m p = load m.cell p >>= λ b.
    if b.prev == null
    then ok m
    else load m.cell b.prev >>= λ a.
        if a.is_used
        then ok m
        else set_prev
            (write m.cell b.prev
              (record a { size = (a.size + (header_size + b.size)) % 2 ^ 32; next = b.next }))
            b.next b.prev
          >>= λ c. ok (record m {
            cell = c;
            available_bytes = add_u64 m.available_bytes header_size;
            allocated_bytes = sub_u64 m.allocated_bytes header_size;
          })

pub data Status : Type 0 where
  no_error error : Status

-- The part of `mem_free` after the block at `p` has been found.
unfoldable pub release : Heap → (p : Ptr) → Run (Status × Heap)
release m p = load m.cell p >>= λ b.
    if not b.is_used
    then ok (error, m)
    else merge_next
        (record m {
          cell = write m.cell p (record b { is_used = false });
          allocated_bytes = sub_u64 m.allocated_bytes b.size;
          available_bytes = add_u64 m.available_bytes b.size;
        })
        p
      >>= λ m1. merge_prev m1 p >>= λ m2. ok (no_error, m2)

-- `mem_free`, on `fuel` blocks at most.
unfoldable pub free : (fuel : ℕ) → (p : Ptr) → Heap → Run (Status × Heap)
free fuel p m =
    if leb heap_size (avail m) || p == null
    then ok (error, m)
    else find_block fuel m.cell m.start (p - header_size) >>= λ found.
        if found then release m (p - header_size) else ok (error, m)
