-- ===== src/Tests/Allocator.antt =====
-- The allocator on two blocks of a heap, and at its start.
use sistemas_operacionais.Base.{
  ◌-◌, ◌^◌, ◌≡◌, refl, true, false, arith, ◌==◌, if◌then◌else◌, some, none, [], ◌∷◌,
}
use sistemas_operacionais.Base.Int.{pos}
use sistemas_operacionais.Memory.{
  Header, Heap, heap_size, round_up, init, boot, ok, alloc_loop, alloc, free, find_block, release,
  merge_next, merge_prev, set_prev, take, take_split, take_whole, splits, left_over, fits, load,
  write, avail, error, Run, Status, ◌>>=◌, no_error,
}
use sistemas_operacionais.Memory.Tiling.{Tiled, total, free_bytes, Roomy, place, carve}
use sistemas_operacionais.Memory.FirstFit.{tile}
use sistemas_operacionais.Memory.Alloc.{IsHeap, init-IsHeap, alloc-IsHeap}
use sistemas_operacionais.Memory.Free.{behind, last_of, coalesce, free-IsHeap}
use sistemas_operacionais.Memory.Absorb.{absorb}
use sistemas_operacionais.Memory.Report.{report}
use sistemas_operacionais.Memory.Stale.{free-loses}
use sistemas_operacionais.Memory.Split.{alloc_loop-exact_fit}

abbrev free_block : Header
free_block = record { id = 0; size = 16; is_used = false; next = 4144; prev = 0 }

abbrev last_block : Header
last_block = record { id = 1; size = 1024; is_used = false; next = 0; prev = 4096 }

abbrev two_blocks : Heap
two_blocks = record {
  start = 4096;
  cell = λ a. if a == 4096 then some free_block else if a == 4144 then some last_block else none;
  block_number = 2;
  allocated_bytes = 0;
  available_bytes = 1072;
}

alloc_loop-exact_fit_example :
    (m' : Heap) × (alloc_loop 1 two_blocks 4096 16 ≡ ok (4128, m'))
    × (m'.cell 4144
        ≡ some (record { id = 2; size = 2 ^ 32 - 32; is_used = false; next = 4144; prev = 4096 }))
alloc_loop-exact_fit_example =
    alloc_loop-exact_fit 0 two_blocks 4096 free_block (omega arith) refl refl refl

two_blocks-IsHeap : IsHeap two_blocks (tile 16 false ∷ tile 1024 false ∷ [])
unfolding Tiled free_bytes total
two_blocks-IsHeap = record {
  blocks = (
    λ e. absurd (omega (arith, e)),
    0,
    0,
    refl,
    (λ e. absurd (omega (arith, e)), 1, 4096, refl, refl),
  );
  counted = refl;
  bounded = omega arith;
  filled = omega arith;
}

alloc-IsHeap_example :
    (m' : Heap) × (alloc 2 (pos 100) two_blocks ≡ ok (4176, m'))
    × IsHeap m' (tile 16 false ∷ tile 112 true ∷ tile 880 false ∷ [])
unfolding Roomy round_up place carve
alloc-IsHeap_example =
    alloc-IsHeap 2 99 two_blocks (tile 16 false) (tile 1024 false ∷ []) two_blocks-IsHeap
      (λ e. absurd (ground (arith, e)), omega arith, (λ e. omega arith, omega arith, tt))
      (omega arith)

booted : IsHeap (init (boot 4096)) (tile (heap_size - 32) false ∷ [])
booted = init-IsHeap 4096 (omega arith)

-- A block in use between two free ones.
abbrev before_block : Header
before_block = record { id = 0; size = 16; is_used = false; next = 4144; prev = 0 }

abbrev used_block : Header
used_block = record { id = 1; size = 64; is_used = true; next = 4240; prev = 4096 }

abbrev after_block : Header
after_block = record { id = 2; size = 1024; is_used = false; next = 0; prev = 4144 }

abbrev three_blocks : Heap
three_blocks = record {
  start = 4096;
  cell = λ a.
      if a == 4096
      then some before_block
      else if a == 4144
      then some used_block
      else if a == 4240
      then some after_block
      else none;
  block_number = 3;
  allocated_bytes = 0;
  available_bytes = 1072;
}

three_blocks-IsHeap : IsHeap three_blocks (tile 16 false ∷ tile 64 true ∷ tile 1024 false ∷ [])
unfolding Tiled free_bytes total
three_blocks-IsHeap = record {
  blocks =
      (omega arith, 0, 0, refl, (omega arith, 1, 4096, refl, (omega arith, 2, 4144, refl, refl)));
  counted = refl;
  bounded = omega arith;
  filled = omega arith;
}

used_block-prev : (b : Header) → some used_block ≡ some b → b.prev ≡ 4096
used_block-prev b e = cc

free-IsHeap_example :
    (m' : Heap) × (free 2 4176 three_blocks ≡ ok (no_error, m')) × IsHeap m' (tile 1168 false ∷ [])
unfolding behind last_of coalesce absorb
free-IsHeap_example =
    free-IsHeap 2 64 three_blocks (tile 16 false ∷ []) (tile 1024 false ∷ []) three_blocks-IsHeap
      (omega arith) used_block-prev (omega arith)

-- The first block was split: the `prev` of the last one is still the first.
abbrev stale_block : Header
stale_block = record { id = 2; size = 1024; is_used = true; next = 0; prev = 4096 }

abbrev stale_blocks : Heap
stale_blocks = record three_blocks {
  cell = λ a.
      if a == 4096
      then some before_block
      else if a == 4144
      then some used_block
      else if a == 4240
      then some stale_block
      else none;
  available_bytes = 48;
}

stale_block-found : find_block 3 stale_blocks.cell 4096 4240 ≡ ok true
unfolding find_block load
stale_block-found = refl

free-loses_example :
    (m' : Heap) × (free 3 4272 stale_blocks ≡ ok (no_error, m')) × (free 3 4176 m' ≡ ok (error, m'))
free-loses_example =
    free-loses stale_blocks 0 16 2 4144 4240 1024 (omega arith) refl refl (omega arith) 1
      (omega arith) stale_block-found (omega arith)

-- The calls that lead to it: a block is freed, two smaller ones are cut from it, and the first of
-- these and the block behind both are freed; then the second cannot be.
abbrev session : Run Status
session = alloc 9 (pos 112) (init (boot 4096)) >>= λ r1. alloc 9 (pos 48) r1.1 >>= λ r2.
    free 9 r1.0 r2.1 >>= λ r3. alloc 9 (pos 16) r3.1 >>= λ r4. alloc 9 (pos 16) r4.1 >>= λ r5.
    free 9 r4.0 r5.1 >>= λ r6. free 9 r2.0 r6.1 >>= λ r7. free 9 r5.0 r7.1 >>= λ r8. ok r8.0

block-lost : session ≡ ok error
unfolding alloc alloc_loop take take_split take_whole splits left_over fits round_up load write free
    find_block release merge_next merge_prev set_prev init avail
block-lost = refl

-- The end of the block is printed too far behind it.
reported :
    report 1 (init (boot 4096))
    ≡ ok (
        b'h' ∷ b'e' ∷ b'a' ∷ b'p' ∷ b':' ∷ b' ' ∷ b'b' ∷ b'l' ∷ b'o' ∷ b'c' ∷ b'k' ∷ b' ' ∷ b'0'
        ∷ b' ' ∷ b':' ∷ b' ' ∷ b'0' ∷ b'x' ∷ b'0' ∷ b'0' ∷ b'0' ∷ b'0' ∷ b'0' ∷ b'0' ∷ b'0' ∷ b'0'
        ∷ b'0' ∷ b'0' ∷ b'0' ∷ b'0' ∷ b'1' ∷ b'0' ∷ b'0' ∷ b'0' ∷ b' ' ∷ b'-' ∷ b' ' ∷ b'0' ∷ b'x'
        ∷ b'0' ∷ b'0' ∷ b'0' ∷ b'0' ∷ b'0' ∷ b'0' ∷ b'0' ∷ b'0' ∷ b'8' ∷ b'0' ∷ b'0' ∷ b'0' ∷ b'0'
        ∷ b'c' ∷ b'0' ∷ b'0' ∷ b' ' ∷ b'F' ∷ b'R' ∷ b'E' ∷ b'E' ∷ b' ' ∷ b'p' ∷ b'r' ∷ b'e' ∷ b'v'
        ∷ b' ' ∷ b'N' ∷ b'U' ∷ b'L' ∷ b'L' ∷ b'\t' ∷ b'n' ∷ b'e' ∷ b'x' ∷ b't' ∷ b' ' ∷ b'N' ∷ b'U'
        ∷ b'L' ∷ b'L' ∷ b'\t' ∷ b's' ∷ b'i' ∷ b'z' ∷ b'e' ∷ b' ' ∷ b'6' ∷ b'7' ∷ b'1' ∷ b'0' ∷ b'8'
        ∷ b'8' ∷ b'3' ∷ b'2' ∷ b'\n' ∷ [])
unfolding report init load write
reported = refl
