-- ===== src/Memory/Cut.antt =====
-- How `mem_alloc` takes a block of the list, with or without a cut.
use sistemas_operacionais.Base.{
  ℕ, ◌+◌, ◌-◌, ◌^◌, ◌≤◌, ◌<◌, ◌≡◌, refl, sym, ap, ◌∙◌, ◌≢◌, true, false, arith, some, List, [], ◌∷◌,
}
use sistemas_operacionais.Memory.{
  Ptr, null, Header, Heap, write, sub_u64, splits, left_over, take_split, take_whole,
}
use sistemas_operacionais.Memory.Split.{write_self, write-away, wide-left_over}
use sistemas_operacionais.Memory.Tiling.{
  Tile, next_of, Tiled, free_bytes, write-before, tail-frame, Took,
}

pub narrow-splits :
    (size a : ℕ) → size < 2 ^ 32 → a + 32 ≤ size → size < a + 48 → splits size a ≡ false
unfolding splits
narrow-splits size a small room narrow =
    let rest : sub_u64 (size - a) 32 ≡ size - a - 32 = omega arith in rw rest (ground arith)

taken_bytes :
    (available size a free : ℕ)
    → available < 2 ^ 64
    → size + free ≤ available
    → a + 48 ≤ size
    → sub_u64 (sub_u64 available 32) a + (size + free) ≡ available + (size - a - 32 + free)
taken_bytes available size a free small enough room = omega arith

whole_bytes :
    (available size free : ℕ)
    → available < 2 ^ 64
    → size + free ≤ available
    → sub_u64 available size + (size + free) ≡ available + free
whole_bytes available size free small enough = omega arith

-- Behind a block that is cut at `a` the list goes on where it did.
cut-next :
    (p a size : ℕ) (ts : List Tile)
    → a + 48 ≤ size
    → next_of (p + (32 + a)) (size - a - 32) ts ≡ next_of p size ts
cut-next p a size [] room = refl
cut-next p a size (t ∷ ts) room = omega arith

abbrev pub free_header : (id : ℕ) (prev : Ptr) (size : ℕ) (next : Ptr) → Header
free_header id prev size next = record {
  id = id;
  size = size;
  is_used = false;
  next = next;
  prev = prev;
}

pub take_split-Took :
    (m : Heap) (p a size id : ℕ) (prev : Ptr) (ts : List Tile)
    → p ≢ null
    → a + 48 ≤ size
    → size < 2 ^ 32
    → m.available_bytes < 2 ^ 64
    → size + free_bytes ts ≤ m.available_bytes
    → Tiled m.cell (next_of p size ts) ts
    → Took m
        (take_split m p
          (record { id = id; size = size; is_used = false; next = next_of p size ts; prev = prev })
          a)
        p
        (record { size = size; used = false } ∷ ts)
        (record { size = a; used = true } ∷ record { size = size - a - 32; used = false } ∷ ts)
unfolding take_split free_bytes Tiled
take_split-Took m p a size id prev ts ne room small counted enough rest = record {
  tiled = (ne, id, prev, write_self _ p _, (ne_null, m.block_number, p, behind, tail));
  below = λ x far.
      write-before _ p _ x far ∙ write-before m.cell (p + (32 + a)) _ x (omega (arith, far));
  same_start = refl;
  bytes = omega (arith, taken_bytes m.available_bytes size a (free_bytes ts) counted enough room);
}
  where
    ne_null : p + (32 + a) ≢ null
    ne_null e = absurd (omega (arith, e))

    behind :
        write
          (write m.cell
            (p + (32 + a))
            (free_header m.block_number p (left_over size a) (next_of p size ts)))
          p
          (record { id = id; size = a; is_used = true; next = p + (32 + a); prev = prev })
          (p + (32 + a))
        ≡ some (
            free_header m.block_number p
              (size - a - 32)
              (next_of (p + (32 + a)) (size - a - 32) ts))
    behind =
        write-away _ p _ (p + (32 + a)) (omega arith)
        ∙ (write_self m.cell _ _
            ∙ (ap (λ n. some (free_header m.block_number p n (next_of p size ts)))
                  (wide-left_over size a small room)
                ∙ ap (λ q. some (free_header m.block_number p (size - a - 32) q))
                    (sym (cut-next p a size ts room))))

    tail :
        Tiled
          (write
            (write m.cell
              (p + (32 + a))
              (free_header m.block_number p (left_over size a) (next_of p size ts)))
            p
            (record { id = id; size = a; is_used = true; next = p + (32 + a); prev = prev }))
          (next_of (p + (32 + a)) (size - a - 32) ts)
          ts
    tail = rw (cut-next p a size ts room) (
        tail-frame m.cell _ p (p + (32 + a) + 32) size ts (omega (arith, room))
          (λ x far. write-away _ p _ x (omega (arith, far)) ∙ write-away m.cell _ _ x far) rest)

pub take_whole-Took :
    (m : Heap) (p size id : ℕ) (prev : Ptr) (ts : List Tile)
    → p ≢ null
    → m.available_bytes < 2 ^ 64
    → size + free_bytes ts ≤ m.available_bytes
    → Tiled m.cell (next_of p size ts) ts
    → Took m
        (take_whole m p
          (record { id = id; size = size; is_used = false; next = next_of p size ts; prev = prev }))
        p
        (record { size = size; used = false } ∷ ts)
        (record { size = size; used = true } ∷ ts)
unfolding take_whole free_bytes Tiled
take_whole-Took m p size id prev ts ne counted enough rest = record {
  tiled = (
    ne,
    id,
    prev,
    write_self _ p _,
    tail-frame m.cell _ p (p + 32) size ts (omega arith) (λ x far. write-away _ p _ x far) rest,
  );
  below = λ x far. write-before _ p _ x far;
  same_start = refl;
  bytes = omega (arith, whole_bytes m.available_bytes size (free_bytes ts) counted enough);
}
