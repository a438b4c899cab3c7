-- ===== src/Memory/Merge.antt =====
-- How `mem_free` merges a free block with the next one.
use sistemas_operacionais.Base.{
  ℕ, ◌+◌, ◌%◌, ◌^◌, ◌≤◌, ◌<◌, ◌≡◌, refl, sym, ap, ◌∙◌, ◌≢◌, Bool, true, false, arith, some, List,
  [], ◌∷◌, inl, inr, ◌⊎◌,
}
use sistemas_operacionais.Memory.{Ptr, null, Cells, Heap, write, merge_next, add_u64}
use sistemas_operacionais.Memory.Split.{write_self, write-away}
use sistemas_operacionais.Memory.Tiling.{
  Tile, next_of, Tiled, free_bytes, total, write-before, tail-frame,
}
use sistemas_operacionais.Memory.FirstFit.{tile}
use sistemas_operacionais.Memory.Absorb.{absorb}
use sistemas_operacionais.Memory.Relink.{
  Relinked, relink, Merged, at_size, merge_next-last, merge_next-used, joined, merge_next-joins,
}

-- Behind two blocks the list goes on as behind one of their sizes and a header.
skip-next :
    (p next size n : ℕ) (us : List Tile)
    → next ≡ p + (32 + size)
    → next_of p (size + (32 + n)) us ≡ next_of next n us
skip-next p next size n [] step = refl
skip-next p next size n (u ∷ us) step = omega (arith, step)

far-next :
    (x next n : ℕ) (us : List Tile)
    → x + 32 ≤ next
    → (next_of next n us ≡ null) ⊎ (x + 32 ≤ next_of next n us)
far-next x next n [] far = inl refl
far-next x next n (u ∷ us) far = inr (omega (arith, far))

merged_bytes :
    (available a b f : ℕ)
    → available < 2 ^ 32
    → add_u64 available 32 + (a + (b + f)) ≡ available + (a + (32 + b) + f)
merged_bytes available a b f small = omega arith

-- The cells with the header of the larger block.
abbrev grown : Heap → (p id : ℕ) (prev : Ptr) (size : ℕ) (next : Ptr) → Cells
grown m p id prev size next = write m.cell p (at_size id prev (size % 2 ^ 32) next)

-- The free block at `p` of the heap, with what lies behind it.
module _ (m : Heap) (p size id : ℕ) (prev : Ptr) (ne : p ≢ null)
    (counted : m.available_bytes < 2 ^ 32) where
  merge-last :
      m.cell p ≡ some (at_size id prev size null)
      → Merged (merge_next m p) m p prev (tile size false ∷ []) (absorb size [])
  unfolding absorb Tiled
  merge-last at = record {
    heap = m;
    is_run = merge_next-last m p _ ne at refl;
    took = record {
      tiled = (ne, id, prev, at, refl);
      below = λ x far. refl;
      same_start = refl;
      bytes = refl;
    };
    header = at_size id prev size null;
    at = at;
    same_prev = refl;
    unused = refl;
  }

  module _ (us : List Tile) (next : Ptr) (step : next ≡ p + (32 + size)) (n : ℕ)
      (at : m.cell p ≡ some (at_size id prev size next)) where
    stepped : next ≢ null
    stepped e = absurd (omega (arith, e, step))

    merge-used :
        Tiled m.cell next (tile n true ∷ us)
        → Merged
            (merge_next m p)
            m
            p
            prev
            (tile size false ∷ tile n true ∷ us)
            (tile size false ∷ tile n true ∷ us)
    unfolding Tiled
    merge-used rest = record {
      heap = m;
      is_run = merge_next-used m p _ _ ne at stepped rest.3 refl;
      took = record {
        tiled = (ne, id, prev, at ∙ ap (λ q. some (at_size id prev size q)) step, rw (← step) rest);
        below = λ x far. refl;
        same_start = refl;
        bytes = refl;
      };
      header = at_size id prev size next;
      at = at;
      same_prev = refl;
      unused = refl;
    }

    merge-free :
        32 + size + (32 + n) < 2 ^ 32
        → Tiled m.cell next (tile n false ∷ us)
        → Merged
            (merge_next m p)
            m
            p
            prev
            (tile size false ∷ tile n false ∷ us)
            (tile (size + (32 + n)) false ∷ us)
    unfolding Tiled free_bytes
    merge-free small (ne', id', prev', at', rest) = record {
      heap = joined m link.cells;
      is_run = merge_next-joins m p _ _ link.cells ne at stepped at' refl link.is_run;
      took = record {
        tiled = (ne, id, prev, here, rw (skip-next p next size n us step) link.tiled);
        below = λ x far.
            link.below x (far-next x next n us (omega (arith, far, step)))
            ∙ write-before m.cell p _ x far;
        same_start = refl;
        bytes = merged_bytes m.available_bytes size n (free_bytes us) counted;
      };
      header = at_size id prev (size + (32 + n)) (next_of p (size + (32 + n)) us);
      at = here;
      same_prev = refl;
      unused = refl;
    }
      where
        link :
            Relinked
              (grown m p id prev (size + (32 + n)) (next_of next n us))
              (next_of next n us)
              p
              us
        link = relink _ (next_of next n us) p us (
            tail-frame m.cell _ next (p + 32) n us (omega (arith, step))
              (λ x far. write-away m.cell p _ x far) rest)

        whole : (size + (32 + n)) % 2 ^ 32 ≡ size + (32 + n)
        whole = omega (arith, small)

        here :
            link.cells p ≡ some (at_size id prev (size + (32 + n)) (next_of p (size + (32 + n)) us))
        here =
            link.below p (far-next p next n us (omega (arith, step)))
            ∙ (write_self m.cell p _
                ∙ (ap (λ k. some (at_size id prev k (next_of next n us))) whole
                    ∙ ap (λ q. some (at_size id prev (size + (32 + n)) q))
                        (sym (skip-next p next size n us step))))

merge-tile :
    (m : Heap) (p size id : ℕ) (prev : Ptr) (n : ℕ) (used : Bool) (us : List Tile)
    → p ≢ null
    → m.available_bytes < 2 ^ 32
    → 32 + size + (32 + n) < 2 ^ 32
    → m.cell p ≡ some (at_size id prev size (p + (32 + size)))
    → Tiled m.cell (p + (32 + size)) (tile n used ∷ us)
    → Merged
        (merge_next m p)
        m
        p
        prev
        (tile size false ∷ tile n used ∷ us)
        (absorb size (tile n used ∷ us))
unfolding absorb
merge-tile m p size id prev n true us ne counted small at rest =
    merge-used m p size id prev ne counted us (p + (32 + size)) refl n at rest
merge-tile m p size id prev n false us ne counted small at rest =
    merge-free m p size id prev ne counted us (p + (32 + size)) refl n at small rest

-- "trying to merge forwards" in a list of blocks of fewer than 2 ^ 32 bytes.
pub merge_next-Merged :
    (m : Heap) (p size id : ℕ) (prev : Ptr) (ts : List Tile)
    → p ≢ null
    → m.available_bytes < 2 ^ 32
    → 32 + size + total ts < 2 ^ 32
    → m.cell p ≡ some (at_size id prev size (next_of p size ts))
    → Tiled m.cell (next_of p size ts) ts
    → Merged (merge_next m p) m p prev (tile size false ∷ ts) (absorb size ts)
unfolding total
merge_next-Merged m p size id prev [] ne counted small at rest =
    merge-last m p size id prev ne counted at
merge_next-Merged m p size id prev (t ∷ ts) ne counted small at rest =
    merge-tile m p size id prev t.size t.used ts ne counted (omega (arith, small)) at rest
