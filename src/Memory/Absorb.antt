-- ===== src/Memory/Absorb.antt =====
-- A list of blocks in which a free one takes in the next.
use sistemas_operacionais.Base.{
  ℕ, ◌+◌, ◌≤◌, ◌≡◌, refl, Bool, true, false, arith, List, [], ◌∷◌, if◌then◌else◌,
}
use sistemas_operacionais.Memory.Tiling.{Tile, next_of, free_bytes, total}
use sistemas_operacionais.Memory.FirstFit.{tile}

-- A free block of this size, in front of those of the list, takes the first of them in if it is
-- free.
unfoldable pub absorb : (size : ℕ) → List Tile → List Tile
absorb size [] = tile size false ∷ []
absorb size (t ∷ ts) =
    if t.used then tile size false ∷ t ∷ ts else tile (size + (32 + t.size)) false ∷ ts

total-absorb-tile :
    (size n : ℕ) (used : Bool) (us : List Tile)
    → total (absorb size (tile n used ∷ us)) ≡ 32 + size + total (tile n used ∷ us)
unfolding absorb total
total-absorb-tile size n true us = refl
total-absorb-tile size n false us = omega arith

pub total-absorb : (size : ℕ) (ts : List Tile) → total (absorb size ts) ≡ 32 + size + total ts
unfolding absorb total
total-absorb size [] = refl
total-absorb size (t ∷ ts) = total-absorb-tile size t.size t.used ts

free_bytes-tile :
    (n : ℕ) (used : Bool) (ts : List Tile)
    → free_bytes ts ≤ total ts
    → free_bytes (tile n used ∷ ts) ≤ total (tile n used ∷ ts)
unfolding free_bytes total
free_bytes-tile n true ts h = omega (arith, h)
free_bytes-tile n false ts h = omega (arith, h)

pub free_bytes-total : (ts : List Tile) → free_bytes ts ≤ total ts
unfolding free_bytes total
free_bytes-total [] = omega arith
free_bytes-total (t ∷ ts) = free_bytes-tile t.size t.used ts (free_bytes-total ts)

absorb-tile-next :
    (p k size n : ℕ) (used : Bool) (us : List Tile)
    → next_of p k (absorb size (tile n used ∷ us)) ≡ p + (32 + k)
unfolding absorb
absorb-tile-next p k size n true us = refl
absorb-tile-next p k size n false us = refl

pub absorb-next : (p k size : ℕ) (ts : List Tile) → next_of p k (absorb size ts) ≡ p + (32 + k)
unfolding absorb
absorb-next p k size [] = refl
absorb-next p k size (t ∷ ts) = absorb-tile-next p k size t.size t.used ts
