-- ===== src/Memory/Tiling.antt =====
-- The blocks of the heap lie one behind the other; `mem_alloc` finds the first that fits.
use sistemas_operacionais.Base.{
  ℕ, ◌+◌, ◌-◌, ◌^◌, ◌≤◌, ◌<◌, ◌≡◌, refl, sym, ap, ◌∙◌, ◌≢◌, Bool, true, false, not, ◌&&◌, arith,
  ◌==◌, ltb, leb, some, List, [], ◌∷◌, if◌then◌else◌, Bool-cases, inl, inr,
}
use sistemas_operacionais.Memory.{Ptr, null, Header, Cells, Heap, write}

-- A block, without its address.
pub record Tile : Type 0 where
  pub size : ℕ
  pub used : Bool

-- The address in the header of a block at `p` with those of `ts` behind it.
abbrev pub next_of : Ptr → (size : ℕ) → List Tile → Ptr
next_of p size [] = null
next_of p size (t ∷ ts) = p + (32 + size)

-- The list of blocks from `p` on is `ts`, in memory too.
unfoldable pub Tiled : Cells → Ptr → List Tile → Type 0
Tiled c p [] = p ≡ null
Tiled c p (t ∷ ts) =
    (p ≢ null)
    × (id : ℕ) × (prev : Ptr) × (c p
        ≡ some (record {
          id = id;
          size = t.size;
          is_used = t.used;
          next = next_of p t.size ts;
          prev = prev;
        }))
    × Tiled c (next_of p t.size ts) ts

abbrev pub suits : ℕ → Tile → Bool
suits a t = not t.used && leb a t.size

-- First fit: the blocks afterwards, and the address that is returned.
abbrev pub cut : ℕ → Tile → List Tile → List Tile
cut a t ts =
    if leb (a + 48) t.size
    then record { size = a; used = true } ∷ record { size = t.size - a - 32; used = false } ∷ ts
    else record { size = t.size; used = true } ∷ ts

unfoldable pub carve : ℕ → List Tile → List Tile
carve a [] = []
carve a (t ∷ ts) = let rest = carve a ts in if suits a t then cut a t ts else t ∷ rest

unfoldable pub place : ℕ → Ptr → List Tile → Ptr
place a p [] = null
place a p (t ∷ ts) = let rest = place a (p + (32 + t.size)) ts in if suits a t then p + 32 else rest

unfoldable pub free_bytes : List Tile → ℕ
free_bytes [] = 0
free_bytes (t ∷ ts) = (if t.used then 0 else t.size) + free_bytes ts

-- The bytes of all blocks and their headers.
unfoldable pub total : List Tile → ℕ
total [] = 0
total (t ∷ ts) = 32 + t.size + total ts

-- A block that fits has at least 32 bytes to spare; sizes are those of an `unsigned int`.
unfoldable pub Roomy : ℕ → List Tile → Type 0
Roomy a [] = Unit {0}
Roomy a (t ∷ ts) = (suits a t ≡ true → a + 32 ≤ t.size) × (t.size < 2 ^ 32) × Roomy a ts

pub write-before : (c : Cells) (p : Ptr) (b : Header) (a : Ptr) → a + 32 ≤ p → write c p b a ≡ c a
unfolding write
write-before c p b a far =
    let other : (a == p) ≡ false = ground arith in
    let before : ltb p (a + 32) ≡ false = ground arith in
    let none : (ltb a (p + 32) && ltb p (a + 32)) ≡ false = ground arith in rw (other, none)

-- The cells from `q` on decide the list from `q` on.
Tiled-frame :
    (c c' : Cells) (q : Ptr) (ts : List Tile)
    → ((a : Ptr) → q ≤ a → c' a ≡ c a)
    → Tiled c q ts
    → Tiled c' q ts
unfolding Tiled
Tiled-frame c c' q [] h t = t
Tiled-frame c c' q (t ∷ []) h (ne, id, prev, at, rest) =
    (ne, id, prev, h q (omega arith) ∙ at, rest)
Tiled-frame c c' q (t ∷ (u ∷ us)) h (ne, id, prev, at, rest) = (
  ne,
  id,
  prev,
  h q (omega arith) ∙ at,
  Tiled-frame c c' (q + (32 + t.size)) (u ∷ us) (λ a le. h a (omega (arith, le))) rest,
)

pub carve-next : (a p size : ℕ) (ts : List Tile) → next_of p size (carve a ts) ≡ next_of p size ts
unfolding carve
carve-next a p size [] = refl
carve-next a p size (u ∷ us) = elim (Bool-cases (suits a u)) [
  | inl hit ↦ elim (Bool-cases (leb (a + 48) u.size)) [
    | inl wide ↦ rw (carve, hit, wide) refl
    | inr narrow ↦ rw (carve, hit, narrow) refl
  ]
  | inr miss ↦ rw (carve, miss) refl
]

-- What a change of the heap at and behind the block at `p` does.
pub record Took (m m' : Heap) (p : Ptr) (before after : List Tile) : Type 0 where
  pub tiled : Tiled m'.cell p after
  pub below : (x : Ptr) → x + 32 ≤ p → m'.cell x ≡ m.cell x
  pub same_start : m'.start ≡ m.start
  pub bytes : m'.available_bytes + free_bytes before ≡ m.available_bytes + free_bytes after

-- The list behind a block at `p`, where the cells from `n` on are as they were.
pub tail-frame :
    (c c' : Cells) (p n size : ℕ) (ts : List Tile)
    → n ≤ p + (32 + size)
    → ((x : Ptr) → n ≤ x → c' x ≡ c x)
    → Tiled c (next_of p size ts) ts
    → Tiled c' (next_of p size ts) ts
unfolding Tiled
tail-frame c c' p n size [] le h rest = rest
tail-frame c c' p n size (t ∷ ts) le h rest =
    Tiled-frame c c' (p + (32 + size)) (t ∷ ts) (λ x far. h x (omega (arith, le, far))) rest

-- A change behind a block, where a block still comes next.
pub Took-cons :
    (m m' : Heap) (p size : ℕ) (used : Bool) (t : Tile) (ts us : List Tile)
    → next_of p size us ≡ p + (32 + size)
    → Tiled m.cell p (record { size = size; used = used } ∷ t ∷ ts)
    → Took m m' (p + (32 + size)) (t ∷ ts) us
    → Took m m' p
        (record { size = size; used = used } ∷ t ∷ ts)
        (record { size = size; used = used } ∷ us)
unfolding Tiled free_bytes
Took-cons m m' p size used t ts us e (ne, id, prev, at, rest) k = record {
  tiled = (
    ne,
    id,
    prev,
    k.below p (omega arith)
        ∙ (at
            ∙ ap
                (λ q. some (record { id = id; size = size; is_used = used; next = q; prev = prev }))
                (sym e)),
    rw e k.tiled,
  );
  below = λ x far. k.below x (omega (arith, far));
  same_start = k.same_start;
  bytes = omega (arith, k.bytes);
}
