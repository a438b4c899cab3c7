-- ===== src/Memory/FirstFit.antt =====
-- The search of `mem_alloc` is first fit over the list of blocks.
use sistemas_operacionais.Base.{
  ℕ, zero, suc, ◌+◌, ◌^◌, ◌≤◌, ◌<◌, ◌≡◌, refl, sym, ap, ◌∙◌, ◌≢◌, Bool, true, false, arith, leb,
  some, differ, List, [], ◌∷◌, length, Bool-cases, inl, inr,
}
use sistemas_operacionais.Memory.{
  Ptr, null, Header, Heap, Run, ok, load, take_split, take_whole, take, fits, alloc_loop,
}
use sistemas_operacionais.Memory.Split.{wide-splits}
use sistemas_operacionais.Memory.Tiling.{
  Tile, next_of, Tiled, suits, carve, place, free_bytes, Roomy, carve-next, Took, Took-cons,
}
use sistemas_operacionais.Memory.Cut.{free_header, take_split-Took, take_whole-Took, narrow-splits}

abbrev pub tile : (size : ℕ) (used : Bool) → Tile
tile size used = record { size = size; used = used }

-- A call of the search that ends at the block that first fit chooses.
pub record Placed (run : Run (Ptr × Heap)) (m : Heap) (a : ℕ) (p : Ptr) (ts : List Tile)
    : Type 0 where
  pub after : Heap
  pub is_run : run ≡ ok (place a p ts, after)
  pub took : Took m after p ts (carve a ts)

module _ (a k id : ℕ) (prev : Ptr) (m : Heap) (counted : m.available_bytes < 2 ^ 64) (p : Ptr)
    (ne : p ≢ null) (size : ℕ) (ts : List Tile) where
  take-Took :
      suits a (tile size false) ≡ true
      → a + 32 ≤ size
      → size < 2 ^ 32
      → size + free_bytes ts ≤ m.available_bytes
      → Tiled m.cell (next_of p size ts) ts
      → Placed
          (ok (take m p (free_header id prev size (next_of p size ts)) a))
          m
          a
          p
          (tile size false ∷ ts)
  unfolding take carve place
  take-Took hit room small enough rest = elim (Bool-cases (leb (a + 48) size)) [
    | inl wide ↦
        let far : a + 48 ≤ size = ground arith in
        record {
          after = take_split m p (free_header id prev size (next_of p size ts)) a;
          is_run = rw (take, wide-splits size a small far, place, hit) refl;
          took =
              rw (carve, hit, wide)
                (take_split-Took m p a size id prev ts ne far small counted enough rest);
        }
    | inr narrow ↦
        let near : size < a + 48 = ground arith in
        record {
          after = take_whole m p (free_header id prev size (next_of p size ts));
          is_run = rw (take, narrow-splits size a small room near, place, hit) refl;
          took =
              rw (carve, hit, narrow) (take_whole-Took m p size id prev ts ne counted enough rest);
        }
  ]

loop-hit :
    (k : ℕ) (m : Heap) (p : Ptr) (b : Header) (a : ℕ)
    → p ≢ null
    → m.cell p ≡ some b
    → fits b a ≡ true
    → alloc_loop (suc k) m p a ≡ ok (take m p b a)
unfolding alloc_loop load
loop-hit k m p b a ne at fit = rw (alloc_loop, differ p null ne, at, fit) refl

loop-last :
    (k : ℕ) (m : Heap) (p : Ptr) (b : Header) (a : ℕ)
    → p ≢ null
    → m.cell p ≡ some b
    → fits b a ≡ false
    → b.next ≡ null
    → alloc_loop (suc k) m p a ≡ ok (null, m)
unfolding alloc_loop load
loop-last k m p b a ne at fit e = rw (alloc_loop, differ p null ne, at, fit, e) refl

loop-on :
    (k : ℕ) (m : Heap) (p : Ptr) (b : Header) (a : ℕ)
    → p ≢ null
    → m.cell p ≡ some b
    → fits b a ≡ false
    → b.next ≢ null
    → alloc_loop (suc k) m p a ≡ alloc_loop k m b.next a
unfolding alloc_loop load
loop-on k m p b a ne at fit on =
    rw (alloc_loop, differ p null ne, at, fit, differ b.next null on) refl

pub carve-miss :
    (a size : ℕ) (used : Bool) (ts : List Tile)
    → suits a (tile size used) ≡ false
    → carve a (tile size used ∷ ts) ≡ tile size used ∷ carve a ts
unfolding carve
carve-miss a size used ts miss = rw (carve, miss) refl

pub place-miss :
    (a p size : ℕ) (used : Bool) (ts : List Tile)
    → suits a (tile size used) ≡ false
    → place a p (tile size used ∷ ts) ≡ place a (p + (32 + size)) ts
unfolding place
place-miss a p size used ts miss = rw (place, miss) refl

module _ (k : ℕ) (m : Heap) (p a size : ℕ) where
  hit-Placed :
      (ts : List Tile)
      → suits a (tile size false) ≡ true
      → m.available_bytes < 2 ^ 64
      → Tiled m.cell p (tile size false ∷ ts)
      → Roomy a (tile size false ∷ ts)
      → free_bytes (tile size false ∷ ts) ≤ m.available_bytes
      → Placed (alloc_loop (suc k) m p a) m a p (tile size false ∷ ts)
  unfolding Tiled Roomy free_bytes fits
  hit-Placed ts hit counted (ne, id, prev, at, rest) (room, small, roomy) enough =
      rw (loop-hit k m p (free_header id prev size (next_of p size ts)) a ne at hit)
        (take-Took a k id prev m counted p ne size ts hit (room hit) small enough rest)

  last-Placed :
      (used : Bool)
      → suits a (tile size used) ≡ false
      → Tiled m.cell p (tile size used ∷ [])
      → Placed (alloc_loop (suc k) m p a) m a p (tile size used ∷ [])
  unfolding Tiled fits carve place
  last-Placed used miss (ne, id, prev, at, rest) = record {
    after = m;
    is_run =
        loop-last k m p _ a ne at miss refl
        ∙ ap (λ q. ok (q, m)) (sym (place-miss a p size used [] miss));
    took = rw (carve-miss a size used [] miss) (record {
      tiled = (ne, id, prev, at, rest);
      below = λ x far. refl;
      same_start = refl;
      bytes = refl;
    });
  }

  on-Placed :
      (used : Bool) (u : Tile) (us : List Tile)
      → suits a (tile size used) ≡ false
      → Tiled m.cell p (tile size used ∷ u ∷ us)
      → Placed (alloc_loop k m (p + (32 + size)) a) m a (p + (32 + size)) (u ∷ us)
      → Placed (alloc_loop (suc k) m p a) m a p (tile size used ∷ u ∷ us)
  unfolding Tiled fits
  on-Placed used u us miss (ne, id, prev, at, rest) t = record {
    after = t.after;
    is_run =
        loop-on k m p _ a ne at miss (λ e. absurd (omega (arith, e)))
        ∙ (t.is_run ∙ ap (λ q. ok (q, t.after)) (sym (place-miss a p size used (u ∷ us) miss)));
    took = rw (carve-miss a size used (u ∷ us) miss) (
        Took-cons m t.after p size used u us _ (carve-next a p size (u ∷ us))
          (ne, id, prev, at, rest) t.took);
  }

-- The search over a list of blocks is first fit, with as much fuel as there are blocks.
pub loop-Placed :
    (k : ℕ) (m : Heap) (p a size : ℕ) (used : Bool) (ts : List Tile)
    → m.available_bytes < 2 ^ 64
    → length ts < k
    → Tiled m.cell p (tile size used ∷ ts)
    → Roomy a (tile size used ∷ ts)
    → free_bytes (tile size used ∷ ts) ≤ m.available_bytes
    → Placed (alloc_loop k m p a) m a p (tile size used ∷ ts)
unfolding Tiled Roomy free_bytes
loop-Placed zero m p a size used ts counted fuel tiled roomy enough = absurd (omega (arith, fuel))
loop-Placed (suc k) m p a size true [] counted fuel tiled roomy enough =
    last-Placed k m p a size true refl tiled
loop-Placed (suc k) m p a size true (u ∷ us) counted fuel tiled roomy enough =
    on-Placed k m p a size true u us refl tiled (
      loop-Placed k m (p + (32 + size)) a u.size u.used us counted (omega (arith, fuel)) tiled.4
        roomy.2 (omega (arith, enough)))
loop-Placed (suc k) m p a size false [] counted fuel tiled roomy enough =
    elim (Bool-cases (suits a (tile size false))) [
      | inl hit ↦ hit-Placed k m p a size [] hit counted tiled roomy enough
      | inr miss ↦ last-Placed k m p a size false miss tiled
    ]
loop-Placed (suc k) m p a size false (u ∷ us) counted fuel tiled roomy enough =
    elim (Bool-cases (suits a (tile size false))) [
      | inl hit ↦ hit-Placed k m p a size (u ∷ us) hit counted tiled roomy enough
      | inr miss ↦ on-Placed k m p a size false u us miss tiled (
          loop-Placed k m (p + (32 + size)) a u.size u.used us counted (omega (arith, fuel)) tiled.4
            roomy.2 (omega (arith, enough)))
    ]
