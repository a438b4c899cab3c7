-- ===== src/Queue/Members.antt =====
-- Which tasks a queue's view holds, before and after an item is pushed or removed.
use mathlib.Core.List.{append-nil, append_assoc}
use sistemas_operacionais.Base.{
  ℕ, ◌≡◌, ◌≢◌, refl, sym, ap, ◌∙◌, Bool, true, false, not, ◌&&◌, ◌||◌, List, [], ◌∷◌, ◌++◌, arith,
  ◌==◌, if◌then◌else◌, ◌⊎◌, inl, inr, Bool-cases, ==_iff,
}
use sistemas_operacionais.Queue.View
use sistemas_operacionais.Queue.View.{View, items, any, remove_first, view}

-- The task is in the list.
abbrev pub mem : ℕ → List ℕ → Bool
mem p [] = false
mem p (q ∷ qs) = (p == q) || mem p qs

-- No task is in the list twice.
abbrev pub Distinct : List ℕ → Type 0
Distinct [] = Unit {0}
Distinct (p ∷ ps) = (mem p ps ≡ false) × Distinct ps

-- The test by which a queue looks for a task.
abbrev pub is_task : ℕ → ℕ → Bool
is_task p q = q == p

pub mem-ne : (p x : ℕ) (xs : List ℕ) → mem x xs ≡ false → mem p xs ≡ true → (p == x) ≡ false
mem-ne p x xs out i = elim (Bool-cases (p == x)) [
  | inl same ↦ let e : mem x xs ≡ true = rw (← (==_iff p x).0 same) i in cc
  | inr other ↦ other
]

pub mem-append :
    (p : ℕ) (xs ys : List ℕ) → mem p (xs ++ ys) ≡ true → (mem p xs ≡ true) ⊎ (mem p ys ≡ true)
mem-append p [] ys i = inr i
mem-append p (x ∷ xs) ys i = elim (Bool-cases (p == x)) [
  | inl here ↦ inl (rw here)
  | inr there ↦ elim (mem-append p xs ys (ground arith)) [
    | inl j ↦ inl (ground arith)
    | inr j ↦ inr j
  ]
]

mem-snoc : (p x : ℕ) (xs : List ℕ) → mem p (xs ++ (x ∷ [])) ≡ (mem p xs || (p == x))
mem-snoc p x [] = ground arith
mem-snoc p x (y ∷ xs) = ground (arith, mem-snoc p x xs)

Distinct-snoc : (x : ℕ) (xs : List ℕ) → Distinct xs → mem x xs ≡ false → Distinct (xs ++ (x ∷ []))
Distinct-snoc x [] d out = (refl, tt)
Distinct-snoc x (y ∷ xs) d out =
    (ground (arith, mem-snoc y x xs), Distinct-snoc x xs d.1 (ground arith))

-- The case of the item that is removed.
gone :
    (p x y : ℕ) (b : Bool)
    → (y == x) ≡ true
    → (b ≡ true → (p == y) ≡ false)
    → b ≡ (((p == y) || b) && not (p == x))
gone p x y true hit apart = let other = apart refl in ground arith
gone p x y false hit apart = ground arith

mem-remove_first :
    (p x : ℕ) (xs : List ℕ)
    → Distinct xs
    → mem p (remove_first (is_task x) xs) ≡ (mem p xs && not (p == x))
mem-remove_first p x [] d = refl
mem-remove_first p x (y ∷ xs) d = elim (Bool-cases (y == x)) [
  | inl hit ↦ rw hit (gone p x y (mem p xs) hit (mem-ne p y xs d.0))
  | inr miss ↦ rw miss (ground (arith, mem-remove_first p x xs d.1))
]

Distinct-remove_first : (x : ℕ) (xs : List ℕ) → Distinct xs → Distinct (remove_first (is_task x) xs)
Distinct-remove_first x [] d = tt
Distinct-remove_first x (y ∷ xs) d = elim (Bool-cases (y == x)) [
  | inl hit ↦ rw hit d.1
  | inr miss ↦ rw miss (ground (arith, mem-remove_first y x xs), Distinct-remove_first x xs d.1)
]

-- No task but `d` is in the list twice.
abbrev pub Single : ℕ → List ℕ → Type 0
Single d [] = Unit {0}
Single d (p ∷ ps) = (p ≢ d → mem p ps ≡ false) × Single d ps

Single-snoc :
    (d x : ℕ) (xs : List ℕ) → Single d xs → (x ≢ d → mem x xs ≡ false) → Single d (xs ++ (x ∷ []))
Single-snoc d x [] s out = ((λ _. refl), tt)
Single-snoc d x (y ∷ xs) s out = (
  (λ ne. elim (Bool-cases (y == x)) [
    | inl here ↦
        let e : y ≡ x = (==_iff y x).0 here in absurd (ground (arith, out (λ z. ne (e ∙ z))))
    | inr there ↦ let old = s.0 ne in ground (arith, mem-snoc y x xs)
  ]),
  Single-snoc d x xs s.1 (λ ne. ground (arith, out ne)),
)

mem-remove_first-other :
    (p x : ℕ) (xs : List ℕ) → (p == x) ≡ false → mem p (remove_first (is_task x) xs) ≡ mem p xs
mem-remove_first-other p x [] ne = refl
mem-remove_first-other p x (y ∷ xs) ne = elim (Bool-cases (y == x)) [
  | inl hit ↦ rw hit (ground (arith, ne))
  | inr miss ↦ rw miss (ap (λ b. (p == y) || b) (mem-remove_first-other p x xs ne))
]

mem-remove_first-less :
    (p x : ℕ) (xs : List ℕ) → mem p xs ≡ false → mem p (remove_first (is_task x) xs) ≡ false
mem-remove_first-less p x [] out = refl
mem-remove_first-less p x (y ∷ xs) out = elim (Bool-cases (y == x)) [
  | inl hit ↦ rw hit (ground arith)
  | inr miss ↦ rw miss (ground (arith, mem-remove_first-less p x xs))
]

Single-remove_first : (d x : ℕ) (xs : List ℕ) → Single d xs → Single d (remove_first (is_task x) xs)
Single-remove_first d x [] s = tt
Single-remove_first d x (y ∷ xs) s = elim (Bool-cases (y == x)) [
  | inl hit ↦ rw hit s.1
  | inr miss ↦
      rw miss ((λ ne. mem-remove_first-less y x xs (s.0 ne)), Single-remove_first d x xs s.1)
]

-- The task that is taken out is gone, if it is not `d`.
Single-gone :
    (d x : ℕ) (xs : List ℕ) → Single d xs → x ≢ d → mem x (remove_first (is_task x) xs) ≡ false
Single-gone d x [] s ne = refl
Single-gone d x (y ∷ xs) s ne = elim (Bool-cases (y == x)) [
  | inl hit ↦
      let e : y ≡ x = (==_iff y x).0 hit in
      rw hit (ap (λ z. mem z xs) (sym e) ∙ s.0 (λ z. ne (sym e ∙ z)))
  | inr miss ↦ rw miss (ground (arith, Single-gone d x xs s.1 ne))
]

pub any-mem : (x : ℕ) (xs : List ℕ) → any (is_task x) xs ≡ mem x xs
any-mem x [] = refl
any-mem x (y ∷ xs) = ground (arith, any-mem x xs)

cons-if {ℓ} :
    {A : Type ℓ} (x : A) (b : Bool) (xs ys : List A)
    → (x ∷ (if b then xs else ys)) ≡ (if b then x ∷ xs else x ∷ ys)
cons-if x true xs ys = refl
cons-if x false xs ys = refl

remove_first-append {ℓ} :
    {A : Type ℓ} (t : A → Bool) (xs ys : List A)
    → remove_first t (xs ++ ys)
      ≡ (if any t xs then remove_first t xs ++ ys else xs ++ remove_first t ys)
remove_first-append t [] ys = refl
remove_first-append t (x ∷ xs) ys = elim (Bool-cases (t x)) [
  | inl hit ↦ rw hit
  | inr miss ↦ rw (miss, remove_first-append t xs ys) (cons-if x (any t xs) _ _)
]

pub items-push {ℓ} : {A : Type ℓ} (x : A) (v : View A) → items (View.push x v) ≡ items v ++ (x ∷ [])
unfolding View.push
items-push {A} x v = go v.before v.after
  where
    go : (b a : List A) → items (View.push_parts x b a) ≡ (b ++ a) ++ (x ∷ [])
    go [] [] = refl
    go (y ∷ b) [] = rw (append-nil, append-nil)
    go [] (z ∷ a) = refl
    go (y ∷ b) (z ∷ a) = rw append_assoc

pub items-remove {ℓ} :
    {A : Type ℓ} (t : A → Bool) (v : View A) → items (View.remove t v) ≡ remove_first t (items v)
unfolding View.remove
items-remove t v = elim (Bool-cases (any t v.before)) [
  | inl found ↦ rw (found, remove_first-append t v.before v.after, found)
  | inr none ↦ rw (none, remove_first-append t v.before v.after, none)
]

module _ (x : ℕ) (v : View ℕ) where
  pub mem-push : (p : ℕ) → mem p (items (View.push x v)) ≡ (mem p (items v) || (p == x))
  mem-push p = ap (mem p) (items-push x v) ∙ mem-snoc p x (items v)

  pub Distinct-push :
      Distinct (items v) → mem x (items v) ≡ false → Distinct (items (View.push x v))
  Distinct-push d out = rw (items-push x v) (Distinct-snoc x (items v) d out)

  module _ (d : Distinct (items v)) where
    pub mem-remove :
        (p : ℕ) → mem p (items (View.remove (is_task x) v)) ≡ (mem p (items v) && not (p == x))
    mem-remove p = ap (mem p) (items-remove (is_task x) v) ∙ mem-remove_first p x (items v) d

    pub Distinct-remove : Distinct (items (View.remove (is_task x) v))
    Distinct-remove = rw (items-remove (is_task x) v) (Distinct-remove_first x (items v) d)

module _ (d x : ℕ) (v : View ℕ) where
  pub Single-push :
      Single d (items v) → (x ≢ d → mem x (items v) ≡ false) → Single d (items (View.push x v))
  Single-push s out = rw (items-push x v) (Single-snoc d x (items v) s out)

  pub Single-remove : Single d (items v) → Single d (items (View.remove (is_task x) v))
  Single-remove s = rw (items-remove (is_task x) v) (Single-remove_first d x (items v) s)

  pub remove-gone : Single d (items v) → x ≢ d → mem x (items (View.remove (is_task x) v)) ≡ false
  remove-gone s ne = rw (items-remove (is_task x) v) (Single-gone d x (items v) s ne)

  pub mem-remove-other :
      (p : ℕ) → (p == x) ≡ false → mem p (items (View.remove (is_task x) v)) ≡ mem p (items v)
  mem-remove-other p ne =
      ap (mem p) (items-remove (is_task x) v) ∙ mem-remove_first-other p x (items v) ne

-- The iterator's moves keep the items.
pub items-rewind {ℓ} : {A : Type ℓ} (v : View A) → items (View.rewind v) ≡ items v
unfolding View.rewind
items-rewind v = refl

pub items-advance {ℓ} : {A : Type ℓ} (v : View A) → items (View.advance v) ≡ items v
unfolding View.advance
items-advance {A} v = go v.before v.after
  where
    go : (b a : List A) → items (View.advance_parts b a) ≡ b ++ a
    go b [] = refl
    go b (x ∷ a) = append_assoc b (x ∷ []) a
