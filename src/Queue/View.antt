-- ===== src/Queue/View.antt =====
-- What a queue promises, with no pointers: the items in order, cut in two where the iterator
-- stands. The iterator is on the first item of `after`, or past the end if there is none.
-- An item of the type `A` is looked for by a test, and the first that passes is meant.
use sistemas_operacionais.Base.{
  ℕ, Bool, false, ◌||◌, Option, none, some, List, [], ◌∷◌, ◌++◌, if◌then◌else◌, length,
}

pub record View {ℓ} (A : Type ℓ) : Type ℓ where
  pub before : List A
  pub after : List A

module _ {ℓ} {A : Type ℓ} where
  abbrev pub view : List A → List A → View A
  view b a = record { before = b; after = a }

  abbrev pub items : View A → List A
  items v = v.before ++ v.after

  abbrev pub empty : View A
  empty = view [] []

  -- A first item takes the iterator along; a later one goes to the end.
  abbrev pub push_parts : A → List A → List A → View A
  push_parts x [] [] = view [] (x ∷ [])
  push_parts x (y ∷ b) [] = view ((y ∷ b) ++ (x ∷ [])) []
  push_parts x b (z ∷ a) = view b ((z ∷ a) ++ (x ∷ []))

  unfoldable pub push : A → View A → View A
  push x v = push_parts x v.before v.after

  abbrev pub any : (A → Bool) → List A → Bool
  any t [] = false
  any t (x ∷ xs) = t x || any t xs

  abbrev pub remove_first : (A → Bool) → List A → List A
  remove_first t [] = []
  remove_first t (x ∷ xs) = if t x then xs else x ∷ remove_first t xs

  -- An item under the iterator leaves it on the next one.
  unfoldable pub remove : (A → Bool) → View A → View A
  remove t v =
      if any t v.before
      then view (remove_first t v.before) v.after
      else view v.before (remove_first t v.after)

  abbrev pub current_of : List A → Option A
  current_of [] = none
  current_of (x ∷ _) = some x

  unfoldable pub current : View A → Option A
  current v = current_of v.after

  unfoldable pub rewind : View A → View A
  rewind v = view [] (v.before ++ v.after)

  abbrev pub advance_parts : List A → List A → View A
  advance_parts b [] = view b []
  advance_parts b (x ∷ a) = view (b ++ (x ∷ [])) a

  unfoldable pub advance : View A → View A
  advance v = advance_parts v.before v.after

  unfoldable pub count : View A → ℕ
  count v = length (v.before ++ v.after)
