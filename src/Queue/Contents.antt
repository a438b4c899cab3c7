-- ===== src/Queue/Contents.antt =====
-- The items of lib/queue.c without the nodes that hold them.
use sistemas_operacionais.Base.{
  ◌≡◌, refl, sym, ap, ◌∙◌, Bool, ◌||◌, ◌==◌, none, some, Option, List, [], ◌∷◌, ◌++◌, Bool-cases,
  inl, inr, suc, length,
}
use sistemas_operacionais.Queue.Store.{Ptr, null, Item}
use sistemas_operacionais.Queue.View
use sistemas_operacionais.Queue.View.{View, view, items, any, remove_first}
use sistemas_operacionais.Queue.Chain.{Cells}
use sistemas_operacionais.Queue.Del.{holds}
use sistemas_operacionais.Queue.Walk.{content_of}

-- The test by which an item is looked for.
abbrev pub is_item : Item → Item → Bool
is_item x y = y == x

-- The items in order, without their addresses.
unfoldable pub contents : Cells → List Item
contents [] = []
contents ((_, x) ∷ xs) = x ∷ contents xs

unfoldable pub plain : View (Ptr × Item) → View Item
plain v = view (contents v.before) (contents v.after)

contents-append : (xs ys : Cells) → contents (xs ++ ys) ≡ contents xs ++ contents ys
unfolding contents
contents-append [] ys = refl
contents-append ((p, x) ∷ xs) ys = ap (λ l. x ∷ l) (contents-append xs ys)

pub contents-any : (x : Item) (xs : Cells) → any (holds x) xs ≡ any (is_item x) (contents xs)
unfolding contents
contents-any x [] = refl
contents-any x ((p, y) ∷ xs) = ap (λ b. (y == x) || b) (contents-any x xs)

contents-remove_first :
    (x : Item) (xs : Cells)
    → contents (remove_first (holds x) xs) ≡ remove_first (is_item x) (contents xs)
unfolding contents
contents-remove_first x [] = refl
contents-remove_first x ((p, y) ∷ xs) = elim (Bool-cases (y == x)) [
  | inl hit ↦ rw hit refl
  | inr miss ↦ rw miss (ap (λ l. y ∷ l) (contents-remove_first x xs))
]

pub contents-length : (xs : Cells) → length (contents xs) ≡ length xs
unfolding contents
contents-length [] = refl
contents-length (c ∷ xs) = ap suc (contents-length xs)

pub plain-items : (v : View (Ptr × Item)) → contents (items v) ≡ items (plain v)
unfolding plain
plain-items v = contents-append v.before v.after

pub plain-push :
    (f : Ptr) (x : Item) (v : View (Ptr × Item))
    → plain (View.push (f, x) v) ≡ View.push x (plain v)
unfolding plain View.push contents
plain-push f x v = go v.before v.after
  where
    go :
        (b a : Cells)
        → plain (View.push_parts (f, x) b a) ≡ View.push_parts x (contents b) (contents a)
    go [] [] = refl
    go (y ∷ b) [] = ap (λ l. view l []) (contents-append (y ∷ b) ((f, x) ∷ []))
    go [] (z ∷ a) = ap (view []) (contents-append (z ∷ a) ((f, x) ∷ []))
    go (y ∷ b) (z ∷ a) = ap (view (contents (y ∷ b))) (contents-append (z ∷ a) ((f, x) ∷ []))

pub plain-remove :
    (x : Item) (v : View (Ptr × Item))
    → plain (View.remove (holds x) v) ≡ View.remove (is_item x) (plain v)
unfolding plain View.remove
plain-remove x v = elim (Bool-cases (any (holds x) v.before)) [
  | inl hit ↦
      rw (hit, sym (contents-any x v.before) ∙ hit)
        (ap (λ l. view l (contents v.after)) (contents-remove_first x v.before))
  | inr miss ↦
      rw (miss, sym (contents-any x v.before) ∙ miss)
        (ap (view (contents v.before)) (contents-remove_first x v.after))
]

pub plain-rewind : (v : View (Ptr × Item)) → plain (View.rewind v) ≡ View.rewind (plain v)
unfolding plain View.rewind contents
plain-rewind v = ap (view []) (contents-append v.before v.after)

pub plain-advance : (v : View (Ptr × Item)) → plain (View.advance v) ≡ View.advance (plain v)
unfolding plain View.advance contents
plain-advance v = go v.before v.after
  where
    go :
        (b a : Cells)
        → plain (View.advance_parts b a) ≡ View.advance_parts (contents b) (contents a)
    go b [] = refl
    go b (x ∷ a) = ap (λ l. view l (contents a)) (contents-append b (x ∷ []))

-- An item, NULL for none.
abbrev pub or_null : Option Item → Item
or_null none = null
or_null (some x) = x

pub plain-current :
    (v : View (Ptr × Item)) → content_of (View.current v) ≡ or_null (View.current (plain v))
unfolding plain View.current contents
plain-current v = go v.after
  where
    go : (a : Cells) → content_of (View.current_of a) ≡ or_null (View.current_of (contents a))
    go [] = refl
    go ((p, x) ∷ a) = refl
