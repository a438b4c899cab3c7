-- ===== src/Queue/Chain.antt =====
-- Chains of nodes in the store, and the relation between a queue's fields and its view.
use mathlib.Core.Bool.{or_assoc}
use sistemas_operacionais.Base.{
  ℕ, ◌≡◌, refl, ◌≢◌, Bool, true, false, ◌||◌, Option, some, List, [], ◌∷◌, ◌++◌, arith, ◌==◌,
  length,
}
use sistemas_operacionais.Queue.Store.{Ptr, null, Item, node, Store, write, Run, ok, chain}
use sistemas_operacionais.Queue.{Queue}
use sistemas_operacionais.Queue.View.{View, items}

-- Address and content of each node, in order.
abbrev pub Cells : Type 0
Cells = List (Ptr × Item)

abbrev pub has_ptr : Ptr → Cells → Bool
has_ptr p [] = false
has_ptr p ((a, _) ∷ xs) = (p == a) || has_ptr p xs

abbrev pub head_ptr : Cells → Ptr
head_ptr [] = null
head_ptr ((p, _) ∷ _) = p

abbrev pub last_ptr : Cells → Ptr
last_ptr [] = null
last_ptr ((p, _) ∷ []) = p
last_ptr (_ ∷ c ∷ xs) = last_ptr (c ∷ xs)

-- The cells lie in the store at distinct addresses, each linked to the next, the last to NULL.
abbrev pub Chain : Store → Cells → Type 0
Chain h [] = Unit {0}
Chain h ((p, c) ∷ xs) =
    (p ≢ null) × (h p ≡ some (node (head_ptr xs) c)) × (has_ptr p xs ≡ false) × Chain h xs

-- The queue at these fields holds the cells of the view, and its iterator stands at its cut.
pub record IsQueue (h : Store) (q : Queue) (v : View (Ptr × Item)) : Type 0 where
  pub linked : Chain h (items v)
  pub first : q.first ≡ head_ptr (items v)
  pub last : q.last ≡ last_ptr (items v)
  pub iterator : q.iterator ≡ head_ptr v.after
  pub size : q.size ≡ length (items v)

-- The stores agree at every address that none of the cells has.
abbrev pub SameOutside : Cells → Store → Store → Type 0
SameOutside xs h g = (p : Ptr) → has_ptr p xs ≡ false → g p ≡ h p

-- A call ends without a fault and with fuel to spare, in a state of which `P` holds.
pub data Ends {A : Type 0} (P : A → Store → Type 0) : Run A → Type 0 where
  ends : {a : A} {h : Store} → P a h → Ends P (ok a h)

pub has_ptr-append :
    (p : Ptr) (xs ys : Cells) → has_ptr p (xs ++ ys) ≡ (has_ptr p xs || has_ptr p ys)
has_ptr-append p [] ys = refl
has_ptr-append p ((a, c) ∷ xs) ys = rw (has_ptr-append p xs ys, or_assoc)

-- A chain survives any change that spares its addresses.
pub Chain-frame :
    (h g : Store) (xs : Cells)
    → Chain h xs
    → ((p : Ptr) → has_ptr p xs ≡ true → g p ≡ h p)
    → Chain g xs
Chain-frame h g [] l same = tt
Chain-frame h g ((p, c) ∷ xs) l same =
    (l.0, ground (arith, same p), l.2, Chain-frame h g xs l.3 (λ a i. same a (ground arith)))

pub Chain-write :
    (h : Store) (p : Ptr) (n : Option _) (xs : Cells)
    → Chain h xs
    → has_ptr p xs ≡ false
    → Chain (write h p n) xs
unfolding write
Chain-write h p n xs l out = Chain-frame h _ xs l (λ a i. ground arith)

-- The tail of a chain after a part of it.
pub Chain-after : (h : Store) (xs ys : Cells) → Chain h (xs ++ ys) → Chain h ys
Chain-after h [] ys l = l
Chain-after h (x ∷ xs) ys l = Chain-after h xs ys l.3

pub head_ptr-ne-null :
    (h : Store) (c : Ptr × Item) (xs : Cells) → Chain h (c ∷ xs) → head_ptr (c ∷ xs) ≢ null
head_ptr-ne-null h (p, c) xs l = l.0

pub has_ptr-last : (c : Ptr × Item) (xs : Cells) → has_ptr (last_ptr (c ∷ xs)) (c ∷ xs) ≡ true
has_ptr-last (p, c) [] = ground arith
has_ptr-last (p, c) (d ∷ xs) = ground (arith, has_ptr-last d xs)

-- Addresses in a chain are not NULL.
pub ne_null_of_has :
    (h : Store) (p : Ptr) (xs : Cells) → Chain h xs → has_ptr p xs ≡ true → p ≢ null
ne_null_of_has h p [] l i = λ e. cc
ne_null_of_has h p ((a, c) ∷ xs) l i = ground (arith, ne_null_of_has h p xs l.3)

abbrev pub last_content : Cells → Item
last_content [] = null
last_content ((_, c) ∷ []) = c
last_content (_ ∷ c ∷ xs) = last_content (c ∷ xs)

pub holds-last :
    (h : Store) (c : Ptr × Item) (xs : Cells)
    → Chain h (c ∷ xs)
    → h (last_ptr (c ∷ xs)) ≡ some (node null (last_content (c ∷ xs)))
holds-last h (p, c) [] l = l.1
holds-last h (p, c) (d ∷ xs) l = holds-last h d xs l.3

pub has_ptr-snoc :
    (p f x : ℕ) (xs : Cells)
    → has_ptr p xs ≡ false
    → p ≢ f
    → has_ptr p (xs ++ ((f, x) ∷ [])) ≡ false
has_ptr-snoc p f x [] out ne = ground arith
has_ptr-snoc p f x ((a, c) ∷ xs) out ne = ground (arith, has_ptr-snoc p f x xs)

pub snoc-out :
    (p f x : ℕ) (xs : Cells)
    → has_ptr p (xs ++ ((f, x) ∷ [])) ≡ false
    → (has_ptr p xs ≡ false) × (p ≢ f)
snoc-out p f x xs o = ground (arith, has_ptr-append p xs ((f, x) ∷ []))

module _ (a p c : ℕ) (xs : Cells) where
  pub tail-mem : has_ptr a xs ≡ true → has_ptr a ((p, c) ∷ xs) ≡ true
  tail-mem i = ground arith

  pub tail-out : has_ptr a ((p, c) ∷ xs) ≡ false → has_ptr a xs ≡ false
  tail-out out = ground arith

  pub head-ne : has_ptr a ((p, c) ∷ xs) ≡ false → a ≢ p
  head-ne out = ground arith

pub head-mem : (p c : ℕ) (xs : Cells) → has_ptr p ((p, c) ∷ xs) ≡ true
head-mem p c xs = ground arith

pub ne_of_has : (p q : Ptr) (xs : Cells) → has_ptr p xs ≡ false → has_ptr q xs ≡ true → p ≢ q
ne_of_has p q xs out i e = let e' : has_ptr p xs ≡ true = rw e i in cc

pub ne-last :
    (p : Ptr) (d : Ptr × Item) (xs : Cells) → has_ptr p (d ∷ xs) ≡ false → p ≢ last_ptr (d ∷ xs)
ne-last p d xs out = ne_of_has p (last_ptr (d ∷ xs)) (d ∷ xs) out (has_ptr-last d xs)

pub last_ptr-append : (xs : Cells) (f x : ℕ) → last_ptr (xs ++ ((f, x) ∷ [])) ≡ f
last_ptr-append [] f x = refl
last_ptr-append (c ∷ []) f x = refl
last_ptr-append (c ∷ d ∷ xs) f x = last_ptr-append (d ∷ xs) f x

-- A call that goes on with the value of another.
pub Ends-chain :
    {A B : Type 0} {P : A → Store → Type 0} {Q : B → Store → Type 0} {r : Run A}
    (k : A → Store → Run B)
    → Ends P r
    → ((a : A) (h : Store) → P a h → Ends Q (k a h))
    → Ends Q (chain r k)
Ends-chain k (ends p) next = next _ _ p

pub Ends-map :
    {A : Type 0} {P Q : A → Store → Type 0} {r : Run A}
    → ((a : A) (h : Store) → P a h → Q a h)
    → Ends P r
    → Ends Q r
Ends-map f (ends p) = ends (f _ _ p)
