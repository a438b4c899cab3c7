-- ===== src/Queue/Cut.antt =====
-- The first item that passes a test, and a chain without one of its nodes.
use sistemas_operacionais.Base.{
  ◌≡◌, refl, sym, ap, ◌∙◌, ◌≢◌, Bool, true, false, none, some, List, [], ◌∷◌, ◌++◌, arith,
}
use sistemas_operacionais.Queue.Store.{Ptr, Item, node, Store, write}
use sistemas_operacionais.Queue.Steps.{write_self, write-other}
use sistemas_operacionais.Queue.View.{any, remove_first}
use sistemas_operacionais.Queue.Chain.{
  Cells, has_ptr, head_ptr, last_ptr, Chain, SameOutside, has_ptr-append, Chain-frame, last_content,
  tail-mem, tail-out, head-ne, head-mem, ne_of_has, ne-last,
}

-- A list in which some item passes a test, cut at the first that does.
pub record Found {ℓ} {A : Type ℓ} (t : A → Bool) (xs : List A) : Type ℓ where
  pub pre : List A
  pub hit : A
  pub rest : List A
  pub parts : xs ≡ pre ++ (hit ∷ rest)
  pub missed : any t pre ≡ false
  pub passes : t hit ≡ true

module _ {ℓ} {A : Type ℓ} (t : A → Bool) where
  Found-cons : (x : A) (xs : List A) → t x ≡ false → Found t xs → Found t (x ∷ xs)
  Found-cons x xs miss f = record {
    pre = x ∷ f.pre;
    hit = f.hit;
    rest = f.rest;
    parts = ap (λ (l : List A). x ∷ l) f.parts;
    missed = rw miss f.missed;
    passes = f.passes;
  }

  pub find : (xs : List A) → any t xs ≡ true → Found t xs
  find [] e = absurd (cc)
  find (x ∷ xs) e = go (t x) refl (λ miss. find xs (rw miss at e))
    where
      go : (b : Bool) → t x ≡ b → (t x ≡ false → Found t xs) → Found t (x ∷ xs)
      go true hit later = record {
        pre = [];
        hit = x;
        rest = xs;
        parts = refl;
        missed = refl;
        passes = hit;
      }
      go false miss later = Found-cons x xs miss (later miss)

  pub remove_first-found :
      (pre : List A) (d : A) (rest : List A)
      → any t pre ≡ false
      → t d ≡ true
      → remove_first t (pre ++ (d ∷ rest)) ≡ pre ++ rest
  remove_first-found [] d rest missed e = rw e
  remove_first-found (x ∷ pre) d rest missed e = ground (arith, remove_first-found pre d rest)

module _ (p : Ptr) (xs ys : Cells) (out : has_ptr p (xs ++ ys) ≡ false) where
  pub out-left : has_ptr p xs ≡ false
  out-left = ground (arith, has_ptr-append p xs ys)

  pub out-right : has_ptr p ys ≡ false
  out-right = ground (arith, has_ptr-append p xs ys)

pub out-cut :
    (p : Ptr) (xs : Cells) (d : Ptr × Item) (zs : Cells)
    → has_ptr p (xs ++ (d ∷ zs)) ≡ false
    → has_ptr p (xs ++ zs) ≡ false
out-cut p [] (a, c) zs out = tail-out p a c zs out
out-cut p ((a, c) ∷ xs) d zs out = ground (arith, out-cut p xs d zs)

-- A node does not occur again beside itself.
pub cut-out :
    (h : Store) (xs : Cells) (d : Ptr × Item) (zs : Cells)
    → Chain h (xs ++ (d ∷ zs))
    → has_ptr d.0 (xs ++ zs) ≡ false
cut-out h [] d zs l = l.2
cut-out h ((a, c) ∷ xs) (p, x) zs l =
    apart (cut-out h xs (p, x) zs l.3) (head-ne a p x zs (out-right a xs ((p, x) ∷ zs) l.2))
  where
    apart : has_ptr p (xs ++ zs) ≡ false → a ≢ p → has_ptr p ((a, c) ∷ (xs ++ zs)) ≡ false
    apart out ne = ground arith

pub last_ptr-append_cons :
    (xs : Cells) (z : Ptr × Item) (zs : Cells) → last_ptr (xs ++ (z ∷ zs)) ≡ last_ptr (z ∷ zs)
last_ptr-append_cons [] z zs = refl
last_ptr-append_cons (x ∷ []) z zs = refl
last_ptr-append_cons (x ∷ y ∷ xs) z zs = last_ptr-append_cons (y ∷ xs) z zs

-- A store in which the node before `d` leads past it links the shorter chain.
pub Chain-cut :
    (h g : Store) (c : Ptr × Item) (ys : Cells) (d : Ptr × Item) (zs : Cells)
    → Chain h ((c ∷ ys) ++ (d ∷ zs))
    → g (last_ptr (c ∷ ys)) ≡ some (node (head_ptr zs) (last_content (c ∷ ys)))
    → ((p : Ptr) → has_ptr p ((c ∷ ys) ++ zs) ≡ true → p ≢ last_ptr (c ∷ ys) → g p ≡ h p)
    → Chain g ((c ∷ ys) ++ zs)
Chain-cut h g (p, c) [] (dp, dc) zs l at same =
    let out : has_ptr p zs ≡ false = tail-out p dp dc zs l.2 in
    (
      l.0,
      at,
      out,
      Chain-frame h g zs l.3.3
          (λ a i. same a (tail-mem a p c zs i) (λ e. ne_of_has p a zs out i (sym e))),
    )
Chain-cut h g (p, c) (e ∷ ys) d zs l at same = (
  l.0,
  same p (head-mem p c ((e ∷ ys) ++ zs)) (ne-last p e ys (out-left p (e ∷ ys) (d ∷ zs) l.2)) ∙ l.1,
  out-cut p (e ∷ ys) d zs l.2,
  Chain-cut h g e ys d zs l.3 at (λ a i n. same a (tail-mem a p c ((e ∷ ys) ++ zs) i) n),
)

-- The store in which the node at `p` leads to `r` and the one at `d` is given back.
abbrev pub cut_store : Store → (p : Ptr) (c : Item) (d r : Ptr) → Store
cut_store h p c d r = write (write h p (some (node r c))) d none

pub Chain-cut_store :
    (h : Store) (c : Ptr × Item) (ys : Cells) (d : Ptr × Item) (zs : Cells)
    → Chain h ((c ∷ ys) ++ (d ∷ zs))
    → let g = cut_store h (last_ptr (c ∷ ys)) (last_content (c ∷ ys)) d.0 (head_ptr zs) in
      Chain g ((c ∷ ys) ++ zs) × SameOutside ((c ∷ ys) ++ (d ∷ zs)) h g
Chain-cut_store h c ys (d, x) zs l =
    let out : has_ptr d ((c ∷ ys) ++ zs) ≡ false = cut-out h (c ∷ ys) (d, x) zs l in
    let end : Ptr = last_ptr (c ∷ ys) in
    let ne : d ≢ end = ne-last d c ys (out-left d (c ∷ ys) zs out) in
    (
      Chain-cut h _ c ys (d, x) zs l (write-other _ d _ end (λ e. ne (sym e)) ∙ write_self h end _)
          (λ p i n.
            write-other _ d _ p (λ e. ne_of_has d p ((c ∷ ys) ++ zs) out i (sym e))
            ∙ write-other h end _ p n),
      λ p o.
          write-other _ d _ p (head-ne p d x zs (out-right p (c ∷ ys) ((d, x) ∷ zs) o))
          ∙ write-other h end _ p (ne-last p c ys (out-left p (c ∷ ys) ((d, x) ∷ zs) o)),
    )
