-- ===== src/Queue/Remove.antt =====
-- `queue_del` does to the pointers what removal does to the view.
use mathlib.Core.List.{append-nil}
use sistemas_operacionais.Base.{
  ℕ, suc, ◌≡◌, refl, sym, ap, ◌∙◌, ◌≢◌, true, false, none, [], ◌∷◌, ◌++◌, arith, ◌==◌,
  if◌then◌else◌, length, ==_iff, ◌⊎◌, inl, inr, length-append, differ, same,
}
use sistemas_operacionais.Queue.Store.{Ptr, null, Item, node, Store, load}
use sistemas_operacionais.Queue.{
  Queue, Status, no_error, del_only, del_first, del_loop, del_many, del_item,
}
use sistemas_operacionais.Queue.Steps.{load-ok, free-ok, write-other}
use sistemas_operacionais.Queue.View.{View, items, any}
use sistemas_operacionais.Queue.Cut.{last_ptr-append_cons, Chain-cut_store}
use sistemas_operacionais.Queue.Chain.{
  Cells, head_ptr, last_ptr, Chain, IsQueue, SameOutside, Ends, ends, Chain-frame, Chain-after,
  head-ne, ne_of_has, ne-last,
}
use sistemas_operacionais.Queue.Del.{holds, skip-run, del_loop-hit}

-- The node `d` has left the queue; the iterator has moved on if it was there.
pub record Cut (h : Store) (q : Queue) (pre : Cells) (d : Ptr × Item) (zs : Cells) (g : Store)
    (q' : Queue) : Type 0 where
  pub linked : Chain g (pre ++ zs)
  pub first : q'.first ≡ head_ptr (pre ++ zs)
  pub last : q'.last ≡ last_ptr (pre ++ zs)
  pub iterator : q'.iterator ≡ (if q.iterator == d.0 then head_ptr zs else q.iterator)
  pub size : q'.size ≡ length (pre ++ zs)
  pub same : SameOutside (pre ++ (d ∷ zs)) h g

abbrev pub CutBy : Store → Queue → Cells → Ptr × Item → Cells → Status × Queue → Store → Type 0
CutBy h q pre d zs (s, q') g = (s ≡ no_error) × Cut h q pre d zs g q'

-- The `switch` at a size of two or more.
pub several {ℓ} :
    {A : Type ℓ} (x y z : A) (n k : ℕ)
    → n ≡ suc (suc k)
    → (if n == 0 then x else if n == 1 then y else z) ≡ z
several x y z n k e = rw (differ n 0 (omega arith), differ n 1 (omega arith))

-- The last node after `d` has gone.
last-cut :
    (h : Store) (c : Ptr × Item) (ys : Cells) (d : Ptr × Item) (zs : Cells) (end : Ptr)
    → Chain h ((c ∷ ys) ++ (d ∷ zs))
    → end ≡ last_ptr ((c ∷ ys) ++ (d ∷ zs))
    → (if d.0 == end then last_ptr (c ∷ ys) else end) ≡ last_ptr ((c ∷ ys) ++ zs)
last-cut h c ys d [] end l e =
    let e' : end ≡ d.0 = e ∙ last_ptr-append_cons (c ∷ ys) d [] in
    let t : (d.0 == end) ≡ true = (==_iff d.0 end).1 (sym e') in rw (t, append-nil)
last-cut h c ys d (z ∷ zs) end l e =
    let e' : end ≡ last_ptr (z ∷ zs) = e ∙ last_ptr-append_cons (c ∷ ys) d (z ∷ zs) in
    let ne : d.0 ≢ last_ptr (z ∷ zs) = ne-last d.0 z zs (Chain-after h (c ∷ ys) (d ∷ z ∷ zs) l).2 in
    rw (differ d.0 end (λ i. ne (i ∙ e'))) (e' ∙ sym (last_ptr-append_cons (c ∷ ys) z zs))

length-cut :
    (xs : Cells) (d : Ptr × Item) (zs : Cells) → length (xs ++ (d ∷ zs)) ≡ suc (length (xs ++ zs))
length-cut xs d zs = omega (arith, length-append xs (d ∷ zs), length-append xs zs)

-- `del_many` with the item further on.
many-later :
    (h : Store) (q : Queue) (x : Item) (c : Ptr × Item) (ys : Cells) (d : Ptr × Item) (zs : Cells)
    → Chain h ((c ∷ ys) ++ (d ∷ zs))
    → q.first ≡ c.0
    → q.last ≡ last_ptr ((c ∷ ys) ++ (d ∷ zs))
    → q.size ≡ length ((c ∷ ys) ++ (d ∷ zs))
    → any (holds x) (c ∷ ys) ≡ false
    → holds x d ≡ true
    → Ends (CutBy h q (c ∷ ys) d zs) (del_many q x h)
unfolding del_many
many-later h q x (p, c) ys d zs l first last size missed hit =
    let at = Chain-cut_store h (p, c) ys d zs l in
    rw
      (
        ap (λ (a : Ptr). load a h) first ∙ load-ok h l.0 l.1,
        miss,
        ap (λ (a : Ptr). del_loop q.size q x a h) first
            ∙ del_loop-hit h q x q.size (p, c) ys d zs l (ground arith) hit
                (omega (arith, size, length-append ((p, c) ∷ ys) (d ∷ zs))),
      )
      (ends (
        refl,
        record {
          linked = at.0;
          first = first;
          last = last-cut h (p, c) ys d zs q.last l last;
          iterator = refl;
          size = omega (arith, size, length-cut ((p, c) ∷ ys) d zs);
          same = at.1;
        },
      ))
  where
    miss : (c == x) ≡ false
    miss = ground arith

-- `del_many` with the item in the first node.
many-first :
    (h : Store) (q : Queue) (x : Item) (d z : Ptr × Item) (zs : Cells)
    → Chain h (d ∷ z ∷ zs)
    → q.first ≡ d.0
    → q.last ≡ last_ptr (d ∷ z ∷ zs)
    → q.size ≡ length (d ∷ z ∷ zs)
    → holds x d ≡ true
    → Ends (CutBy h q [] d (z ∷ zs)) (del_many q x h)
unfolding del_many del_first
many-first h q x (p, c) z zs l first last size hit =
    rw
      (
        first,
        load-ok h l.0 l.1,
        hit,
        skip-run h q.iterator p (node z.0 c) l.0 l.1,
        load-ok h l.0 l.1,
        free-ok h l.0 l.1,
      )
      (ends (
        refl,
        record {
          linked =
              Chain-frame h _ (z ∷ zs) l.3
                (λ a i. write-other h p none a (λ e. ne_of_has p a (z ∷ zs) l.2 i (sym e)));
          first = refl;
          last = last;
          iterator = refl;
          size = omega (arith, size);
          same = λ a o. write-other h p none a (head-ne a p c (z ∷ zs) o);
        },
      ))

-- `case 1`: the fields are cleared, the iterator with them.
only-hit :
    (h : Store) (q : Queue) (x : Item) (d : Ptr × Item)
    → Chain h (d ∷ [])
    → q.first ≡ d.0
    → (q.iterator ≡ d.0) ⊎ (q.iterator ≡ null)
    → holds x d ≡ true
    → Ends (CutBy h q [] d []) (del_only q x h)
unfolding del_only
only-hit h q x (p, c) l first at hit =
    rw (first, load-ok h l.0 l.1, hit, free-ok h l.0 l.1)
      (ends (
        refl,
        record {
          linked = tt;
          first = refl;
          last = refl;
          iterator = cleared p q.iterator at;
          size = refl;
          same = λ a o. write-other h p none a (head-ne a p c [] o);
        },
      ))
  where
    cleared : (p it : Ptr) → (it ≡ p) ⊎ (it ≡ null) → null ≡ (if it == p then null else it)
    cleared p it at = ground arith

-- An iterator on a queue with one node is on it or past it.
only-iterator :
    (b a : Cells) (d : Ptr × Item) → b ++ a ≡ d ∷ [] → (head_ptr a ≡ d.0) ⊎ (head_ptr a ≡ null)
only-iterator [] [] d e = inr refl
only-iterator [] (y ∷ a) d e = inl (ap head_ptr e)
only-iterator (y ∷ b) [] d e = inr refl
only-iterator (y ∷ b) (z ∷ a) d e = absurd (omega (arith, ap length e, length-append b (z ∷ a)))

-- The node that is meant leaves the queue, whatever the size.
pub item-hit :
    (h : Store) (q : Queue) (x : Item) (v : View (Ptr × Item)) (pre : Cells) (d : Ptr × Item)
    (zs : Cells)
    → IsQueue h q v
    → items v ≡ pre ++ (d ∷ zs)
    → any (holds x) pre ≡ false
    → holds x d ≡ true
    → Ends (CutBy h q pre d zs) (del_item q x h)
unfolding del_item
item-hit h q x v pre d zs is e missed hit = go pre zs e missed
  where
    at : (n : ℕ) → length (items v) ≡ n → q.size ≡ n
    at n i = is.size ∙ i

    go :
        (pre zs : Cells)
        → items v ≡ pre ++ (d ∷ zs)
        → any (holds x) pre ≡ false
        → Ends (CutBy h q pre d zs) (del_item q x h)
    go [] [] e missed =
        rw (differ q.size 0 (omega (arith, at 1 (ap length e))), same q.size 1 (at 1 (ap length e)))
          (only-hit h q x d (rw e at is.linked) (is.first ∙ ap head_ptr e)
            (rw is.iterator (only-iterator v.before v.after d e)) hit)
    go [] (z ∷ zs) e missed = rw (several _ _ _ q.size (length zs) (at _ (ap length e))) (
        many-first h q x d z zs (rw e at is.linked) (is.first ∙ ap head_ptr e)
          (is.last ∙ ap last_ptr e) (is.size ∙ ap length e) hit)
    go (c ∷ ys) zs e missed =
        rw
          (several _ _ _ q.size (length (ys ++ zs)) (at _ (ap length e ∙ length-cut (c ∷ ys) d zs)))
          (many-later h q x c ys d zs (rw e at is.linked) (is.first ∙ ap head_ptr e)
            (is.last ∙ ap last_ptr e) (is.size ∙ ap length e) missed hit)
