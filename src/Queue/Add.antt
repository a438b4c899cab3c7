-- ===== src/Queue/Add.antt =====
-- `queue_create` and `queue_add`: the item goes to the end of the view.
use mathlib.Core.List.{append-nil, append_assoc}
use sistemas_operacionais.Base.{
  ℕ, suc, ◌+◌, ◌≡◌, refl, sym, ap, ◌∙◌, ◌≢◌, true, false, Option, some, [], ◌∷◌, ◌++◌, arith, ◌==◌,
  length, length-append,
}
use sistemas_operacionais.Queue.Store.{Ptr, null, Item, Node, node, Store, write, ok}
use sistemas_operacionais.Queue.{Queue, Status, no_error, attach, add}
use sistemas_operacionais.Queue.Steps.{set_next-ok, write_self, write-other}
use sistemas_operacionais.Queue.View
use sistemas_operacionais.Queue.View.{View, items, view, push_parts}
use sistemas_operacionais.Queue.Chain.{
  Cells, has_ptr, head_ptr, last_ptr, Chain, IsQueue, SameOutside, Ends, ends, has_ptr-last,
  ne_null_of_has, last_content, holds-last, has_ptr-snoc, snoc-out, tail-mem, tail-out, head-ne,
  head-mem, ne_of_has, ne-last, last_ptr-append,
}

-- A store in which the last node leads to a new one links the longer chain.
Chain-grow :
    (h g : Store) (f x : ℕ) (c : Ptr × Item) (xs : Cells)
    → Chain h (c ∷ xs)
    → has_ptr f (c ∷ xs) ≡ false
    → f ≢ null
    → g f ≡ some (node null x)
    → g (last_ptr (c ∷ xs)) ≡ some (node f (last_content (c ∷ xs)))
    → ((p : Ptr) → has_ptr p (c ∷ xs) ≡ true → p ≢ last_ptr (c ∷ xs) → g p ≡ h p)
    → Chain g ((c ∷ xs) ++ ((f, x) ∷ []))
Chain-grow h g f x (p, c) [] l out ne new link same = ground arith
Chain-grow h g f x (p, c) (d ∷ xs) l out ne new link same = (
  l.0,
  same p (head-mem p c (d ∷ xs)) (ne-last p d xs l.2) ∙ l.1,
  has_ptr-snoc p f x (d ∷ xs) l.2 (λ e. head-ne f p c (d ∷ xs) out (sym e)),
  Chain-grow h g f x d xs l.3 (tail-out f p c (d ∷ xs) out) ne new link
      (λ a i n. same a (tail-mem a p c (d ∷ xs) i) n),
)

-- What the view is when the queue is not empty.
push-items : (x : Ptr × Item) (v : View (Ptr × Item)) → items (View.push x v) ≡ items v ++ (x ∷ [])
unfolding View.push
push-items x v = go v.before v.after
  where
    go : (b a : Cells) → items (View.push_parts x b a) ≡ (b ++ a) ++ (x ∷ [])
    go [] [] = refl
    go (y ∷ b) [] = rw (append-nil, append-nil)
    go [] (z ∷ a) = refl
    go (y ∷ b) (z ∷ a) = rw append_assoc

-- `queue_add` on a queue that is not empty: the new node, then the link behind the last one.
add-run :
    (h : Store) (q : Queue) (f x c : ℕ) {n : Node}
    → x ≢ null
    → f ≢ null
    → q.size ≡ suc c
    → q.last ≢ null
    → q.last ≢ f
    → h q.last ≡ some n
    → add f (some q) x h
      ≡ ok
          (no_error, some (record q { last = f; size = q.size + 1 }))
          (write (write h f (some (node null x))) q.last (some (node f n.content)))
unfolding add
add-run h q f x c {n} xn fn size ln lf e =
    rw (x_set, f_set, nonempty, set_next-ok (write h f (some (node null x))) ln kept f)
  where
    x_set : (x == null) ≡ false
    x_set = ground arith

    f_set : (f == null) ≡ false
    f_set = ground arith

    nonempty : (q.size == 0) ≡ false
    nonempty = ground arith

    kept : write h f (some (node null x)) q.last ≡ some n
    kept = unfold write in ground arith

-- The store after `add-run` links the longer chain, and is the old one elsewhere.
linked-grow :
    (h : Store) (f x : ℕ) (c : Ptr × Item) (xs : Cells) (end : Ptr)
    → end ≡ last_ptr (c ∷ xs)
    → Chain h (c ∷ xs)
    → has_ptr f (c ∷ xs) ≡ false
    → f ≢ null
    → let g = write (write h f (some (node null x))) end (some (node f (last_content (c ∷ xs)))) in
      Chain g ((c ∷ xs) ++ ((f, x) ∷ [])) × SameOutside ((c ∷ xs) ++ ((f, x) ∷ [])) h g
linked-grow h f x c xs end at l out ne =
    let g : Store =
      write (write h f (some (node null x))) end (some (node f (last_content (c ∷ xs)))) in
    let last_ne : f ≢ end = λ e. ne-last f c xs out (e ∙ at) in
    (
      Chain-grow h g f x c xs l out ne (write-other _ end _ f last_ne ∙ write_self h f _)
          (ap g (sym at) ∙ write_self _ end _)
          (λ p i n.
            write-other _ end _ p (λ e. n (e ∙ at))
            ∙ write-other h f _ p (λ e. ne_of_has f p (c ∷ xs) out i (sym e))),
      λ p o.
          let (o1, o2) = snoc-out p f x (c ∷ xs) o in
          write-other _ end _ p (λ e. ne-last p c xs o1 (e ∙ at)) ∙ write-other h f _ p o2,
    )

-- The head of the part behind the iterator changes only if the queue was empty.
head-push :
    (x y : Ptr × Item) (b a xs : Cells)
    → b ++ a ≡ y ∷ xs
    → head_ptr (View.push_parts x b a).after ≡ head_ptr a
head-push x y [] [] xs e = cc
head-push x y (z ∷ b) [] xs e = refl
head-push x y [] (z ∷ a) xs e = refl
head-push x y (w ∷ b) (z ∷ a) xs e = refl

-- What a successful `queue_add` leaves: the queue holds its view with the item pushed, and no
-- other node is touched.
abbrev pub Added : Store → Ptr × Item → View (Ptr × Item) → Status × Option Queue → Store → Type 0
Added h c v (s, r) g =
    (s ≡ no_error)
    × ((q' : Queue) × (r ≡ some q') × IsQueue g q' (View.push c v))
    × SameOutside (items (View.push c v)) h g

add-empty :
    (h : Store) (q : Queue) (f x : ℕ)
    → q.size ≡ 0
    → x ≢ null
    → f ≢ null
    → Ends (Added h (f, x) (view [] [])) (add f (some q) x h)
unfolding add attach View.push
add-empty h q f x size xn fn =
    rw (x_set, f_set, empty_size)
      (ends (
        refl,
        (
          _,
          refl,
          record {
            linked = (fn, write_self h f _, refl, tt);
            first = refl;
            last = refl;
            iterator = refl;
            size = omega arith;
          },
        ),
        λ p o. write-other h f _ p (ground arith),
      ))
  where
    x_set : (x == null) ≡ false
    x_set = ground arith

    f_set : (f == null) ≡ false
    f_set = ground arith

    empty_size : (q.size == 0) ≡ true
    empty_size = ground arith

module _ (h : Store) (q : Queue) (f x : ℕ) (xn : x ≢ null) (fn : f ≢ null) where
  add-nonempty :
      (b a : Cells) (c : Ptr × Item) (xs : Cells)
      → b ++ a ≡ c ∷ xs
      → IsQueue h q (view b a)
      → has_ptr f (b ++ a) ≡ false
      → Ends (Added h (f, x) (view b a)) (add f (some q) x h)
  unfolding View.push
  add-nonempty b a c xs e is out =
      let l : Chain h (c ∷ xs) = rw e at is.linked in
      let out' : has_ptr f (c ∷ xs) ≡ false = rw e at out in
      let at_last : q.last ≡ last_ptr (c ∷ xs) = is.last ∙ ap last_ptr e in
      let grown = linked-grow h f x c xs q.last at_last l out' fn in
      let its = push-items (f, x) (view b a) ∙ ap (λ (l : Cells). l ++ ((f, x) ∷ [])) e in
      rw
        (add-run h q f x (length xs) {n = node null (last_content (c ∷ xs))} xn fn
          (is.size ∙ ap length e) (rw at_last (ne_null_of_has h _ (c ∷ xs) l (has_ptr-last c xs)))
          (rw at_last (λ i. ne-last f c xs out' (sym i))) (rw at_last (holds-last h c xs l)))
        (ends (
          refl,
          (
            _,
            refl,
            record {
              linked = rw its grown.0;
              first = rw its (is.first ∙ ap head_ptr e);
              last = rw its (sym (last_ptr-append (c ∷ xs) f x));
              iterator = is.iterator ∙ sym (head-push (f, x) c b a xs e);
              size =
                  rw its
                    (omega (arith, is.size, ap length e, length-append (c ∷ xs) ((f, x) ∷ [])));
            },
          ),
          rw its grown.1,
        ))

  add_parts :
      (b a : Cells)
      → IsQueue h q (view b a)
      → has_ptr f (b ++ a) ≡ false
      → Ends (Added h (f, x) (view b a)) (add f (some q) x h)
  add_parts [] [] is out = add-empty h q f x is.size xn fn
  add_parts [] (z ∷ a) is out = add-nonempty [] (z ∷ a) z a refl is out
  add_parts (y ∷ b) a is out = add-nonempty (y ∷ b) a y (b ++ a) refl is out

-- `queue_add` of an item that is not NULL, with a fresh node address from `malloc`, returns
-- NOERROR and leaves the queue holding its view with the item pushed; every node outside the
-- result is untouched.
pub add_refines :
    (h : Store) (q : Queue) (f x : ℕ) (v : View (Ptr × Item))
    → IsQueue h q v
    → x ≢ null
    → f ≢ null
    → has_ptr f (items v) ≡ false
    → Ends (Added h (f, x) v) (add f (some q) x h)
add_refines h q f x v is xn fn out = add_parts h q f x xn fn v.before v.after is out
