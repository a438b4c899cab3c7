-- ===== src/Queue/Erase.antt =====
-- `queue_del` on every branch, against the view.
use mathlib.Core.List.{append_assoc}
use sistemas_operacionais.Base.{
  ◌≡◌, refl, sym, ap, ◌∙◌, ◌≢◌, Bool, true, false, ◌||◌, Option, some, List, [], ◌∷◌, ◌++◌, arith,
  ◌==◌, if◌then◌else◌, length, Bool-cases, inl, inr, differ, same,
}
use sistemas_operacionais.Queue.Store.{Ptr, null, Item, Store, ok, load}
use sistemas_operacionais.Queue.{
  Queue, Status, no_error, error, del_only, del_loop, del_many, del_item, del,
}
use sistemas_operacionais.Queue.Steps.{load-ok}
use sistemas_operacionais.Queue.View
use sistemas_operacionais.Queue.View.{View, items, view, any, remove_first}
use sistemas_operacionais.Queue.Cut.{Found, find, remove_first-found, out-left, out-right, cut-out}
use sistemas_operacionais.Queue.Chain.{
  Cells, has_ptr, head_ptr, Chain, Chain-after, IsQueue, SameOutside, Ends, ends, Ends-chain,
  Ends-map, head-ne,
}
use sistemas_operacionais.Queue.Del.{holds, del_loop-miss}
use sistemas_operacionais.Queue.Remove.{CutBy, item-hit, several}

module _ (h : Store) (q : Queue) (x : Item) where
  many-miss :
      (c : Ptr × Item) (xs : Cells)
      → Chain h (c ∷ xs)
      → q.first ≡ c.0
      → q.size ≡ length (c ∷ xs)
      → any (holds x) (c ∷ xs) ≡ false
      → del_many q x h ≡ ok (error, q) h
  unfolding del_many
  many-miss (p, c) xs l first size missed =
      rw (ap (λ (a : Ptr). load a h) first ∙ load-ok h l.0 l.1, miss)
        (ap (λ (a : Ptr). del_loop q.size q x a h) first
          ∙ del_loop-miss h q x q.size (p, c) xs l (ground arith) (omega (arith, size)))
    where
      miss : (c == x) ≡ false
      miss = ground arith

  only-miss :
      (c : Ptr × Item)
      → Chain h (c ∷ [])
      → q.first ≡ c.0
      → any (holds x) (c ∷ []) ≡ false
      → del_only q x h ≡ ok (error, q) h
  unfolding del_only
  only-miss (p, c) l first missed = rw (ap (λ (a : Ptr). load a h) first ∙ load-ok h l.0 l.1, miss)
    where
      miss : (c == x) ≡ false
      miss = ground arith

  item-miss :
      (xs : Cells)
      → Chain h xs
      → q.first ≡ head_ptr xs
      → q.size ≡ length xs
      → any (holds x) xs ≡ false
      → del_item q x h ≡ ok (error, q) h
  unfolding del_item
  item-miss [] l first size missed = rw (same q.size 0 size)
  item-miss (c ∷ []) l first size missed =
      rw (differ q.size 0 (omega (arith, size)), same q.size 1 size) (only-miss c l first missed)
  item-miss (c ∷ d ∷ xs) l first size missed =
      rw (several _ _ _ q.size (length xs) size) (many-miss c (d ∷ xs) l first size missed)

-- `queue_del` of an item that no node holds returns ERROR and changes neither the fields nor a
-- node.
pub del_absent :
    (h : Store) (q : Queue) (x : Item) (v : View (Ptr × Item))
    → IsQueue h q v
    → any (holds x) (items v) ≡ false
    → del (some q) x h ≡ ok (error, some q) h
unfolding del
del_absent h q x v is missed = elim (Bool-cases (x == null)) [
  | inl zero ↦ rw zero
  | inr set ↦ rw (set, item-miss h q x (items v) is.linked is.first is.size missed)
]

any-append {ℓ} :
    {A : Type ℓ} (t : A → Bool) (xs ys : List A) → any t (xs ++ ys) ≡ (any t xs || any t ys)
any-append t [] ys = refl
any-append t (x ∷ xs) ys = ground (arith, any-append t xs ys)

-- A chain does not begin at an address that it has not.
head-away : (p : Ptr) (a : Cells) → p ≢ null → has_ptr p a ≡ false → head_ptr a ≢ p
head-away p [] ne out e = ne (sym e)
head-away p ((b, c) ∷ a) ne out e = head-ne p b c a out (sym e)

-- Where the iterator stands once `d` has left the part behind it.
iterator-cut :
    (pre : Cells) (d : Ptr × Item) (zs : Cells)
    → d.0 ≢ null
    → has_ptr d.0 pre ≡ false
    → (if head_ptr (pre ++ (d ∷ zs)) == d.0 then head_ptr zs else head_ptr (pre ++ (d ∷ zs)))
      ≡ head_ptr (pre ++ zs)
iterator-cut [] d zs ne out = rw (same d.0 d.0 refl)
iterator-cut ((a, c) ∷ pre) d zs ne out = rw (differ a d.0 (λ e. head-ne d.0 a c pre out (sym e)))

-- What a successful `queue_del` leaves: the queue holds its view with the item removed, and no
-- other node is touched.
abbrev pub Removed : Store → Item → View (Ptr × Item) → Status × Option Queue → Store → Type 0
Removed h x v (s, r) g =
    (s ≡ no_error)
    × ((q' : Queue) × (r ≡ some q') × IsQueue g q' (View.remove (holds x) v))
    × SameOutside (items v) h g

module _ (h : Store) (q : Queue) (x : Item) (v : View (Ptr × Item)) (is : IsQueue h q v) where
  abbrev RemovedBy : Status × Queue → Store → Type 0
  RemovedBy (s, q') g =
      (s ≡ no_error) × IsQueue g q' (View.remove (holds x) v) × SameOutside (items v) h g

  -- Both cuts of the view give the same cells.
  finish :
      (b a pre : Cells) (d : Ptr × Item) (zs : Cells)
      → View.remove (holds x) v ≡ view b a
      → b ++ a ≡ pre ++ zs
      → items v ≡ pre ++ (d ∷ zs)
      → (if head_ptr v.after == d.0 then head_ptr zs else head_ptr v.after) ≡ head_ptr a
      → (r : Status × Queue) (g : Store) → CutBy h q pre d zs r g
      → RemovedBy r g
  finish b a pre d zs cut cells whole at r g (s, c) = (
    s,
    rw cut (record {
      linked = rw cells c.linked;
      first = rw cells c.first;
      last = rw cells c.last;
      iterator = c.iterator ∙ rw is.iterator at;
      size = rw cells c.size;
    }),
    rw whole c.same,
  )

  module _ (set : x ≢ null) where
    open v use {before, after}

    -- The item is found before the iterator.
    del-before :
        Found (holds x) before → any (holds x) before ≡ true → Ends RemovedBy (del_item q x h)
    unfolding View.remove
    del-before f hit =
        let whole : items v ≡ f.pre ++ (f.hit ∷ (f.rest ++ after)) =
          ap (λ (l : Cells). l ++ after) f.parts ∙ append_assoc f.pre (f.hit ∷ f.rest) after in
        let l : Chain h (f.pre ++ (f.hit ∷ (f.rest ++ after))) = rw whole at is.linked in
        let out = cut-out h f.pre f.hit (f.rest ++ after) l in
        let away =
          head-away f.hit.0 after (Chain-after h f.pre _ l).0
            (out-right f.hit.0 f.rest after (out-right f.hit.0 f.pre (f.rest ++ after) out)) in
        Ends-map
          (finish (f.pre ++ f.rest) after f.pre f.hit (f.rest ++ after)
            (rw (hit, f.parts, remove_first-found (holds x) f.pre f.hit f.rest f.missed f.passes))
            (append_assoc f.pre f.rest after) whole (rw (differ _ _ away)))
          (item-hit h q x v f.pre f.hit (f.rest ++ after) is whole f.missed f.passes)

    -- The item is found from the iterator on.
    del-after :
        Found (holds x) after → any (holds x) before ≡ false → Ends RemovedBy (del_item q x h)
    unfolding View.remove
    del-after f miss =
        let whole : items v ≡ (before ++ f.pre) ++ (f.hit ∷ f.rest) =
          ap (λ (l : Cells). before ++ l) f.parts
          ∙ sym (append_assoc before f.pre (f.hit ∷ f.rest)) in
        let l : Chain h ((before ++ f.pre) ++ (f.hit ∷ f.rest)) = rw whole at is.linked in
        let out = cut-out h (before ++ f.pre) f.hit f.rest l in
        Ends-map
          (finish before (f.pre ++ f.rest) (before ++ f.pre) f.hit f.rest
            (rw (miss, f.parts, remove_first-found (holds x) f.pre f.hit f.rest f.missed f.passes))
            (sym (append_assoc before f.pre f.rest)) whole
            (rw f.parts (
              iterator-cut f.pre f.hit f.rest (Chain-after h (before ++ f.pre) _ l).0
                (out-right f.hit.0 before f.pre (out-left f.hit.0 (before ++ f.pre) f.rest out)))))
          (item-hit h q x v (before ++ f.pre) f.hit f.rest is whole
            (ground (arith, any-append (holds x) before f.pre, f.missed)) f.passes)

-- `queue_del` of an item that some node holds returns NOERROR, takes the first such node out of
-- the queue, moves the iterator on if it stood there, and changes no node outside the queue.
pub del_refines :
    (h : Store) (q : Queue) (x : Item) (v : View (Ptr × Item))
    → IsQueue h q v
    → x ≢ null
    → any (holds x) (items v) ≡ true
    → Ends (Removed h x v) (del (some q) x h)
unfolding del
del_refines h q x v is set hit =
    rw (differ x null set)
      (Ends-chain _ found (λ (s, q') g (done, holds, same). ends (done, (q', refl, holds), same)))
  where
    found : Ends (RemovedBy h q x v is) (del_item q x h)
    found = elim (Bool-cases (any (holds x) v.before)) [
      | inl early ↦ del-before h q x v is set (find (holds x) v.before early) early
      | inr late ↦
          del-after h q x v is set
            (find (holds x) v.after (rw (any-append (holds x) v.before v.after, late) at hit)) late
    ]
