-- ===== src/Queue/Walk.antt =====
-- The iterator, the search and the end of a queue, against its view.
use mathlib.Core.List.{append_assoc}
use sistemas_operacionais.Base.{
  ℕ, zero, suc, ◌+◌, ◌<◌, ◌≡◌, refl, sym, ap, ◌∙◌, ◌≢◌, Option, none, some, [], ◌∷◌, ◌++◌, arith,
  ◌==◌, if◌then◌else◌, length, Bool-cases, inl, inr, differ, same,
}
use sistemas_operacionais.Base.Int.{pos}
use sistemas_operacionais.Queue.Store.{Ptr, null, Item, Store, write, ok, load}
use sistemas_operacionais.Queue.{
  Queue, no_error, destroy_loop, destroy, has_loop, has, size, content_at, head, next, item,
}
use sistemas_operacionais.Queue.Steps.{load-ok, not_null, free-ok}
use sistemas_operacionais.Queue.View
use sistemas_operacionais.Queue.View.{View, items, view, any}
use sistemas_operacionais.Queue.Chain.{
  Cells, has_ptr, head_ptr, Chain, Chain-after, Chain-write, IsQueue, Ends, ends, Ends-map,
  Ends-chain,
}
use sistemas_operacionais.Queue.Del.{holds}

-- The item of a cell, NULL for none.
abbrev pub content_of : Option (Ptr × Item) → Item
content_of none = null
content_of (some c) = c.1

module _ (h : Store) where
  content_at-run :
      (p : Ptr) (xs : Cells)
      → Chain h xs
      → p ≡ head_ptr xs
      → content_at p h ≡ ok (content_of (View.current_of xs)) h
  unfolding content_at
  content_at-run p [] l e = rw e
  content_at-run p (c ∷ xs) l e = rw (e, not_null h l.0 l.1, load-ok h l.0 l.1)

  has_loop-run :
      (k : ℕ) (x : Item) (xs : Cells)
      → Chain h xs
      → length xs < k
      → has_loop k x (head_ptr xs) h ≡ ok (any (holds x) xs) h
  unfolding has_loop
  has_loop-run zero x xs l fuel = absurd (omega arith)
  has_loop-run (suc k) x [] l fuel = refl
  has_loop-run (suc k) x ((p, c) ∷ xs) l fuel =
      rw (not_null h l.0 l.1, load-ok h l.0 l.1)
        (elim (Bool-cases (c == x)) [
          | inl hit ↦ rw hit
          | inr miss ↦ rw miss (has_loop-run k x xs l.3 (omega arith))
        ])

  abbrev Advanced : Queue → Cells → Cells → Type 0
  Advanced q b a =
      (q' : Queue) × (next (some q) h
        ≡ ok (content_of (View.current (View.advance_parts b a)), some q') h)
      × IsQueue h q' (View.advance_parts b a)

  next_parts : (q : Queue) (b a : Cells) → IsQueue h q (view b a) → Advanced q b a
  unfolding next View.current
  next_parts q b [] is = (q, rw (same q.iterator null is.iterator), is)
  next_parts q b (c ∷ a) is =
      let l : Chain h (c ∷ a) = Chain-after h b (c ∷ a) is.linked in
      let cells : (b ++ (c ∷ [])) ++ a ≡ b ++ (c ∷ a) = append_assoc b (c ∷ []) a in
      (
        record q { iterator = head_ptr a },
        rw (
          differ q.iterator null (λ e. l.0 (sym is.iterator ∙ e)),
          ap (λ (p : Ptr). load p h) is.iterator ∙ load-ok h l.0 l.1,
          content_at-run (head_ptr a) a l.3 refl,
        ),
        record {
          linked = rw cells is.linked;
          first = rw cells is.first;
          last = rw cells is.last;
          iterator = refl;
          size = rw cells is.size;
        },
      )

  module _ (q : Queue) (v : View (Ptr × Item)) (is : IsQueue h q v) where
    -- `queue_has` of an item that is not NULL says whether some node of the queue holds it, and
    -- `queue_size` how many nodes there are; neither writes.
    pub has_refines :
        (x : Item)
        → x ≢ null
        → (has (some q) x h ≡ ok (any (holds x) (items v)) h) × (size (some q) ≡ pos (View.count v))
    unfolding has size View.count
    has_refines x set = (
      rw (differ x null set) (
          ap (λ (p : Ptr). has_loop (q.size + 1) x p h) is.first
          ∙ has_loop-run (q.size + 1) x (items v) is.linked (omega (arith, is.size))),
      ap pos is.size,
    )

    -- `queue_head` returns the first item, or NULL, and leaves the iterator there.
    head_refines :
        (q' : Queue) × (head (some q) h ≡ ok (content_of (View.current (View.rewind v)), some q') h)
        × IsQueue h q' (View.rewind v)
    unfolding head View.rewind View.current
    head_refines = (
      record q { iterator = q.first },
      rw (content_at-run q.first (items v) is.linked is.first),
      record {
        linked = is.linked;
        first = is.first;
        last = is.last;
        iterator = is.first;
        size = is.size;
      },
    )

    -- `queue_next` moves the iterator on, unless it has passed the end, and returns the item
    -- there, or NULL.
    next_refines :
        (q' : Queue) × (next (some q) h
          ≡ ok (content_of (View.current (View.advance v)), some q') h)
        × IsQueue h q' (View.advance v)
    unfolding next View.advance View.current
    next_refines = next_parts q v.before v.after is

    -- `queue_item` returns the item under the iterator, or NULL.
    item_refines : item (some q) h ≡ ok (content_of (View.current v)) h
    unfolding item View.current
    item_refines =
        content_at-run q.iterator v.after (Chain-after h v.before v.after is.linked) is.iterator

    -- Each of the three functions of the iterator returns the item on which it leaves the iterator,
    -- or NULL past the end: `queue_head` puts it on the first item, `queue_next` one item further
    -- unless it is past the end, and `queue_item` leaves it; none of them writes a node.
    pub iterator_refines :
        ((q' : Queue) × (head (some q) h
            ≡ ok (content_of (View.current (View.rewind v)), some q') h)
          × IsQueue h q' (View.rewind v))
        × ((q' : Queue) × (next (some q) h
              ≡ ok (content_of (View.current (View.advance v)), some q') h)
            × IsQueue h q' (View.advance v))
        × (item (some q) h ≡ ok (content_of (View.current v)) h)
    iterator_refines = (head_refines, next_refines, item_refines)

-- The nodes of the cells are given back, and no other changes.
abbrev pub Without : Cells → Store → Store → Type 0
Without xs h g = (p : Ptr) → g p ≡ (if has_ptr p xs then none else h p)

destroy_loop-run :
    (k : ℕ) (h : Store) (xs : Cells)
    → Chain h xs
    → length xs < k
    → Ends (λ _ g. Without xs h g) (destroy_loop k (head_ptr xs) h)
unfolding destroy_loop
destroy_loop-run zero h xs l fuel = absurd (omega arith)
destroy_loop-run (suc k) h [] l fuel = ends (λ p. refl)
destroy_loop-run (suc k) h ((p, c) ∷ xs) l fuel =
    rw (not_null h l.0 l.1, load-ok h l.0 l.1, free-ok h l.0 l.1)
      (Ends-map (λ _ g gone a. gone a ∙ step a)
        (destroy_loop-run k (write h p none) xs (Chain-write h p none xs l.3 l.2) (omega arith)))
  where
    step :
        (a : Ptr)
        → (if has_ptr a xs then none else write h p none a)
          ≡ (if has_ptr a ((p, c) ∷ xs) then none else h a)
    step a = unfold write in ground arith

-- `queue_destroy` returns NOERROR and gives back exactly the nodes of the queue: none is left,
-- and no other is touched.
pub destroy_refines :
    (h : Store) (q : Queue) (v : View (Ptr × Item))
    → IsQueue h q v
    → Ends (λ s g. (s ≡ no_error) × Without (items v) h g) (destroy (some q) h)
unfolding destroy
destroy_refines h q v is = rw is.first (
    Ends-chain _ (destroy_loop-run (q.size + 1) h (items v) is.linked (omega (arith, is.size)))
      (λ _ g gone. ends (refl, gone)))
