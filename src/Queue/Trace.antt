-- ===== src/Queue/Trace.antt =====
-- Calls of lib/queue.c in sequence, from `queue_create` on, against the list of items alone.
use sistemas_operacionais.Base.{
  length, ◌≡◌, refl, sym, ap, ◌∙◌, Bool, true, false, some, Option, List, [], ◌∷◌, ◌==◌, ◌&&◌, not,
  if◌then◌else◌, Bool-cases, inl, inr, arith,
}
use sistemas_operacionais.Base.Int.{ℤ, pos}
use sistemas_operacionais.Queue.Store.{Ptr, null, Item, Store, Cmd, pure, ok, ◌>>=◌}
use sistemas_operacionais.Queue.{
  Queue, Status, no_error, error, create, add, del, has, size, head, next, item,
}
use sistemas_operacionais.Queue.View
use sistemas_operacionais.Queue.View.{View, view, items, any}
use sistemas_operacionais.Queue.Chain.{has_ptr, IsQueue, Ends, ends, Ends-chain}
use sistemas_operacionais.Queue.Del.{holds}
use sistemas_operacionais.Queue.Add.{add_refines}
use sistemas_operacionais.Queue.Erase.{del_absent, del_refines}
use sistemas_operacionais.Queue.Walk.{has_refines, iterator_refines}
use sistemas_operacionais.Queue.Contents.{
  is_item, contents, contents-length, plain, or_null, plain-items, contents-any, plain-push,
  plain-remove, plain-rewind, plain-advance, plain-current,
}

-- A call of a function of lib/queue.h; `queue_add` with what its `malloc` returns.
pub data Call : Type 0 where
  add_call : (fresh : Ptr) → Item → Call
  del_call has_call : Item → Call
  size_call head_call next_call item_call : Call

-- What it returns.
pub data Answer : Type 0 where
  status : Status → Answer
  found : Bool → Answer
  number : ℤ → Answer
  content : Item → Answer

unfoldable pub run_call : Call → Option Queue → Cmd (Answer × Option Queue)
run_call (add_call fresh x) q = add fresh q x >>= λ r. pure (status r.0, r.1)
run_call (del_call x) q = del q x >>= λ r. pure (status r.0, r.1)
run_call (has_call x) q = has q x >>= λ b. pure (found b, q)
run_call size_call q = pure (number (size q), q)
run_call head_call q = head q >>= λ r. pure (content r.0, r.1)
run_call next_call q = next q >>= λ r. pure (content r.0, r.1)
run_call item_call q = item q >>= λ x. pure (content x, q)

unfoldable pub run_calls : List Call → Option Queue → Cmd (List Answer)
run_calls [] q = pure []
run_calls (c ∷ cs) q = run_call c q >>= λ r. run_calls cs r.1 >>= λ rest. pure (r.0 ∷ rest)

-- The same calls on a list of items with an iterator: what they return, and what they leave.
abbrev pub accepts : Ptr → Item → Bool
accepts fresh x = not (x == null) && not (fresh == null)

abbrev pub deletes : Item → View Item → Bool
deletes x v = not (x == null) && any (is_item x) (items v)

unfoldable pub reply : Call → View Item → Answer
unfolding View.count View.current View.rewind View.advance
reply (add_call fresh x) v = status (if accepts fresh x then no_error else error)
reply (del_call x) v = status (if deletes x v then no_error else error)
reply (has_call x) v = found (deletes x v)
reply size_call v = number (pos (View.count v))
reply head_call v = content (or_null (View.current (View.rewind v)))
reply next_call v = content (or_null (View.current (View.advance v)))
reply item_call v = content (or_null (View.current v))

unfoldable pub after_call : Call → View Item → View Item
unfolding View.push View.remove View.rewind View.advance
after_call (add_call fresh x) v = if accepts fresh x then View.push x v else v
after_call (del_call x) v = if deletes x v then View.remove (is_item x) v else v
after_call (has_call x) v = v
after_call size_call v = v
after_call head_call v = View.rewind v
after_call next_call v = View.advance v
after_call item_call v = v

unfoldable pub replies : List Call → View Item → List Answer
replies [] v = []
replies (c ∷ cs) v = reply c v ∷ replies cs (after_call c v)

-- What the calls leave of the nodes.
unfoldable pub cells_after : Call → View (Ptr × Item) → View (Ptr × Item)
unfolding View.push View.remove View.rewind View.advance
cells_after (add_call fresh x) v = if accepts fresh x then View.push (fresh, x) v else v
cells_after (del_call x) v =
    if not (x == null) && any (holds x) (items v) then View.remove (holds x) v else v
cells_after (has_call x) v = v
cells_after size_call v = v
cells_after head_call v = View.rewind v
cells_after next_call v = View.advance v
cells_after item_call v = v

-- The contract of `malloc`: what it returns is no node of the queue.
abbrev pub Allocates : Call → View (Ptr × Item) → Type 0
Allocates (add_call fresh x) v = has_ptr fresh (items v) ≡ false
Allocates (del_call x) v = Unit {0}
Allocates (has_call x) v = Unit {0}
Allocates size_call v = Unit {0}
Allocates head_call v = Unit {0}
Allocates next_call v = Unit {0}
Allocates item_call v = Unit {0}

unfoldable pub Fresh : List Call → View (Ptr × Item) → Type 0
Fresh [] v = Unit {0}
Fresh (c ∷ cs) v = Allocates c v × Fresh cs (cells_after c v)

-- What one call owes: the reply of the list of items, and a queue that holds what is left.
abbrev Answered : Call → View (Ptr × Item) → Answer × Option Queue → Store → Type 0
Answered c v (a, r) g =
    (a ≡ reply c (plain v)) × (q' : Queue) × (r ≡ some q') × IsQueue g q' (cells_after c v)

deletes-plain :
    (x : Item) (v : View (Ptr × Item))
    → (not (x == null) && any (holds x) (items v)) ≡ deletes x (plain v)
deletes-plain x v =
    ap (λ b. not (x == null) && b) (contents-any x (items v) ∙ ap (any (is_item x)) (plain-items v))

plain-after : (c : Call) (v : View (Ptr × Item)) → plain (cells_after c v) ≡ after_call c (plain v)
unfolding cells_after after_call
plain-after (add_call fresh x) v = elim (Bool-cases (accepts fresh x)) [
  | inl yes_ ↦ rw yes_ (plain-push fresh x v)
  | inr no_ ↦ rw no_ refl
]
plain-after (del_call x) v = elim (Bool-cases (deletes x (plain v))) [
  | inl yes_ ↦ rw (deletes-plain x v, yes_) (plain-remove x v)
  | inr no_ ↦ rw (deletes-plain x v, no_) refl
]
plain-after (has_call x) v = refl
plain-after size_call v = refl
plain-after head_call v = plain-rewind v
plain-after next_call v = plain-advance v
plain-after item_call v = refl

module _ (h : Store) (q : Queue) (v : View (Ptr × Item)) (is : IsQueue h q v) where
  add-refused :
      (fresh : Ptr) (x : Item)
      → accepts fresh x ≡ false
      → add fresh (some q) x h ≡ ok (error, some q) h
  unfolding add
  add-refused fresh x e = ground arith

  add-Answered :
      (fresh : Ptr) (x : Item)
      → has_ptr fresh (items v) ≡ false
      → Ends (Answered (add_call fresh x) v) (run_call (add_call fresh x) (some q) h)
  unfolding run_call reply cells_after
  add-Answered fresh x out = elim (Bool-cases (accepts fresh x)) [
    | inl taken ↦
        Ends-chain _ (add_refines h q fresh x v is (λ e. ground arith) (λ e. ground arith) out)
          (λ r g a. ends (rw taken (ap status a.0), a.1.0, a.1.1, rw taken a.1.2))
    | inr refused ↦
        rw (add-refused fresh x refused) (ends (rw refused refl, q, refl, rw refused is))
  ]

  del-refused : (x : Item) → deletes x (plain v) ≡ false → del (some q) x h ≡ ok (error, some q) h
  unfolding del
  del-refused x e = elim (Bool-cases (x == null)) [
    | inl zero ↦ rw zero refl
    | inr set ↦
        let none_held : (not (x == null) && any (holds x) (items v)) ≡ false =
          deletes-plain x v ∙ e in
        del_absent h q x v is (ground arith)
  ]

  del-Answered : (x : Item) → Ends (Answered (del_call x) v) (run_call (del_call x) (some q) h)
  unfolding run_call reply cells_after
  del-Answered x = elim (Bool-cases (deletes x (plain v))) [
    | inl held ↦
        let there : (not (x == null) && any (holds x) (items v)) ≡ true =
          deletes-plain x v ∙ held in
        Ends-chain _ (del_refines h q x v is (λ e. ground arith) (ground arith))
          (λ r g a. ends (rw held (ap status a.0), a.1.0, a.1.1, rw there a.1.2))
    | inr refused ↦
        rw (del-refused x refused)
          (ends (rw refused refl, q, refl, rw (deletes-plain x v, refused) is))
  ]

  has-Answered : (x : Item) → has (some q) x h ≡ ok (deletes x (plain v)) h
  unfolding has
  has-Answered x = elim (Bool-cases (x == null)) [
    | inl zero ↦ rw zero refl
    | inr set ↦
        (has_refines h q v is x (λ e. ground arith)).0
        ∙ ap (λ b. ok b h) (ground (arith, deletes-plain x v))
  ]

  count-plain : pos q.size ≡ pos (View.count (plain v))
  unfolding View.count
  count-plain = ap pos (is.size ∙ (sym (contents-length (items v)) ∙ ap length (plain-items v)))

  call-Answered : (c : Call) → Allocates c v → Ends (Answered c v) (run_call c (some q) h)
  unfolding run_call reply cells_after size
  call-Answered (add_call fresh x) out = add-Answered fresh x out
  call-Answered (del_call x) out = del-Answered x
  call-Answered (has_call x) out = rw (has-Answered x) (ends (refl, q, refl, is))
  call-Answered size_call out = ends (ap number count-plain, q, refl, is)
  call-Answered head_call out =
      let (q', e, is') = (iterator_refines h q v is).0 in
      rw e (
        ends (
          ap content
              (plain-current (View.rewind v) ∙ ap (λ w. or_null (View.current w)) (plain-rewind v)),
          q',
          refl,
          is',
        ))
  call-Answered next_call out =
      let (q', e, is') = (iterator_refines h q v is).1 in
      rw e (
        ends (
          ap content (
              plain-current (View.advance v)
              ∙ ap (λ w. or_null (View.current w)) (plain-advance v)),
          q',
          refl,
          is',
        ))
  call-Answered item_call out =
      rw (iterator_refines h q v is).2 (ends (ap content (plain-current v), q, refl, is))

calls-replies :
    (cs : List Call) (h : Store) (q : Queue) (v : View (Ptr × Item))
    → IsQueue h q v
    → Fresh cs v
    → Ends (λ got _. got ≡ replies cs (plain v)) (run_calls cs (some q) h)
unfolding run_calls replies Fresh
calls-replies [] h q v is fresh = ends refl
calls-replies (c ∷ cs) h q v is (out, fresh) = Ends-chain _ (call-Answered h q v is c out) (λ r g a.
    let (e, q', at, is') = a in
    rw at (
      Ends-chain _ (calls-replies cs g q' (cells_after c v) is' fresh)
        (λ got g' same. ends (ap (λ w. r.0 ∷ w) same ∙ rw (e, plain-after c v) refl))))

-- From `queue_create` on, any sequence of calls of `queue_add`, `queue_del`, `queue_has`,
-- `queue_size`, `queue_head`, `queue_next` and `queue_item` on a queue ends, follows no NULL and
-- no freed node, and returns what the same calls return on a plain list of items with an
-- iterator, where `malloc` never returns a node that the queue still has; `malloc` may fail.
pub run_calls-replies :
    (cs : List Call) (h : Store)
    → Fresh cs View.empty
    → Ends (λ got _. got ≡ replies cs View.empty) (run_calls cs (create true) h)
unfolding create plain contents
run_calls-replies cs h fresh =
    calls-replies cs h (record { first = null; last = null; iterator = null; size = 0 }) View.empty
      (record { linked = tt; first = refl; last = refl; iterator = refl; size = refl }) fresh
