-- ===== src/Tests/Queues.antt =====
-- lib/queue.c on a queue of two items with its iterator on the second.
use sistemas_operacionais.Base.{
  List, false, ◌≡◌, refl, true, none, some, [], ◌∷◌, arith, ◌==◌, if◌then◌else◌,
}
use sistemas_operacionais.Queue.Store.{Item, Ptr, Store, node, write, ok, load, set_next, free}
use sistemas_operacionais.Queue.{Queue, no_error, error, create, add, del, destroy}
use sistemas_operacionais.Base.Int.{pos}
use sistemas_operacionais.Queue.View
use sistemas_operacionais.Queue.View.{View, view, items, any}
use sistemas_operacionais.Queue.Chain.{IsQueue, Ends}
use sistemas_operacionais.Queue.Add.{Added, add_refines}
use sistemas_operacionais.Queue.Erase.{Removed, del_refines}
use sistemas_operacionais.Queue.Print.{print}
use sistemas_operacionais.Queue.Trace.{
  Call, add_call, del_call, has_call, size_call, head_call, next_call, item_call, status, found,
  number, content, run_calls, replies, reply, after_call, Fresh, cells_after, run_calls-replies,
}
use sistemas_operacionais.Queue.Walk.{Without, destroy_refines}

abbrev two_nodes : Store
two_nodes a = if a == 16 then some (node 24 7) else if a == 24 then some (node 0 9) else none

abbrev two_items : Queue
two_items = record { first = 16; last = 24; iterator = 24; size = 2 }

abbrev two_cells : View (Ptr × Item)
two_cells = view ((16, 7) ∷ []) ((24, 9) ∷ [])

two_items-IsQueue : IsQueue two_nodes two_items two_cells
two_items-IsQueue = record {
  linked = (omega arith, refl, refl, (omega arith, refl, refl, tt));
  first = refl;
  last = refl;
  iterator = refl;
  size = refl;
}

add_refines_example : Ends (Added two_nodes (40, 5) two_cells) (add 40 (some two_items) 5 two_nodes)
add_refines_example =
    add_refines two_nodes two_items 40 5 two_cells two_items-IsQueue (omega arith) (omega arith)
      refl

del_refines_example : Ends (Removed two_nodes 9 two_cells) (del (some two_items) 9 two_nodes)
del_refines_example =
    del_refines two_nodes two_items 9 two_cells two_items-IsQueue (omega arith) refl

destroy_refines_example :
    Ends
      (λ s g. (s ≡ no_error) × Without (items two_cells) two_nodes g)
      (destroy (some two_items) two_nodes)
destroy_refines_example = destroy_refines two_nodes two_items two_cells two_items-IsQueue

-- Removing the item under the iterator at the end of the queue leaves the iterator past the end.
del-last :
    (q' : Queue) × (g : Store) × (del (some two_items) 9 two_nodes ≡ ok (no_error, some q') g)
    × (q'.iterator ≡ 0)
    × (q'.last ≡ 16)
unfolding del load set_next free write
del-last = (_, _, refl, refl, refl)

printed :
    print (b'q' ∷ []) (some two_items) none two_nodes
    ≡ ok
        (b'q' ∷ b':' ∷ b' ' ∷ b'[' ∷ b' ' ∷ b'u' ∷ b'n' ∷ b'd' ∷ b'e' ∷ b'f' ∷ b' ' ∷ b'u' ∷ b'n'
          ∷ b'd' ∷ b'e' ∷ b'f' ∷ b' ' ∷ b']' ∷ b' ' ∷ b'(' ∷ b'2' ∷ b' ' ∷ b'i' ∷ b't' ∷ b'e' ∷ b'm'
          ∷ b's' ∷ b')' ∷ b'\n' ∷ [])
        two_nodes
unfolding print load
printed = refl

-- Two items, of which the one under the iterator is deleted; a node's address is used again.
abbrev session : List Call
session =
    add_call 16 7
    ∷ add_call 24 9
    ∷ head_call
    ∷ del_call 7
    ∷ add_call 16 5
    ∷ item_call
    ∷ next_call
    ∷ has_call 7
    ∷ size_call
    ∷ del_call 8
    ∷ add_call 0 3
    ∷ []

session-Fresh : Fresh session View.empty
unfolding Fresh cells_after View.push View.remove View.rewind View.advance
session-Fresh = (refl, (refl, (tt, (tt, (refl, (tt, (tt, (tt, (tt, (tt, (refl, tt)))))))))))

run_calls-replies_example :
    Ends
      (λ got _.
        got
        ≡ status no_error
          ∷ status no_error
          ∷ content 7
          ∷ status no_error
          ∷ status no_error
          ∷ content 9
          ∷ content 5
          ∷ found false
          ∷ number (pos 2)
          ∷ status error
          ∷ status error
          ∷ [])
      (run_calls session (create true) two_nodes)
unfolding replies reply after_call View.push View.remove View.rewind View.advance View.current
    View.count
run_calls-replies_example = run_calls-replies session two_nodes session-Fresh
