-- ===== src/Scheduler.antt =====
-- kernel/scheduler.c. Priorities are C integers with no bound: the ageing of a task would have to
-- run 2 ^ 31 times without the task being chosen before one overflowed.
pub mod Aging
mod Choice
pub mod Pass
use sistemas_operacionais.Base.{Bool, Option, none, some, List, [], ◌∷◌, ◌==◌, if◌then◌else◌, ◌&&◌}
use sistemas_operacionais.Base.Int.{ℤ, pos, negsuc, increment, decrement, ltb_ℤ}
use sistemas_operacionais.Queue.View
use sistemas_operacionais.Queue.View.{View}
use sistemas_operacionais.Kernel.{Ptr, null, Tcb, Kernel, put, set_task}

-- `dynamic_priority--`
unfoldable pub age : (Ptr → Tcb) → Ptr → Ptr → Tcb
age f p = put f p (record (f p) { dynamic_priority = decrement (f p).dynamic_priority })

-- `aux->dynamic_priority + 1 < selected->dynamic_priority + 1`
unfoldable pub precedes : (Ptr → Tcb) → (aux selected : Ptr) → Bool
precedes f aux selected =
    ltb_ℤ (increment (f aux).dynamic_priority) (increment (f selected).dynamic_priority)

-- One round of the `while` loop at the task `aux`: the blocks, and the task selected so far.
unfoldable pub consider : (Ptr → Tcb) → (selected aux : Ptr) → (Ptr → Tcb) × Ptr
unfolding age precedes
consider f selected aux =
    let f' : Ptr → Tcb = age f aux in (f', if precedes f' aux selected then aux else selected)

-- The loop, over the tasks that `queue_next` yields from `aux` on. It leaves the iterator of the
-- queue past the end.
unfoldable pub select_loop : (Ptr → Tcb) → (selected : Ptr) → List Ptr → (Ptr → Tcb) × Ptr
select_loop f selected [] = (f, selected)
select_loop f selected (aux ∷ rest) =
    let (f', selected') = consider f selected aux in select_loop f' selected' rest

-- `selected_task->dynamic_priority = selected_task->static_priority`
unfoldable pub restore : (Ptr → Tcb) → Ptr → Ptr → Tcb
restore f p = put f p (record (f p) { dynamic_priority = (f p).static_priority })

-- The body of `scheduler` on the tasks that `queue_head` and `queue_next` yield.
unfoldable pub schedule_items : List Ptr → Kernel → Option Ptr × Kernel
unfolding restore
schedule_items [] k = (none, k)
schedule_items (first ∷ rest) k =
    let (f, selected) = select_loop k.tcb first (first ∷ rest) in
    (some selected, record k { tcb = restore f selected })

-- `scheduler(ready_queue)`
unfoldable pub scheduler : Kernel → Option Ptr × Kernel
unfolding schedule_items View.rewind
scheduler k =
    let queue : View Ptr = View.rewind k.ready_queue in
    let (task, k') = schedule_items queue.after k in
    (task, record k' { ready_queue = record { before = queue.after; after = [] } })

-- `prio <= 20 && prio >= -20`
unfoldable pub in_range : ℤ → Bool
in_range prio = ltb_ℤ prio (pos 21) && ltb_ℤ (negsuc 20) prio

unfoldable pub with_priority : ℤ → Tcb → Tcb
with_priority prio t = record t { static_priority = prio; dynamic_priority = prio }

-- `sched_setprio`; `none` is the failed assertion.
unfoldable pub set_prio : Ptr → ℤ → Kernel → Option Kernel
unfolding in_range with_priority
set_prio task prio k =
    if in_range prio
    then (if task == null
        then some (set_task k.current (with_priority prio (k.tcb k.current)) k)
        else some (set_task task (with_priority prio (k.tcb task)) k))
    else none

-- `sched_getprio`
unfoldable pub get_prio : Ptr → Kernel → ℤ
get_prio task k =
    if task == null then (k.tcb k.current).static_priority else (k.tcb task).static_priority
