-- ===== src/Dispatcher.antt =====
-- kernel/dispatcher.c and kernel/time.c. An operation that gives the processor away ends in the
-- state in which the other task goes on; what follows it in the C function is an operation of
-- its own. A node for a queue is always had: `malloc` does not fail here.
pub mod Consistent
pub mod Steps
pub mod Clock
pub mod Spawn
pub mod Wake
pub mod Run
pub mod Leaving
pub mod WakeLoop
pub mod Exit
pub mod Waiter
pub mod Idle
pub mod Opening
pub mod History
pub mod Sleepers
pub mod Due
pub mod Present
pub mod Kept
pub mod Loop
use sistemas_operacionais.Base.{
  ℕ, zero, suc, ◌+◌, Bool, true, false, not, ◌||◌, Option, none, some, ◌==◌, if◌then◌else◌, ltb,
}
use sistemas_operacionais.Base.Int.{ℤ, pos, negsuc, ◌+ℤ◌, ◌-ℤ◌, decrement, ltb_ℤ, eqb_ℤ}
use sistemas_operacionais.Queue.{Status, no_error, error}
use sistemas_operacionais.Queue.Members.{is_task}
use sistemas_operacionais.Queue.View
use sistemas_operacionais.Queue.View.{View, any, items}
use sistemas_operacionais.Kernel.{
  Ptr, null, task_kernel, ready, running, suspended, finished, is_status, Tcb, Kernel, quantum,
  Place, at_ready, at_suspended, at_sleeping, at_finished, queue_of, set_queue, set_task,
}
use sistemas_operacionais.Task.{systime, switch_to}
use sistemas_operacionais.Scheduler.{scheduler}

-- How an operation ends: in a new state, at a failed assertion, or with no fuel left.
pub data Outcome : Type 0 where
  done : Kernel → Outcome
  abort : Outcome
  out_of_fuel : Outcome

abbrev pub then_do : Outcome → (Kernel → Outcome) → Outcome
then_do (done k) f = f k
then_do abort f = abort
then_do out_of_fuel f = out_of_fuel

-- The calls of lib/queue.h at a queue of the kernel.
unfoldable pub queue_add : Place → Ptr → Kernel → Kernel
unfolding View.push
queue_add q p k = set_queue q (View.push p (queue_of q k)) k

unfoldable pub queue_del : Place → Ptr → Kernel → Status × Kernel
unfolding View.remove
queue_del q p k =
    if any (is_task p) (items (queue_of q k))
    then (no_error, set_queue q (View.remove (is_task p) (queue_of q k)) k)
    else (error, k)

abbrev pub task_of : Option Ptr → Ptr
task_of none = null
task_of (some p) = p

unfoldable pub queue_head : Place → Kernel → Ptr × Kernel
unfolding View.rewind View.current
queue_head q k =
    let v : View Ptr = View.rewind (queue_of q k) in (task_of (View.current v), set_queue q v k)

unfoldable pub queue_next : Place → Kernel → Ptr × Kernel
unfolding View.advance View.current
queue_next q k =
    let v : View Ptr = View.advance (queue_of q k) in (task_of (View.current v), set_queue q v k)

unfoldable pub queue_size : Place → Kernel → ℕ
unfolding View.count
queue_size q k = View.count (queue_of q k)

-- `task_kernel.number_of_activations++`
unfoldable pub count_kernel : Kernel → Kernel
count_kernel k =
    let t : Tcb = k.tcb task_kernel in
    set_task task_kernel (record t { number_of_activations = t.number_of_activations + 1 }) k

-- `task_run`; the state is unchanged if the task is not in the ready queue.
unfoldable pub run : Ptr → Kernel → Kernel
unfolding queue_del switch_to
run task k =
    let (s, k1) = queue_del at_ready task k in
    elim s [
      | error ↦ k
      | no_error ↦
          let t : Tcb = k1.tcb task in
          (switch_to task (
            set_task task
              (record t {
                remaining_quantum_time = pos quantum;
                number_of_activations = t.number_of_activations + 1;
                status = running;
              })
              k1)).1
    ]

-- `task_yield`
unfoldable pub yield_cpu : Kernel → Kernel
unfolding queue_add count_kernel switch_to
yield_cpu k =
    let t : Tcb = k.tcb k.current in
    let k1 : Kernel =
      set_task k.current
        (record t {
          execution_time = t.execution_time +ℤ pos quantum;
          remaining_quantum_time = pos quantum;
          status = ready;
        })
        k in
    let k2 : Kernel =
      if k1.current == task_kernel then k1 else count_kernel (queue_add at_ready k1.current k1) in
    (switch_to task_kernel k2).1

-- `task_suspend`
unfoldable pub suspend : Place → Kernel → Kernel
unfolding queue_add count_kernel switch_to
suspend q k =
    let t : Tcb = k.tcb k.current in
    let k1 : Kernel = set_task k.current (record t { status = suspended }) k in
    (switch_to task_kernel (count_kernel (queue_add q k1.current k1))).1

-- `task_awake` up to the assertion on the queue that the task leaves.
unfoldable pub leave_queue : Ptr → Kernel → Outcome
unfolding queue_del
leave_queue task k =
    if (k.tcb task).sleeping
    then (let (s, k1) = queue_del at_sleeping task k in
        elim s [
          | error ↦ abort
          | no_error ↦ done (set_task task (record (k1.tcb task) { sleeping = false }) k1)
        ])
    else (let (s, k1) = queue_del at_suspended task k in
        elim s [ error ↦ abort | no_error ↦ done k1 ])

-- `task_awake`
unfoldable pub awake : Ptr → Kernel → Outcome
unfolding leave_queue queue_add
awake task k =
    if task == null
    then done k
    else if not (is_status (k.tcb task).status suspended)
    then done k
    else then_do (leave_queue task k) (λ k1.
      done (queue_add at_ready task (set_task task (record (k1.tcb task) { status = ready }) k1)))

-- `task_wait`: it returns at once, or the task is suspended and returns `wait_resume` later.
pub data Wait : Type 0 where
  returned : ℤ → Wait
  waiting : Kernel → Wait

unfoldable pub wait : Ptr → Kernel → Wait
unfolding suspend
wait task k =
    if task == null
    then returned (negsuc 0)
    else if is_status (k.tcb task).status finished
    then returned (k.tcb task).exit_code
    else waiting (
        suspend at_suspended
          (set_task k.current (record (k.tcb k.current) { target_to_wait = (k.tcb task).id }) k))

unfoldable pub wait_resume : Kernel → ℤ
wait_resume k = (k.tcb k.current).target_exit_code

-- `task_sleep`
unfoldable pub sleep : ℤ → Kernel → Kernel
unfolding systime suspend
sleep t k = suspend at_sleeping (
    set_task k.current
      (record (k.tcb k.current) { sleeping = true; wake_up_time = pos (systime k) +ℤ t }) k)

-- The body of the loop of `task_exit`.
unfoldable pub wake_waiter : ℤ → Ptr → Kernel → Outcome
unfolding awake
wake_waiter exit_code aux k =
    if (k.tcb aux).target_to_wait == (k.tcb k.current).id
    then awake aux (set_task aux (record (k.tcb aux) { target_exit_code = exit_code }) k)
    else done k

-- The loop of `task_exit` over the suspended queue, from the task `aux` on.
unfoldable pub wake_loop : ℕ → ℤ → Ptr → Kernel → Outcome
wake_loop zero exit_code aux k = out_of_fuel
wake_loop (suc fuel) exit_code aux k =
    if aux == null
    then done k
    else then_do (wake_waiter exit_code aux k)
        (λ k1. let (aux', k2) = queue_next at_suspended k1 in wake_loop fuel exit_code aux' k2)

-- The accounting at the start of `task_exit`.
unfoldable pub close_task : ℤ → Kernel → Kernel
close_task exit_code k =
    let t : Tcb = k.tcb k.current in
    set_task k.current
      (record t {
        execution_time = t.execution_time +ℤ (pos quantum -ℤ t.remaining_quantum_time);
        status = finished;
        exit_code = exit_code;
      })
      k

-- `task_exit`
unfoldable pub exit : ℤ → Kernel → Outcome
unfolding close_task queue_head queue_size queue_add count_kernel switch_to
exit exit_code k =
    let k1 : Kernel = close_task exit_code k in
    if k1.current == task_kernel
    then done k1
    else (let (aux, k2) = queue_head at_suspended k1 in
        then_do (wake_loop (queue_size at_suspended k2 + 1) exit_code aux k2) (λ k3.
          done (switch_to task_kernel (count_kernel (queue_add at_finished k3.current k3))).1))

-- The test of the loop of `dispatcher`, with the number of disk requests.
unfoldable pub has_work : (requests : ℕ) → Kernel → Bool
unfolding queue_size
has_work requests k =
    ltb 1 (queue_size at_ready k) || (ltb 0 (queue_size at_sleeping k) || ltb 0 requests)

-- The start of the loop's body, up to the switch to the chosen task.
unfoldable pub dispatch : Kernel → Kernel
unfolding scheduler run
dispatch k = let (next, k1) = scheduler k in elim next [ none ↦ k1 | some task ↦ run task k1 ]

-- The `switch` on the status of the task that ran, when the processor comes back: one that still
-- runs is a failed assertion.
unfoldable pub check_returned : Ptr → Kernel → Outcome
check_returned task k = if is_status (k.tcb task).status running then abort else done k

-- The rest of the loop's body: the walk over the sleeping queue, from the task `aux` on.
pub sleepers_loop : ℕ → Ptr → Kernel → Outcome
sleepers_loop zero aux k = out_of_fuel
sleepers_loop (suc fuel) aux k =
    if aux == null
    then done k
    else then_do (if ltb_ℤ (pos (systime k)) (k.tcb aux).wake_up_time then done k else awake aux k)
        (λ k1. let (aux', k2) = queue_next at_sleeping k1 in sleepers_loop fuel aux' k2)

unfoldable pub wake_sleepers : Kernel → Outcome
unfolding queue_head queue_size
wake_sleepers k =
    let (aux, k1) = queue_head at_sleeping k in sleepers_loop (queue_size at_sleeping k1 + 1) aux k1

-- `handle_timer_signal`
unfoldable pub tick : Kernel → Kernel
unfolding yield_cpu
tick k =
    let t : Tcb = k.tcb k.current in
    let left : ℤ = decrement t.remaining_quantum_time in
    let k1 : Kernel =
      set_task k.current (record t { remaining_quantum_time = left })
        (record k { clock = k.clock + 1 }) in
    if eqb_ℤ left (pos 0) then yield_cpu k1 else k1
