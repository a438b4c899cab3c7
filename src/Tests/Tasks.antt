-- ===== src/Tests/Tasks.antt =====
-- Three tasks: the one at 10 runs, the one at 20 is ready and the one at 30 waits for the first. The disk
-- manager's task at 50 is ready, and in the suspended queue as well.
use sistemas_operacionais.Base.{
  List, ◌+◌, ℕ, ◌≡◌, refl, ◌≢◌, true, false, [], ◌∷◌, arith, ◌⊎◌, inl, inr, Bool-cases, ◌==◌, suc,
  ◌++◌,
}
use sistemas_operacionais.Base.Int.{pos, negsuc}
use sistemas_operacionais.Queue.{no_error}
use sistemas_operacionais.Queue.View
use sistemas_operacionais.Queue.View.{view, items}
use sistemas_operacionais.Queue.Members.{mem, is_task}
use sistemas_operacionais.Kernel.{
  Ptr, task_kernel, ready, running, suspended, finished, Kernel, boot, put, zero_tcb, Place,
  at_ready, at_suspended, at_sleeping, at_finished, queue_of,
}
use sistemas_operacionais.Dispatcher.{yield_cpu, suspend, sleep, awake, dispatch, done}
use sistemas_operacionais.Base.Int.{decrement}
use sistemas_operacionais.Task.{create}
use sistemas_operacionais.Dispatcher.{wake_waiter, queue_next, tick, wake_loop, exit, Outcome}
use sistemas_operacionais.Dispatcher.Clock.{tick-keeps}
use sistemas_operacionais.Dispatcher.Spawn.{create-keeps}
use sistemas_operacionais.Dispatcher.Waiter.{exit-wakes}
use sistemas_operacionais.Dispatcher.Consistent.{Home, Once, IsConsistent}
use sistemas_operacionais.Dispatcher.Steps.{park-keeps, ParkedAt, yielded, asleep}
use sistemas_operacionais.Dispatcher.Wake.{awake-keeps, roused, waits}
use sistemas_operacionais.Dispatcher.Run.{dispatch-keeps, Dispatched}
use sistemas_operacionais.Semaphore.{Semaphore, returned, waiting, up, down, down_suspend}
use sistemas_operacionais.Semaphore.Balance.{IsOpen, up-wakes, down_lem, lost_wake_up}

abbrev pub three_tasks : Kernel
three_tasks = record (boot 0) {
  tcb =
      put
        (put (put (boot 0).tcb 10 (record zero_tcb { id = 1; status = running })) 20
          (record zero_tcb { id = 2 }))
        30 (record zero_tcb { id = 3; status = suspended; target_to_wait = 1 });
  ready_queue = view [] (20 ∷ 50 ∷ []);
  suspended_queue = view [] (50 ∷ 30 ∷ []);
  current = 10;
  task_disk_handler = 50;
}

fits :
    (q : Place) (p : Ptr)
    → mem p (items (queue_of q three_tasks)) ≡ true
    → Home 50 q p (three_tasks.tcb p)
fits at_ready p i = elim (Bool-cases (p == 20)) [
  | inl here ↦ let e : p ≡ 20 = ground arith in rw e (refl, refl)
  | inr there ↦ let e : p ≡ 50 = ground arith in rw e (refl, refl)
]
fits at_suspended p i = elim (Bool-cases (p == 50)) [
  | inl here ↦ inr (ground arith)
  | inr there ↦ let e : p ≡ 30 = ground arith in inl (rw e (refl, refl))
]
fits at_sleeping p i = absurd (ground arith)
fits at_finished p i = absurd (ground arith)

once : (q : Place) → Once 50 q (items (queue_of q three_tasks))
once at_ready = (refl, (refl, tt))
once at_suspended = ((λ _. refl), ((λ _. refl), tt))
once at_sleeping = tt
once at_finished = tt

no_kernel : (q : Place) → mem task_kernel (items (queue_of q three_tasks)) ≡ false
no_kernel at_ready = refl
no_kernel at_suspended = refl
no_kernel at_sleeping = refl
no_kernel at_finished = refl

pub three_tasks-IsConsistent : IsConsistent three_tasks
three_tasks-IsConsistent = record {
  member = fits;
  distinct = once;
  outside = no_kernel;
  runs = λ _. (refl, refl);
  alive = λ e. cc;
  handler = omega arith;
  awake = refl;
  rests = λ e. cc;
}

user : three_tasks.current ≢ task_kernel
user = omega arith

park-keeps_example :
    ParkedAt three_tasks (yield_cpu three_tasks) at_ready (yielded (three_tasks.tcb 10))
    × ParkedAt three_tasks
        (suspend at_suspended three_tasks)
        at_suspended
        (record (three_tasks.tcb 10) { status = suspended })
    × ParkedAt three_tasks
        (sleep (pos 5) three_tasks)
        at_sleeping
        (asleep (pos 5) 0 (three_tasks.tcb 10))
park-keeps_example = park-keeps three_tasks (pos 5) three_tasks-IsConsistent user (omega arith)

awake-keeps_example :
    (awake 30 three_tasks ≡ done (roused false 30 three_tasks))
    × IsConsistent (roused false 30 three_tasks)
    × (items (roused false 30 three_tasks).ready_queue ≡ items three_tasks.ready_queue ++ (30 ∷ []))
    × (((roused false 30 three_tasks).tcb 30).status ≡ ready)
    × (items (queue_of (waits false) (roused false 30 three_tasks))
        ≡ View.remove_first (is_task 30) (50 ∷ 30 ∷ []))
awake-keeps_example =
    awake-keeps false 30 three_tasks three_tasks-IsConsistent (omega arith) refl refl

-- The same tasks when the one at 10 has yielded.
abbrev yielded_tasks : Kernel
yielded_tasks = yield_cpu three_tasks

yielded_tasks-ready : items yielded_tasks.ready_queue ≡ 20 ∷ 50 ∷ 10 ∷ []
unfolding yield_cpu
yielded_tasks-ready = refl

yielded_tasks-kernel : yielded_tasks.current ≡ task_kernel
unfolding yield_cpu
yielded_tasks-kernel = refl

dispatch-keeps_example :
    (c : Ptr) × Dispatched yielded_tasks (dispatch yielded_tasks) (20 ∷ 50 ∷ 10 ∷ []) c
dispatch-keeps_example =
    dispatch-keeps yielded_tasks 20 (50 ∷ 10 ∷ []) yielded_tasks-IsConsistent yielded_tasks-kernel
      yielded_tasks-ready refl
  where
    yielded_tasks-IsConsistent : IsConsistent yielded_tasks
    yielded_tasks-IsConsistent =
        (park-keeps three_tasks (pos 5) three_tasks-IsConsistent user (omega arith)).0.consistent

yielded_tasks-status : (yielded_tasks.tcb 10).status ≡ ready
unfolding yield_cpu
yielded_tasks-status = refl

-- A semaphore at zero for which nobody waits, and one for which the task at 30 does.
abbrev free_semaphore : Semaphore
free_semaphore = record { lock = 0; wait_queue = view [] []; value = pos 0; destroy = 0 }

abbrev awaited : Semaphore
awaited = record { lock = 0; wait_queue = view [] (30 ∷ []); value = negsuc 0; destroy = 0 }

down_lem_example :
    ((n : ℕ) × (free_semaphore.value ≡ pos (suc n))
      × (s' : Semaphore) × (down free_semaphore three_tasks ≡ returned no_error s' three_tasks)
      × IsOpen s'
      × (s'.value ≡ pos n)
      × (s'.wait_queue ≡ free_semaphore.wait_queue))
    ⊎ ((s' : Semaphore) × (down free_semaphore three_tasks ≡ waiting s' three_tasks)
        × IsOpen s'
        × (s'.value ≡ decrement free_semaphore.value)
        × (items s'.wait_queue ≡ items free_semaphore.wait_queue ++ (three_tasks.current ∷ []))
        × ParkedAt three_tasks
            (down_suspend three_tasks)
            at_suspended
            (record (three_tasks.tcb 10) { status = suspended }))
down_lem_example =
    down_lem free_semaphore three_tasks three_tasks
      (record { unlocked = refl; alive = refl; balance = refl }) three_tasks-IsConsistent refl user

-- The task at 10 is preempted and runs again before it is suspended.
lost_wake_up_example :
    (s1 s2 : Semaphore) × (down free_semaphore three_tasks ≡ waiting s1 three_tasks)
    × (up s1 yielded_tasks ≡ returned no_error s2 yielded_tasks)
    × (items s2.wait_queue ≡ [])
    × (s2.value ≡ pos 0)
    × (((down_suspend three_tasks).tcb 10).status ≡ suspended)
lost_wake_up_example =
    lost_wake_up free_semaphore three_tasks yielded_tasks three_tasks
      (record { unlocked = refl; alive = refl; balance = refl }) refl (omega arith) (omega arith)
      yielded_tasks-status three_tasks-IsConsistent refl

up-wakes_example :
    (s' : Semaphore) × (up awaited three_tasks ≡ returned no_error s' (roused false 30 three_tasks))
    × IsOpen s'
    × (items s'.wait_queue ≡ [])
    × IsConsistent (roused false 30 three_tasks)
    × (items (roused false 30 three_tasks).ready_queue ≡ items three_tasks.ready_queue ++ (30 ∷ []))
    × (((roused false 30 three_tasks).tcb 30).status ≡ ready)
up-wakes_example =
    up-wakes awaited three_tasks 30 [] (record { unlocked = refl; alive = refl; balance = refl })
      three_tasks-IsConsistent refl (omega arith) refl refl

tick-keeps_example :
    IsConsistent (tick three_tasks)
    × ((tick three_tasks).clock ≡ 1)
    × (((decrement (three_tasks.tcb 10).remaining_quantum_time ≡ pos 0)
          × ((tick three_tasks).current ≡ task_kernel))
        ⊎ ((decrement (three_tasks.tcb 10).remaining_quantum_time ≢ pos 0)
            × ((tick three_tasks).current ≡ 10)
            × (((tick three_tasks).tcb 10).remaining_quantum_time
                ≡ decrement (three_tasks.tcb 10).remaining_quantum_time)))
tick-keeps_example = tick-keeps three_tasks three_tasks-IsConsistent user

forty_nowhere : (q : Place) → mem 40 (items (queue_of q three_tasks)) ≡ false
forty_nowhere at_ready = refl
forty_nowhere at_suspended = refl
forty_nowhere at_sleeping = refl
forty_nowhere at_finished = refl

create-keeps_example :
    (k' : Kernel) × (create 40 4096 7 three_tasks ≡ (40, k'))
    × IsConsistent k'
    × (items k'.ready_queue ≡ (20 ∷ 50 ∷ []) ++ (40 ∷ []))
    × ((k'.tcb 40).id ≡ 0 + 1)
    × ((k'.tcb 40).parent ≡ 10)
    × (k'.last_id ≡ 0 + 1)
create-keeps_example =
    create-keeps 40 4096 7 three_tasks three_tasks-IsConsistent (omega arith) (omega arith)
      (omega arith) (omega arith) forty_nowhere

-- Two tasks wait for the one at 10; when it exits only the first is woken.
abbrev two_waiters : Kernel
two_waiters = record three_tasks {
  tcb =
      put
        (put three_tasks.tcb 30
          (record zero_tcb { id = 3; status = suspended; target_to_wait = 1 }))
        40 (record zero_tcb { id = 4; status = suspended; target_to_wait = 1 });
  suspended_queue = view [] (50 ∷ 30 ∷ 40 ∷ []);
}

abbrev left_suspended : Outcome → List Ptr
left_suspended (done k) = items k.suspended_queue
left_suspended _ = []

exit-two_waiters : left_suspended (exit (pos 0) two_waiters) ≡ 50 ∷ 40 ∷ []
unfolding exit wake_loop wake_waiter queue_next
exit-two_waiters = refl

abbrev destroyed_semaphore : Semaphore
destroyed_semaphore = record { lock = 0; wait_queue = view [] []; value = negsuc 0; destroy = 1 }

no_other_waits :
    (x : Ptr)
    → mem x (50 ∷ []) ≡ true
    → ((three_tasks.tcb x).target_to_wait == (three_tasks.tcb three_tasks.current).id) ≡ false
no_other_waits x i = let e : x ≡ 50 = ground arith in rw e refl

exit-wakes_example :
    (k' : Kernel) × (exit (pos 7) three_tasks ≡ done k')
    × IsConsistent k'
    × (k'.current ≡ task_kernel)
    × (mem 10 (items k'.finished_queue) ≡ true)
    × ((k'.tcb 10).status ≡ finished)
    × ((k'.tcb 30).status ≡ ready)
    × ((k'.tcb 30).target_exit_code ≡ pos 7)
    × (mem 30 (items k'.ready_queue) ≡ true)
exit-wakes_example =
    exit-wakes (pos 7) three_tasks 30 (50 ∷ []) [] three_tasks-IsConsistent (omega arith)
      (omega arith) refl refl (omega arith) no_other_waits refl refl
