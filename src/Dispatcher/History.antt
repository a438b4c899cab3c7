-- ===== src/Dispatcher/History.antt =====
-- The kernel's states from the dispatcher's first choice on, under every operation that moves a task.
-- Each operation is one move: no tick of the timer comes inside it.
use mathlib.Core.Path.{subst}
use sistemas_operacionais.Base.{
  ◌≡◌, refl, sym, ap, ◌∙◌, ◌≢◌, Bool, true, false, ◌==◌, ◌⊎◌, inl, inr, Bool-cases, List, ◌∷◌,
}
use sistemas_operacionais.Base.Int.{ℤ, negsuc}
use sistemas_operacionais.Queue.View.{items}
use sistemas_operacionais.Queue.Members.{mem}
use sistemas_operacionais.Kernel.{
  Ptr, null, task_kernel, suspended, finished, is_status, Tcb, Kernel, Place, at_suspended,
  queue_of,
}
use sistemas_operacionais.Task.{create}
use sistemas_operacionais.Dispatcher.{
  done, returned, waiting, yield_cpu, suspend, sleep, wait, exit, awake, tick, dispatch,
  wake_sleepers,
}
use sistemas_operacionais.Dispatcher.Consistent.{IsConsistent}
use sistemas_operacionais.Dispatcher.Steps.{
  park, park-IsConsistent, yield_cpu-keeps, suspend-keeps, sleep-keeps, suspend-park,
}
use sistemas_operacionais.Dispatcher.Clock.{tick-keeps}
use sistemas_operacionais.Dispatcher.Spawn.{create-keeps}
use sistemas_operacionais.Dispatcher.Wake.{waits, awake-keeps}
use sistemas_operacionais.Dispatcher.Run.{dispatch-keeps}
use sistemas_operacionais.Dispatcher.Exit.{exit-keeps}
use sistemas_operacionais.Dispatcher.Sleepers.{wake_sleepers-keeps}
use sistemas_operacionais.Dispatcher.Idle.{idle_tick}
use sistemas_operacionais.Dispatcher.Opening.{Opened, Opened-IsConsistent}

-- One operation of a user task, of the kernel or of the timer: a block is fresh, a task that is
-- woken waits, and the processor is with whom the operation needs.
pub data Move (k : Kernel) : Kernel → Type 0 where
  creates :
      (task stack name : Ptr) {k' : Kernel}
      → task ≢ null
      → stack ≢ null
      → task ≢ task_kernel
      → task ≢ k.current
      → ((q : Place) → mem task (items (queue_of q k)) ≡ false)
      → create task stack name k ≡ (task, k')
      → Move k k'
  yields : k.current ≢ task_kernel → Move k (yield_cpu k)
  suspends : k.current ≢ task_kernel → Move k (suspend at_suspended k)
  sleeps : (t : ℤ) → k.current ≢ task_kernel → k.current ≢ k.task_disk_handler → Move k (sleep t k)
  joins :
      (task : Ptr) {k' : Kernel} → k.current ≢ task_kernel → wait task k ≡ waiting k' → Move k k'
  exits :
      (code : ℤ) {k' : Kernel}
      → k.current ≢ task_kernel
      → k.current ≢ k.task_disk_handler
      → exit code k ≡ done k'
      → Move k k'
  wakes :
      (s : Bool) (p : Ptr) {k' : Kernel}
      → p ≢ null
      → (k.tcb p).status ≡ suspended
      → mem p (items (queue_of (waits s) k)) ≡ true
      → awake p k ≡ done k'
      → Move k k'
  ticks : k.current ≢ task_kernel → Move k (tick k)
  idle_ticks : k.current ≡ task_kernel → Move k (tick k)
  dispatches :
      (x : Ptr) (xs : List Ptr)
      → items k.ready_queue ≡ x ∷ xs
      → mem null (x ∷ xs) ≡ false
      → k.current ≡ task_kernel
      → Move k (dispatch k)
  walks : {k' : Kernel} → wake_sleepers k ≡ done k' → Move k k'

pub data History : Kernel → Type 0 where
  starts : (m u : Ptr) {k : Kernel} → Opened m u k → History (dispatch k)
  goes_on : {k k' : Kernel} → History k → Move k k' → History k'

pub done-same : {k k' : Kernel} → done k ≡ done k' → k ≡ k'
done-same e = cc

pub waiting-same : {k k' : Kernel} → waiting k ≡ waiting k' → k ≡ k'
waiting-same e = cc

-- The fields of a task that waits for another.
abbrev pub joining : Ptr → Kernel → Tcb
joining task k = record (k.tcb k.current) { target_to_wait = (k.tcb task).id; status = suspended }

pub wait_lem :
    (task : Ptr) (k : Kernel)
    → ((v : ℤ) × (wait task k ≡ returned v))
      ⊎ (wait task k ≡ waiting (park at_suspended (joining task k) k))
unfolding wait
wait_lem task k = elim (Bool-cases (task == null)) [
  | inl none ↦ inl (negsuc 0, rw (wait, none) refl)
  | inr given ↦ elim (Bool-cases (is_status (k.tcb task).status finished)) [
    | inl over ↦ inl ((k.tcb task).exit_code, rw (wait, given, over) refl)
    | inr lives ↦ inr (
        rw (wait, given, lives)
          (ap waiting (
            suspend-park at_suspended
              (record (k.tcb k.current) { target_to_wait = (k.tcb task).id }) k)))
  ]
]

pub Move-IsConsistent : {k k' : Kernel} → IsConsistent k → Move k k' → IsConsistent k'
Move-IsConsistent {k} {k'} ok (creates task stack name nt ns user fresh nowhere e) =
    let t = create-keeps task stack name k ok nt ns user fresh nowhere in
    subst IsConsistent (ap (λ r. r.1) (sym t.1 ∙ e)) t.2
Move-IsConsistent {k} ok (yields user) = (yield_cpu-keeps k ok user).consistent
Move-IsConsistent {k} ok (suspends user) = (suspend-keeps k ok user).consistent
Move-IsConsistent {k} ok (sleeps t user ordinary) = (sleep-keeps t k ok user ordinary).consistent
Move-IsConsistent {k} {k'} ok (joins task user e) = elim (wait_lem task k) [
  | inl (v, back) ↦ absurd (returned_waiting (sym back ∙ e))
  | inr gone ↦
      subst IsConsistent (waiting-same (sym gone ∙ e))
        (park-IsConsistent k at_suspended (joining task k) ok user (refl, (ok.runs user).1)
          (λ _. (ok.runs user).1)).0
]
  where
    returned_waiting : {v : ℤ} {j : Kernel} → returned v ≡ waiting j → ⊥
    returned_waiting h = cc
Move-IsConsistent {k} ok (exits code user ordinary e) =
    let t = exit-keeps code k ok user ordinary in subst IsConsistent (done-same (sym t.1 ∙ e)) t.2
Move-IsConsistent {k} ok (wakes s p ne waits_here i e) =
    let t = awake-keeps s p k ok ne waits_here i in subst IsConsistent (done-same (sym t.0 ∙ e)) t.1
Move-IsConsistent {k} ok (ticks user) = (tick-keeps k ok user).0
Move-IsConsistent {k} ok (idle_ticks back) = (idle_tick k ok back).0
Move-IsConsistent {k} ok (dispatches x xs e no_null kernel) =
    let (c, d) = dispatch-keeps k x xs ok kernel e no_null in d.consistent
Move-IsConsistent {k} ok (walks e) =
    let (k1, is_done, w) = wake_sleepers-keeps k ok in
    subst IsConsistent (done-same (sym is_done ∙ e)) w.consistent

-- From the state in which the dispatcher, behind `block_init` and the creation of the task of
-- `user_main`, has run its first choice, every state that the kernel reaches by `task_create`,
-- `task_yield`, `task_suspend` on the suspended queue, `task_sleep`, `task_wait`, `task_exit`,
-- `task_awake`, ticks of the timer, the dispatcher's choice and its walk over the sleeping queue, each
-- where `Move` has it and with no tick inside it, is consistent: each task in a queue has the status
-- and the flag of that queue and is there once, but for the disk manager's task in the suspended
-- queue, the kernel is in none, and a user task that has the processor is running.
pub History-IsConsistent : (k : Kernel) → History k → IsConsistent k
History-IsConsistent k (starts m u o) = (Opened-IsConsistent m u _ o).0
History-IsConsistent k (goes_on h m) = Move-IsConsistent (History-IsConsistent _ h) m
