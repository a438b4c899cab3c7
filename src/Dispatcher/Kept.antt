-- ===== src/Dispatcher/Kept.antt =====
-- No task is lost: what is in a queue or has the processor still is later.
use mathlib.Core.Path.{subst}
use sistemas_operacionais.Base.{
  ◌+◌, ◌≡◌, refl, sym, ap, ◌∙◌, ◌≢◌, Bool, true, false, ◌||◌, ◌==◌, inl, inr, Bool-cases, arith,
  differ,
}
use sistemas_operacionais.Base.Int.{ℤ, pos, decrement, eqb_ℤ}
use sistemas_operacionais.Queue.Members.{mem-push}
use sistemas_operacionais.Kernel.{
  Ptr, task_kernel, suspended, Tcb, Kernel, at_ready, at_suspended, at_sleeping,
}
use sistemas_operacionais.Dispatcher.{returned, waiting, yield_cpu, suspend, sleep, tick}
use sistemas_operacionais.Dispatcher.Consistent.{IsConsistent}
use sistemas_operacionais.Dispatcher.Steps.{park, yielded, asleep, yield_cpu-park, suspend-park}
use sistemas_operacionais.Dispatcher.Clock.{
  at_time, at_time-IsConsistent, ticked, tick-yields, tick-goes_on,
}
use sistemas_operacionais.Dispatcher.Spawn.{grown, create-grown}
use sistemas_operacionais.Dispatcher.Wake.{roused, awake-keeps}
use sistemas_operacionais.Dispatcher.Run.{dispatch-keeps}
use sistemas_operacionais.Dispatcher.Idle.{idle_tick}
use sistemas_operacionais.Dispatcher.Exit.{exit-present}
use sistemas_operacionais.Dispatcher.Sleepers.{wake_sleepers-keeps}
use sistemas_operacionais.Dispatcher.Present.{queued, Stays, present, roused-Stays, park-present}
use sistemas_operacionais.Dispatcher.History.{
  Move, creates, yields, suspends, sleeps, joins, exits, wakes, ticks, idle_ticks, dispatches,
  walks, History, goes_on, History-IsConsistent, done-same, waiting-same, joining, wait_lem,
}

-- A task on the processor or in a queue, other than the kernel, stays so.
Kept : Kernel → Kernel → Type 0
Kept k k' = (p : Ptr) → p ≢ task_kernel → present p k ≡ true → present p k' ≡ true

grown-Kept : (task stack name : Ptr) (k : Kernel) → Kept k (grown task stack name k)
unfolding Kept
grown-Kept task stack name k p user i = ground (arith, mem-push task k.ready_queue p)

park-Kept :
    (k : Kernel)
    → IsConsistent k
    → k.current ≢ task_kernel
    → (t : Tcb)
    → Kept k (park at_ready t k) × Kept k (park at_suspended t k) × Kept k (park at_sleeping t k)
unfolding Kept
park-Kept k ok user t = (
  λ p _ i. park-present at_ready t k user ok.alive p i,
  λ p _ i. park-present at_suspended t k user ok.alive p i,
  λ p _ i. park-present at_sleeping t k user ok.alive p i,
)

yield_cpu-Kept : (k : Kernel) → IsConsistent k → k.current ≢ task_kernel → Kept k (yield_cpu k)
yield_cpu-Kept k ok user =
    rw (yield_cpu-park k user) (park-Kept k ok user (yielded (k.tcb k.current))).0

suspend-Kept :
    (k : Kernel) → IsConsistent k → k.current ≢ task_kernel → Kept k (suspend at_suspended k)
suspend-Kept k ok user =
    unfold suspend park in (park-Kept k ok user (record (k.tcb k.current) { status = suspended })).1

sleep-Kept : (t : ℤ) (k : Kernel) → IsConsistent k → k.current ≢ task_kernel → Kept k (sleep t k)
unfolding sleep
sleep-Kept t k ok user =
    rw (suspend-park at_sleeping _ k) (park-Kept k ok user (asleep t k.clock (k.tcb k.current))).2

-- What happens in the queues alone.
or_left : (a b c : Bool) → (a ≡ true → b ≡ true) → (a || c) ≡ true → (b || c) ≡ true
or_left true b c h i = rw (h refl) refl
or_left false true c h i = refl
or_left false false c h i = i

Stays-Kept : (k k' : Kernel) → k'.current ≡ k.current → Stays k k' → Kept k k'
unfolding Kept
Stays-Kept k k' e s p _ i = rw e (or_left (queued p k) (queued p k') (p == k.current) (s p) i)

roused-Kept : (s : Bool) (p : Ptr) (k : Kernel) → IsConsistent k → Kept k (roused s p k)
roused-Kept s p k ok = Stays-Kept k (roused s p k) refl (roused-Stays s p k)

tick-Kept : (k : Kernel) → IsConsistent k → k.current ≢ task_kernel → Kept k (tick k)
tick-Kept k ok user =
    let a : Kernel = at_time (ticked (k.tcb k.current)) (k.clock + 1) k in
    let ok' =
      at_time-IsConsistent (ticked (k.tcb k.current)) (k.clock + 1) k (ok.runs user) ok user in
    elim (Bool-cases (eqb_ℤ (decrement (k.tcb k.current).remaining_quantum_time) (pos 0))) [
      | inl last ↦ rw (tick-yields k last) (unfold Kept in yield_cpu-Kept a ok' user)
      | inr more ↦ rw (tick-goes_on k more) (unfold Kept in λ p _ i. i)
    ]

Move-Kept : {k k' : Kernel} → IsConsistent k → Move k k' → Kept k k'
Move-Kept {k} {k'} ok (creates task stack name nt ns user fresh nowhere e) =
    subst (Kept k) (ap (λ r. r.1) (sym (create-grown task stack name k nt ns) ∙ e))
      (grown-Kept task stack name k)
Move-Kept {k} ok (yields user) = yield_cpu-Kept k ok user
Move-Kept {k} ok (suspends user) = suspend-Kept k ok user
Move-Kept {k} ok (sleeps t user ordinary) = sleep-Kept t k ok user
Move-Kept {k} {k'} ok (joins task user e) = elim (wait_lem task k) [
  | inl (v, back) ↦ absurd (let h : returned v ≡ waiting k' = sym back ∙ e in cc)
  | inr gone ↦ subst (Kept k) (waiting-same (sym gone ∙ e)) (park-Kept k ok user (joining task k)).1
]
Move-Kept {k} {k'} ok (exits code user ordinary e) =
    let (k1, is_done, kept) = exit-present code k ok user ordinary in
    subst (Kept k) (done-same (sym is_done ∙ e)) (unfold Kept in λ p _ i. kept p i)
Move-Kept {k} ok (wakes s p ne waits_here i e) =
    subst (Kept k) (done-same (sym (awake-keeps s p k ok ne waits_here i).0 ∙ e))
      (roused-Kept s p k ok)
Move-Kept {k} ok (ticks user) = tick-Kept k ok user
Move-Kept {k} ok (idle_ticks back) =
    let (ok', current, stays) = idle_tick k ok back in Stays-Kept k (tick k) current stays
Move-Kept {k} ok (dispatches x xs e no_null kernel) =
    unfold Kept in
    λ p user i.
      let (c, d) = dispatch-keeps k x xs ok kernel e no_null in
      let other : (p == k.current) ≡ false = differ p k.current (λ h. user (h ∙ kernel)) in
      d.stays p (ground arith)
Move-Kept {k} ok (walks e) =
    let (k1, is_done, w) = wake_sleepers-keeps k ok in
    subst (Kept k) (done-same (sym is_done ∙ e)) (Stays-Kept k k1 w.same_current w.stays)

-- From one state to another by any number of moves.
pub data Later (k : Kernel) : Kernel → Type 0 where
  now : Later k k
  later : {k1 k2 : Kernel} → Later k k1 → Move k1 k2 → Later k k2

pub Later-History : {k k' : Kernel} → History k → Later k k' → History k'
Later-History h now = h
Later-History h (later l m) = goes_on (Later-History h l) m

-- No task is lost: a task that is not the kernel, and has the processor or is in one of the four
-- queues in a state that the kernel reaches, has the processor or is in one of them in every
-- state after it, under any sequence of the moves of `Move`.
pub Later-present :
    (k k' : Kernel) (p : Ptr)
    → History k
    → Later k k'
    → p ≢ task_kernel
    → present p k ≡ true
    → present p k' ≡ true
unfolding Kept
Later-present k k' p h now user i = i
Later-present k k' p h (later l m) user i =
    Move-Kept (History-IsConsistent _ (Later-History h l)) m p user (Later-present k _ p h l user i)
