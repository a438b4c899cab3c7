-- ===== src/Dispatcher/Waiter.antt =====
-- The task that `task_exit` of kernel/dispatcher.c wakes first.
use mathlib.Core.Path.{subst}
use sistemas_operacionais.Base.{
  ℕ, zero, suc, ◌+◌, ◌<◌, ◌≡◌, refl, sym, ap, ◌∙◌, ◌≢◌, true, false, arith, ◌==◌, inl, inr,
  Bool-cases, ==_iff, differ, same, List, [], ◌∷◌, ◌++◌, length,
}
use sistemas_operacionais.Base.Int.{ℤ}
use sistemas_operacionais.Queue.View
use sistemas_operacionais.Queue.View.{View, items, view}
use sistemas_operacionais.Queue.Members.{mem, items-advance}
use sistemas_operacionais.Kernel.{
  Ptr, null, task_kernel, ready, suspended, finished, Tcb, Kernel, at_ready, at_finished,
}
use sistemas_operacionais.Dispatcher.{wake_waiter, wake_loop, close_task, exit, done, task_of}
use sistemas_operacionais.Dispatcher.Consistent.{IsConsistent}
use sistemas_operacionais.Dispatcher.Steps.{park, Parked, park-Parked}
use sistemas_operacionais.Dispatcher.Leaving.{Leaving, turned, turned-Leaving}
use sistemas_operacionais.Dispatcher.WakeLoop.{
  Told, Woken, wake_waiter-Woken, wake_loop-Ended, wake_loop-step, Ended, mem-after, advance-after,
}
use sistemas_operacionais.Dispatcher.Exit.{
  finish, finish-park, begun, begun-Leaving, exit-Ended, exit-finish, exit-keeps, rewound-enough,
}

advance-tail :
    (v : View Ptr) (x : Ptr) (a : List Ptr) → v.after ≡ x ∷ a → (View.advance v).after ≡ a
unfolding View.advance
advance-tail v x a e = ap (λ z. (View.advance_parts v.before z).after) e

current-head :
    (v : View Ptr) (x : Ptr) (a : List Ptr) → v.after ≡ x ∷ a → task_of (View.current v) ≡ x
unfolding View.current
current-head v x a e = ap (λ z. task_of (View.current_of z)) e

passed :
    (exit_code : ℤ) (x : Ptr) (k : Kernel)
    → ((k.tcb x).target_to_wait == (k.tcb k.current).id) ≡ false
    → wake_waiter exit_code x k ≡ done k
unfolding wake_waiter
passed exit_code x k other = rw (wake_waiter, other) refl

-- The loop tells the first task that waits, where those before it do not.
wake_loop-first :
    (fuel : ℕ) (exit_code : ℤ) (c p : Ptr) (xs ys : List Ptr) (k : Kernel)
    → length k.suspended_queue.after < fuel
    → Leaving c k
    → k.suspended_queue.after ≡ xs ++ (p ∷ ys)
    → mem null xs ≡ false
    → p ≢ null
    → ((x : Ptr) → mem x xs ≡ true → ((k.tcb x).target_to_wait == (k.tcb k.current).id) ≡ false)
    → ((k.tcb p).target_to_wait == (k.tcb k.current).id) ≡ true
    → (k.tcb p).status ≡ suspended
    → (k' : Kernel) × (wake_loop fuel exit_code (task_of (View.current k.suspended_queue)) k
        ≡ done k')
      × Told exit_code p k'
wake_loop-first zero exit_code c p xs ys k enough h e no_null ne others waits suspends =
    absurd (omega (arith, enough))
wake_loop-first (suc fuel) exit_code c p [] ys k enough h e no_null ne others waits suspends =
    let i : mem p (items k.suspended_queue) ≡ true =
      ap (λ a. mem p (k.suspended_queue.before ++ a)) e ∙ mem-after k.suspended_queue.before ys p in
    let w : Woken exit_code c p k (wake_waiter exit_code p k) =
      wake_waiter-Woken exit_code c p k ne i h in
    let v : View Ptr = View.advance w.after.suspended_queue in
    let rest : Ended exit_code c (turned v w.after)
        (wake_loop fuel exit_code (task_of (View.current v)) (turned v w.after)) =
      wake_loop-Ended fuel exit_code c (turned v w.after)
        (omega (arith, enough, ap length e, w.fewer, advance-after w.after.suspended_queue))
        (turned-Leaving c v w.after (items-advance w.after.suspended_queue) w.leaving) in
    (
      rest.last,
      ap (λ z. wake_loop (suc fuel) exit_code z k) (current-head k.suspended_queue p ys e)
          ∙ (wake_loop-step fuel exit_code p k w.after ne w.is_done ∙ rest.ends),
      rest.tells p (w.woken waits suspends),
    )
wake_loop-first (suc fuel) exit_code c p (x ∷ xs) ys k enough h e no_null ne others waits suspends =
    let here : mem x (x ∷ xs) ≡ true = rw (same x x refl) refl in
    let x_set : x ≢ null = λ z. ground arith in
    let v : View Ptr = View.advance k.suspended_queue in
    let tail : v.after ≡ xs ++ (p ∷ ys) = advance-tail k.suspended_queue x (xs ++ (p ∷ ys)) e in
    let (k', is_done, told) =
      wake_loop-first fuel exit_code c p xs ys (turned v k)
        (omega (arith, enough, ap length e, ap length tail))
        (turned-Leaving c v k (items-advance k.suspended_queue) h) tail (ground arith) ne
        (λ y j. others y (ground arith)) waits suspends in
    (
      k',
      ap (λ z. wake_loop (suc fuel) exit_code z k)
            (current-head k.suspended_queue x (xs ++ (p ∷ ys)) e)
          ∙ (wake_loop-step fuel exit_code x k k x_set (passed exit_code x k (others x here))
              ∙ is_done),
      told,
    )

done-same : {k k' : Kernel} → done k ≡ done k' → k ≡ k'
done-same e = cc

finish-Told :
    (exit_code : ℤ) (c p : Ptr) (k : Kernel)
    → Leaving c k
    → Told exit_code p k
    → Told exit_code p (finish k)
finish-Told exit_code c p k h t =
    let m : Parked k (park at_finished (k.tcb k.current) k) at_finished (k.tcb k.current) =
      park-Parked at_finished (k.tcb k.current) k (λ e. h.user (sym h.current ∙ e))
        h.consistent.alive in
    let other : p ≢ k.current = λ e.
      let a : (k.tcb c).status ≡ ready = ap (λ z. (k.tcb z).status) (sym (e ∙ h.current)) ∙ t.0 in
      let b : ready ≡ finished = sym a ∙ h.status in cc in
    let no_kernel : p ≢ task_kernel = λ e.
      let out : mem p (items k.ready_queue) ≡ false =
        ap (λ z. mem z (items k.ready_queue)) e ∙ h.consistent.outside at_ready in
      let b : true ≡ false = sym t.2 ∙ out in cc in
    let same_task : (park at_finished (k.tcb k.current) k).tcb p ≡ k.tcb p =
      m.others p other no_kernel in
    subst (Told exit_code p) (sym (finish-park k)) (
      ap (λ (b : Tcb). b.status) same_task ∙ t.0,
      ap (λ (b : Tcb). b.target_exit_code) same_task ∙ t.1,
      ap (λ v. mem p (items v)) (m.queues at_ready) ∙ t.2,
    )

closed-same :
    (exit_code : ℤ) (k : Kernel) (x : Ptr)
    → (((begun exit_code k).tcb x).target_to_wait ≡ (k.tcb x).target_to_wait)
      × (((begun exit_code k).tcb x).id ≡ (k.tcb x).id)
unfolding close_task View.rewind
closed-same exit_code k x = elim (Bool-cases (x == k.current)) [
  | inl here ↦ let e : x ≡ k.current = (==_iff x k.current).0 here in rw (here, e) (refl, refl)
  | inr there ↦ rw there (refl, refl)
]

closed-status :
    (exit_code : ℤ) (k : Kernel) (x : Ptr)
    → x ≢ k.current
    → ((begun exit_code k).tcb x).status ≡ (k.tcb x).status
unfolding close_task View.rewind
closed-status exit_code k x ne = rw (differ x k.current ne) refl

begun-current : (exit_code : ℤ) (k : Kernel) → (begun exit_code k).current ≡ k.current
unfolding close_task View.rewind
begun-current exit_code k = refl

begun-after :
    (exit_code : ℤ) (k : Kernel)
    → (begun exit_code k).suspended_queue.after ≡ items k.suspended_queue
unfolding close_task View.rewind
begun-after exit_code k = refl

-- The first task of the suspended queue that waits for the current task is woken when that exits:
-- in a consistent kernel `task_exit` by a user task, not the disk manager's, comes to its end with no
-- failed assertion; the kernel is consistent and has the processor, the task that exits has ended and
-- is in the finished queue, and a suspended task that waits for it, with only tasks before it in the
-- suspended queue that do not, none of them NULL, is in the ready queue with that status and with the
-- exit code.
pub exit-wakes :
    (exit_code : ℤ) (k : Kernel) (p : Ptr) (xs ys : List Ptr)
    → IsConsistent k
    → k.current ≢ task_kernel
    → k.current ≢ k.task_disk_handler
    → items k.suspended_queue ≡ xs ++ (p ∷ ys)
    → mem null xs ≡ false
    → p ≢ null
    → ((x : Ptr) → mem x xs ≡ true → ((k.tcb x).target_to_wait == (k.tcb k.current).id) ≡ false)
    → ((k.tcb p).target_to_wait == (k.tcb k.current).id) ≡ true
    → (k.tcb p).status ≡ suspended
    → (k' : Kernel) × (exit exit_code k ≡ done k')
      × IsConsistent k'
      × (k'.current ≡ task_kernel)
      × (mem k.current (items k'.finished_queue) ≡ true)
      × ((k'.tcb k.current).status ≡ finished)
      × ((k'.tcb p).status ≡ ready)
      × ((k'.tcb p).target_exit_code ≡ exit_code)
      × (mem p (items k'.ready_queue) ≡ true)
exit-wakes exit_code k p xs ys ok user ordinary e no_null ne others waits suspends =
    let apart : p ≢ k.current = λ z.
      let a : (k.tcb k.current).status ≡ suspended =
        ap (λ y. (k.tcb y).status) (sym z) ∙ suspends in
      let b = sym (ok.runs user).0 ∙ a in cc in
    let test : (x : Ptr)
        → (((begun exit_code k).tcb x).target_to_wait
            == ((begun exit_code k).tcb (begun exit_code k).current).id)
          ≡ ((k.tcb x).target_to_wait == (k.tcb k.current).id) =
      λ x.
        rw
          (
            begun-current exit_code k,
            (closed-same exit_code k x).0,
            (closed-same exit_code k k.current).1,
          )
          refl in
    let (k1, is_done, told) =
      wake_loop-first (length (items k.suspended_queue) + 1) exit_code k.current p xs ys
        (begun exit_code k) (rewound-enough k) (begun-Leaving exit_code k ok user ordinary)
        (begun-after exit_code k ∙ e) no_null ne (λ x i. test x ∙ others x i) (test p ∙ waits)
        (closed-status exit_code k p apart ∙ suspends) in
    let t = exit-Ended exit_code k ok user ordinary in
    let last : k1 ≡ t.last = done-same (sym is_done ∙ t.ends) in
    let (k', ends, fine, current, in_finished, status) = exit-keeps exit_code k ok user ordinary in
    let same_end : finish t.last ≡ k' =
      done-same (sym (exit-finish exit_code k ok user ordinary) ∙ ends) in
    let told' : Told exit_code p k' =
      subst (Told exit_code p) same_end
        (finish-Told exit_code k.current p t.last t.leaving (subst (Told exit_code p) last told)) in
    (k', ends, fine, current, in_finished, status, told'.0, told'.1, told'.2)
