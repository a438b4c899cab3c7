-- ===== src/Dispatcher/Clock.antt =====
-- The timer of kernel/time.c: a task has the processor until its quantum is used up.
use sistemas_operacionais.Base.{
  ℕ, zero, suc, ◌+◌, ◌≡◌, refl, sym, ap, ◌∙◌, ◌≢◌, true, false, ◌⊎◌, inl, inr, Bool-cases, arith,
  differ,
}
use sistemas_operacionais.Base.Int.{ℤ, pos, negsuc, decrement, eqb_ℤ}
use sistemas_operacionais.Queue.View.{items}
use sistemas_operacionais.Queue.Members.{mem}
use sistemas_operacionais.Kernel.{
  task_kernel, Tcb, Kernel, Place, at_ready, at_suspended, at_sleeping, at_finished, queue_of,
  set_task,
}
use sistemas_operacionais.Dispatcher.{tick, yield_cpu}
use sistemas_operacionais.Dispatcher.Consistent.{
  Runs, IsConsistent, old_or_spare, running-outside, Moves-IsConsistent, put_self,
}
use sistemas_operacionais.Dispatcher.Steps.{yield_cpu-keeps, yield_cpu-clock, yield_cpu-suspended}

-- The kernel with other fields of the current task, at another time.
abbrev pub at_time : Tcb → ℕ → Kernel → Kernel
at_time t n k = set_task k.current t (record k { clock = n })

places : (q : Place) (t : Tcb) (n : ℕ) (k : Kernel) → queue_of q (at_time t n k) ≡ queue_of q k
places at_ready t n k = refl
places at_suspended t n k = refl
places at_sleeping t n k = refl
places at_finished t n k = refl

pub at_time-IsConsistent :
    (t : Tcb) (n : ℕ) (k : Kernel)
    → Runs t
    → IsConsistent k
    → k.current ≢ task_kernel
    → IsConsistent (at_time t n k)
at_time-IsConsistent t n k r ok user = Moves-IsConsistent k (at_time t n k) k.current ok (record {
  user = user;
  others = λ p ne _. rw (differ p k.current ne);
  members = λ q p i.
      let old : mem p (items (queue_of q k)) ≡ true = rw (← places q t n k) i in
      old_or_spare k.task_disk_handler q p k.current (items (queue_of q k))
        ((at_time t n k).tcb k.current) (running-outside k k.current ok (ok.runs user) q) old;
  distinct = λ q. rw (places q t n k) (ok.distinct q);
  runs = λ _. rw (put_self k.tcb k.current t) r;
  alive = rw (differ task_kernel k.current (λ e. user (sym e))) ok.alive;
  same_handler = refl;
  awake = λ _. rw (put_self k.tcb k.current t) r.1;
  rests = λ _ _. refl;
  keeps_running = λ ne e. e;
})

eqb-zero : (v : ℤ) → eqb_ℤ v (pos 0) ≡ true → v ≡ pos 0
eqb-zero (pos zero) e = refl
eqb-zero (pos (suc n)) e = absurd (ground arith)
eqb-zero (negsuc n) e = absurd (ground arith)

not_zero : (v : ℤ) → eqb_ℤ v (pos 0) ≡ false → v ≢ pos 0
not_zero v more e = let h : false ≡ true = sym more ∙ ap (λ z. eqb_ℤ z (pos 0)) e in cc

-- The fields of the current task after a tick.
abbrev pub ticked : Tcb → Tcb
ticked t = record t { remaining_quantum_time = decrement t.remaining_quantum_time }

pub tick-yields :
    (k : Kernel)
    → eqb_ℤ (decrement (k.tcb k.current).remaining_quantum_time) (pos 0) ≡ true
    → tick k ≡ yield_cpu (at_time (ticked (k.tcb k.current)) (k.clock + 1) k)
unfolding tick
tick-yields k e = rw (tick, e)

pub tick-goes_on :
    (k : Kernel)
    → eqb_ℤ (decrement (k.tcb k.current).remaining_quantum_time) (pos 0) ≡ false
    → tick k ≡ at_time (ticked (k.tcb k.current)) (k.clock + 1) k
unfolding tick
tick-goes_on k e = rw (tick, e)

-- A tick of the timer while a user task of a consistent kernel runs keeps the kernel consistent and
-- counts one. The kernel gets the processor exactly when one tick less is zero for the task's
-- remaining quantum; else the task keeps it, with one tick less.
pub tick-keeps :
    (k : Kernel)
    → IsConsistent k
    → k.current ≢ task_kernel
    → IsConsistent (tick k)
      × ((tick k).clock ≡ k.clock + 1)
      × (((decrement (k.tcb k.current).remaining_quantum_time ≡ pos 0)
            × ((tick k).current ≡ task_kernel))
          ⊎ ((decrement (k.tcb k.current).remaining_quantum_time ≢ pos 0)
              × ((tick k).current ≡ k.current)
              × (((tick k).tcb k.current).remaining_quantum_time
                  ≡ decrement (k.tcb k.current).remaining_quantum_time)))
tick-keeps k ok user =
    let after =
      at_time-IsConsistent (ticked (k.tcb k.current)) (k.clock + 1) k (ok.runs user) ok user in
    elim (Bool-cases (eqb_ℤ (decrement (k.tcb k.current).remaining_quantum_time) (pos 0))) [
      | inl last ↦
          let parked =
            yield_cpu-keeps (at_time (ticked (k.tcb k.current)) (k.clock + 1) k) after user in
          rw (tick-yields k last) (
            parked.consistent,
            yield_cpu-clock (at_time (ticked (k.tcb k.current)) (k.clock + 1) k) user,
            inl (eqb-zero _ last, parked.current),
          )
      | inr more ↦ rw (tick-goes_on k more) (
        after,
        refl,
        inr (not_zero _ more, refl, rw (put_self k.tcb k.current (ticked (k.tcb k.current)))),
      )
    ]

-- The suspended queue is as before a tick.
pub tick-suspended :
    (k : Kernel)
    → IsConsistent k
    → k.current ≢ task_kernel
    → (tick k).suspended_queue ≡ k.suspended_queue
tick-suspended k ok user =
    let after =
      at_time-IsConsistent (ticked (k.tcb k.current)) (k.clock + 1) k (ok.runs user) ok user in
    elim (Bool-cases (eqb_ℤ (decrement (k.tcb k.current).remaining_quantum_time) (pos 0))) [
      | inl last ↦
          rw (tick-yields k last)
            (yield_cpu-suspended (at_time (ticked (k.tcb k.current)) (k.clock + 1) k) after user)
      | inr more ↦ rw (tick-goes_on k more)
    ]
