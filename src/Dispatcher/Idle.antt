-- ===== src/Dispatcher/Idle.antt =====
-- A tick of kernel/time.c while the kernel itself has the processor.
use mathlib.Core.Path.{subst}
use sistemas_operacionais.Base.{
  ◌≡◌, refl, sym, ap, ◌∙◌, ◌≢◌, true, false, inl, inr, Bool-cases, differ,
}
use sistemas_operacionais.Base.Int.{pos, decrement, eqb_ℤ}
use sistemas_operacionais.Queue.View.{items}
use sistemas_operacionais.Queue.Members.{mem}
use sistemas_operacionais.Kernel.{
  Ptr, task_kernel, running, finished, Tcb, Kernel, Place, at_ready, at_suspended, at_sleeping,
  at_finished, queue_of,
}
use sistemas_operacionais.Task.{switch_to}
use sistemas_operacionais.Dispatcher.{tick, yield_cpu}
use sistemas_operacionais.Dispatcher.Consistent.{Home, Once, IsConsistent, ne_kernel}
use sistemas_operacionais.Dispatcher.Leaving.{idle}
use sistemas_operacionais.Dispatcher.Present.{Stays}

-- Only the kernel's own block and the clock differ.
record Same (k k' : Kernel) : Type 0 where
  queues : (q : Place) → queue_of q k' ≡ queue_of q k
  others : (p : Ptr) → p ≢ task_kernel → k'.tcb p ≡ k.tcb p
  current : k'.current ≡ k.current
  handler : k'.task_disk_handler ≡ k.task_disk_handler
  alive : (k'.tcb task_kernel).status ≢ finished

Same-IsConsistent :
    (k k' : Kernel) → k.current ≡ task_kernel → Same k k' → IsConsistent k → IsConsistent k'
Same-IsConsistent k k' back s ok = record {
  member = λ q p i.
      let j : mem p (items (queue_of q k)) ≡ true =
        ap (λ v. mem p (items v)) (sym (s.queues q)) ∙ i in
      subst (λ d. Home d q p (k'.tcb p)) (sym s.handler)
        (subst (Home k.task_disk_handler q p) (sym (s.others p (ne_kernel k p q ok j)))
          (ok.member q p j));
  distinct = λ q.
      subst (λ d. Once d q (items (queue_of q k'))) (sym s.handler)
        (subst (λ v. Once k.task_disk_handler q (items v)) (sym (s.queues q)) (ok.distinct q));
  outside = λ q. ap (λ v. mem task_kernel (items v)) (s.queues q) ∙ ok.outside q;
  runs = λ ne. absurd (ne (s.current ∙ back));
  alive = s.alive;
  handler = λ e. ok.handler (sym s.handler ∙ e);
  awake =
      subst (λ d. (k'.tcb d).sleeping ≡ false) (sym s.handler)
        (ap (λ (t : Tcb). t.sleeping) (s.others k.task_disk_handler ok.handler) ∙ ok.awake);
  rests =
      subst (λ d. (k'.tcb d).status ≡ running → k'.current ≡ d) (sym s.handler)
        (λ r.
          s.current
          ∙ ok.rests
              (sym (ap (λ (t : Tcb). t.status) (s.others k.task_disk_handler ok.handler)) ∙ r));
}

tick-Same : (k : Kernel) → (k.tcb task_kernel).status ≢ finished → Same (idle k) (tick (idle k))
unfolding tick yield_cpu switch_to
tick-Same k alive =
    elim (Bool-cases (eqb_ℤ (decrement (k.tcb task_kernel).remaining_quantum_time) (pos 0))) [
      | inl last ↦ record {
        queues = queues_yield last;
        others = λ p ne. rw (tick, last, differ p task_kernel ne) refl;
        current = rw (tick, last) refl;
        handler = rw (tick, last) refl;
        alive = rw (tick, last) (λ e. cc);
      }
      | inr more ↦ record {
        queues = queues_on more;
        others = λ p ne. rw (tick, more, differ p task_kernel ne) refl;
        current = rw (tick, more) refl;
        handler = rw (tick, more) refl;
        alive = rw (tick, more) alive;
      }
    ]
  where
    queues_yield :
        eqb_ℤ (decrement (k.tcb task_kernel).remaining_quantum_time) (pos 0) ≡ true
        → (q : Place) → queue_of q (tick (idle k)) ≡ queue_of q (idle k)
    queues_yield last at_ready = rw (tick, last) refl
    queues_yield last at_suspended = rw (tick, last) refl
    queues_yield last at_sleeping = rw (tick, last) refl
    queues_yield last at_finished = rw (tick, last) refl

    queues_on :
        eqb_ℤ (decrement (k.tcb task_kernel).remaining_quantum_time) (pos 0) ≡ false
        → (q : Place) → queue_of q (tick (idle k)) ≡ queue_of q (idle k)
    queues_on more at_ready = rw (tick, more) refl
    queues_on more at_suspended = rw (tick, more) refl
    queues_on more at_sleeping = rw (tick, more) refl
    queues_on more at_finished = rw (tick, more) refl

Same-Stays : (k k' : Kernel) → Same k k' → Stays k k'
Same-Stays k k' s p i =
    rw (s.queues at_ready, s.queues at_suspended, s.queues at_sleeping, s.queues at_finished) i

-- Such a tick keeps the kernel consistent and moves no task.
pub idle_tick :
    (k : Kernel)
    → IsConsistent k
    → k.current ≡ task_kernel
    → IsConsistent (tick k) × ((tick k).current ≡ k.current) × Stays k (tick k)
idle_tick k ok back =
    let s : Same k (tick k) =
      subst (λ c. Same (record k { current = c }) (tick (record k { current = c }))) (sym back)
        (tick-Same k ok.alive) in
    (Same-IsConsistent k (tick k) back s ok, s.current, λ p i. Same-Stays k (tick k) s p i)
