-- ===== src/Dispatcher/Exit.antt =====
-- `task_exit` as a whole.
use mathlib.Core.Path.{subst}
use sistemas_operacionais.Base.{
  ◌+◌, ◌<◌, ◌≡◌, refl, sym, ap, ◌∙◌, ◌≢◌, Bool, true, false, arith, ◌==◌, ◌⊎◌, inl, inr, Bool-cases,
  differ, same, ==_iff, length, fun_ext,
}
use sistemas_operacionais.Base.Int.{ℤ}
use sistemas_operacionais.Queue.View
use sistemas_operacionais.Queue.View.{View, items, view}
use sistemas_operacionais.Queue.Members.{mem, items-rewind, Distinct-push, mem-push}
use sistemas_operacionais.Kernel.{
  Ptr, task_kernel, finished, Tcb, Kernel, Place, at_ready, at_suspended, at_sleeping, at_finished,
  queue_of, put,
}
use sistemas_operacionais.Task.{switch_to}
use sistemas_operacionais.Dispatcher.{
  close_task, wake_loop, done, task_of, queue_head, queue_size, queue_add, count_kernel, then_do,
  exit,
}
use sistemas_operacionais.Dispatcher.Consistent.{Home, Once, IsConsistent, Moves-IsConsistent}
use sistemas_operacionais.Dispatcher.Steps.{park, Parked, park-Parked}
use sistemas_operacionais.Dispatcher.Leaving.{
  idle, Leaving, close_task-Leaving, turned, turned-Leaving,
}
use sistemas_operacionais.Dispatcher.WakeLoop.{Ended, wake_loop-Ended}
use sistemas_operacionais.Dispatcher.Present.{queued, present, park-present}

-- What `task_exit` does behind its loop.
pub finish : Kernel → Kernel
unfolding queue_add count_kernel switch_to
finish k = (switch_to task_kernel (count_kernel (queue_add at_finished k.current k))).1

put_same : (f : Ptr → Tcb) (c : Ptr) → put f c (f c) ≡ f
put_same f c = fun_ext λ p. elim (Bool-cases (p == c)) [
  | inl here ↦ rw here (ap f (sym ((==_iff p c).0 here)))
  | inr there ↦ rw there refl
]

pub finish-park : (k : Kernel) → finish k ≡ park at_finished (k.tcb k.current) k
unfolding finish park
finish-park k =
    ap
      (λ (f : Ptr → Tcb).
        (switch_to task_kernel
          (count_kernel (queue_add at_finished k.current (record k { tcb = f })))).1)
      (sym (put_same k.tcb k.current))

apart : {b : Bool} → b ≡ true → b ≡ false → ⊥
apart h g = let e : true ≡ false = sym h ∙ g in cc

module _ (k k' : Kernel) (h : Leaving k.current k)
    (m : Parked k k' at_finished (k.tcb k.current)) where
  stays : (q : Place) (p : Ptr) → mem p (items (queue_of q k)) ≡ true → p ≢ k.current
  stays q p i e = apart i (rw e (h.outside q))

  members :
      (q : Place) (p : Ptr)
      → mem p (items (queue_of q k')) ≡ true
      → ((mem p (items (queue_of q (idle k))) ≡ true) × (p ≢ k.current))
        ⊎ ((p ≡ k.current) × Home k.task_disk_handler q k.current (k'.tcb k.current))
  members at_ready p i =
      let old : mem p (items k.ready_queue) ≡ true = rw (← m.queues at_ready) i in
      inl (old, stays at_ready p old)
  members at_suspended p i =
      let old : mem p (items k.suspended_queue) ≡ true = rw (← m.queues at_suspended) i in
      inl (old, stays at_suspended p old)
  members at_sleeping p i =
      let old : mem p (items k.sleeping_queue) ≡ true = rw (← m.queues at_sleeping) i in
      inl (old, stays at_sleeping p old)
  members at_finished p i =
      let j : mem p (items (View.push k.current k.finished_queue)) ≡ true =
        rw (← m.queues at_finished) i in
      elim (Bool-cases (p == k.current)) [
        | inl here ↦ inr ((==_iff p k.current).0 here, rw m.self (h.status, h.awake))
        | inr there ↦
            let old : mem p (items k.finished_queue) ≡ true =
              ground (arith, mem-push k.current k.finished_queue p) in
            inl (old, stays at_finished p old)
      ]

  distinct : (q : Place) → Once k.task_disk_handler q (items (queue_of q k'))
  distinct at_ready = rw (m.queues at_ready) (h.consistent.distinct at_ready)
  distinct at_suspended = rw (m.queues at_suspended) (h.consistent.distinct at_suspended)
  distinct at_sleeping = rw (m.queues at_sleeping) (h.consistent.distinct at_sleeping)
  distinct at_finished = rw (m.queues at_finished) (
      Distinct-push k.current k.finished_queue (h.consistent.distinct at_finished)
        (h.outside at_finished))

  parked-IsConsistent : IsConsistent k'
  parked-IsConsistent = Moves-IsConsistent (idle k) k' k.current h.consistent (record {
    user = h.user;
    others = m.others;
    members = members;
    distinct = distinct;
    runs = λ ne. absurd (ne m.current);
    alive = λ e. h.consistent.alive (sym m.kernel ∙ e);
    same_handler = m.handler;
    awake = λ e. absurd (h.ordinary e);
    rests = λ e _. absurd (h.ordinary e);
    keeps_running = λ ne e. absurd (h.consistent.handler (sym e));
  })

  in_finished : mem k.current (items k'.finished_queue) ≡ true
  in_finished =
      ap (λ v. mem k.current (items v)) (m.queues at_finished)
      ∙ (mem-push k.current k.finished_queue k.current
          ∙ rw (h.outside at_finished, same k.current k.current) refl)

-- What the end of `task_exit` promises.
record Exited (c : Ptr) (k : Kernel) : Type 0 where
  consistent : IsConsistent k
  current : k.current ≡ task_kernel
  finished_queue : mem c (items k.finished_queue) ≡ true
  status : (k.tcb c).status ≡ finished

finish-Exited : (k : Kernel) → Leaving k.current k → Exited k.current (finish k)
finish-Exited k h =
    let m : Parked k (park at_finished (k.tcb k.current) k) at_finished (k.tcb k.current) =
      park-Parked at_finished (k.tcb k.current) k h.user h.consistent.alive in
    rw (finish-park k) (record {
      consistent = parked-IsConsistent k _ h m;
      current = m.current;
      finished_queue = in_finished k _ h m;
      status = ap (λ (t : Tcb). t.status) m.self ∙ h.status;
    })

exit-run :
    (exit_code : ℤ) (k : Kernel)
    → k.current ≢ task_kernel
    → exit exit_code k
      ≡ then_do
          (wake_loop
            (length (items k.suspended_queue) + 1)
            exit_code
            (task_of (View.current (View.rewind k.suspended_queue)))
            (turned (View.rewind k.suspended_queue) (close_task exit_code k)))
          (λ k3. done (finish k3))
unfolding exit queue_head queue_size close_task View.rewind View.count finish
exit-run exit_code k user = rw (exit, differ k.current task_kernel user) refl

rewound-items :
    (exit_code : ℤ) (k : Kernel)
    → items (View.rewind k.suspended_queue) ≡ items (close_task exit_code k).suspended_queue
unfolding close_task
rewound-items exit_code k = items-rewind k.suspended_queue

pub rewound-enough :
    (k : Kernel)
    → length (View.rewind k.suspended_queue).after < length (items k.suspended_queue) + 1
unfolding View.rewind
rewound-enough k = omega arith

-- The loop of `task_exit`, where it begins.
abbrev pub begun : ℤ → Kernel → Kernel
begun exit_code k = turned (View.rewind k.suspended_queue) (close_task exit_code k)

module _ (exit_code : ℤ) (k : Kernel) (ok : IsConsistent k) (user : k.current ≢ task_kernel)
    (ordinary : k.current ≢ k.task_disk_handler) where
  pub begun-Leaving : Leaving k.current (begun exit_code k)
  begun-Leaving =
      turned-Leaving k.current (View.rewind k.suspended_queue) (close_task exit_code k)
        (rewound-items exit_code k) (close_task-Leaving exit_code k ok user ordinary)

  pub exit-Ended : Ended exit_code k.current (begun exit_code k) (
      wake_loop
        (length (items k.suspended_queue) + 1)
        exit_code
        (task_of (View.current (View.rewind k.suspended_queue)))
        (begun exit_code k))
  exit-Ended =
      wake_loop-Ended (length (items k.suspended_queue) + 1) exit_code k.current (begun exit_code k)
        (rewound-enough k) (begun-Leaving)

  pub exit-finish : exit exit_code k ≡ done (finish exit-Ended.last)
  exit-finish =
      exit-run exit_code k user ∙ ap (λ o. then_do o (λ k3. done (finish k3))) exit-Ended.ends

  begun-queued : (p : Ptr) → queued p (begun exit_code k) ≡ queued p k
  unfolding close_task View.rewind
  begun-queued p = refl

  finish-present : (p : Ptr) → present p k ≡ true → present p (finish exit-Ended.last) ≡ true
  finish-present p i =
      let here = exit-Ended.leaving.current in
      let there : present p exit-Ended.last ≡ true =
        ground (arith, exit-Ended.stays p, begun-queued p, here) in
      subst (λ (l : Kernel). present p l ≡ true) (sym (finish-park exit-Ended.last))
        (park-present at_finished (exit-Ended.last.tcb exit-Ended.last.current) exit-Ended.last
          (λ e. user (sym here ∙ e)) exit-Ended.leaving.consistent.alive p there)

  -- A task in a queue, or the one that exits, is in a queue afterwards.
  pub exit-present :
      (k' : Kernel) × (exit exit_code k ≡ done k')
      × ((p : Ptr) → present p k ≡ true → present p k' ≡ true)
  exit-present = (finish exit-Ended.last, exit-finish, finish-present)

-- `task_exit` by a user task of a consistent kernel, not the disk manager's, comes to its end, whatever tasks wait for it:
-- its loop over the suspended queue ends and no assertion of `task_awake` fails; the kernel is
-- consistent afterwards and has the processor, and the task has ended and is in the finished queue.
pub exit-keeps :
    (exit_code : ℤ) (k : Kernel)
    → IsConsistent k
    → k.current ≢ task_kernel
    → k.current ≢ k.task_disk_handler
    → (k' : Kernel) × (exit exit_code k ≡ done k')
      × IsConsistent k'
      × (k'.current ≡ task_kernel)
      × (mem k.current (items k'.finished_queue) ≡ true)
      × ((k'.tcb k.current).status ≡ finished)
exit-keeps exit_code k ok user ordinary =
    let t = exit-Ended exit_code k ok user ordinary in
    let x : Exited k.current (finish t.last) = at_end k.current t.last t.leaving in
    (
      finish t.last,
      exit-finish exit_code k ok user ordinary,
      x.consistent,
      x.current,
      x.finished_queue,
      x.status,
    )
  where
    at_end : (c : Ptr) (k : Kernel) → Leaving c k → Exited c (finish k)
    at_end c k h =
        subst (λ z. Exited z (finish k)) h.current
          (finish-Exited k (subst (λ z. Leaving z k) (sym h.current) h))
