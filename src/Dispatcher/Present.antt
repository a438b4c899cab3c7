-- ===== src/Dispatcher/Present.antt =====
-- Where a task is: in a queue of the kernel, or on the processor.
use sistemas_operacionais.Base.{
  ◌≡◌, refl, ◌≢◌, Bool, true, false, ◌||◌, arith, ◌==◌, Bool-cases, inl, inr,
}
use sistemas_operacionais.Queue.View
use sistemas_operacionais.Queue.View.{View, items}
use sistemas_operacionais.Queue.Members.{mem, mem-push, mem-remove-other}
use sistemas_operacionais.Kernel.{
  Ptr, task_kernel, finished, Tcb, Kernel, Place, at_ready, at_suspended, at_sleeping, at_finished,
  queue_of, set_queue,
}
use sistemas_operacionais.Dispatcher.Steps.{park, Parked, park-Parked}
use sistemas_operacionais.Dispatcher.Wake.{roused}

-- The task is in one of the four queues.
abbrev pub queued : Ptr → Kernel → Bool
queued p k =
    mem p (items k.ready_queue)
    || (mem p (items k.suspended_queue)
        || (mem p (items k.sleeping_queue) || mem p (items k.finished_queue)))

abbrev pub present : Ptr → Kernel → Bool
present p k = queued p k || (p == k.current)

-- No task leaves the queues as a whole.
abbrev pub Stays : Kernel → Kernel → Type 0
Stays k k' = (p : Ptr) → queued p k ≡ true → queued p k' ≡ true

pub roused-Stays : (s : Bool) (p : Ptr) (k : Kernel) → Stays k (roused s p k)
roused-Stays true p k r i = elim (Bool-cases (r == p)) [
  | inl here ↦ ground (arith, mem-push p k.ready_queue r)
  | inr away ↦
      ground (arith, mem-push p k.ready_queue r, mem-remove-other 0 p k.sleeping_queue r away)
]
roused-Stays false p k r i = elim (Bool-cases (r == p)) [
  | inl here ↦ ground (arith, mem-push p k.ready_queue r)
  | inr away ↦
      ground (arith, mem-push p k.ready_queue r, mem-remove-other 0 p k.suspended_queue r away)
]

-- The task that parks is in the queue that it goes to.
pub Parked-present :
    (q : Place) (t : Tcb) (k k' : Kernel)
    → Parked k k' q t
    → (p : Ptr) → present p k ≡ true
    → queued p k' ≡ true
Parked-present q t k k' m p i =
    rw (m.queues at_ready, m.queues at_suspended, m.queues at_sleeping, m.queues at_finished)
      (into q)
  where
    into : (q : Place) → queued p (set_queue q (View.push k.current (queue_of q k)) k) ≡ true
    into at_ready = ground (arith, mem-push k.current k.ready_queue p)
    into at_suspended = ground (arith, mem-push k.current k.suspended_queue p)
    into at_sleeping = ground (arith, mem-push k.current k.sleeping_queue p)
    into at_finished = ground (arith, mem-push k.current k.finished_queue p)

pub park-present :
    (q : Place) (t : Tcb) (k : Kernel)
    → k.current ≢ task_kernel
    → (k.tcb task_kernel).status ≢ finished
    → (p : Ptr) → present p k ≡ true
    → present p (park q t k) ≡ true
park-present q t k user alive p i =
    let j : queued p (park q t k) ≡ true =
      Parked-present q t k (park q t k) (park-Parked q t k user alive) p i in
    rw j refl
