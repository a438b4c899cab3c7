-- ===== src/Dispatcher/Steps.antt =====
-- The operations of the dispatcher keep the invariant.
use sistemas_operacionais.Base.{
  ℕ, ◌≡◌, refl, sym, ap, ◌∙◌, ◌≢◌, true, false, arith, ◌==◌, ◌⊎◌, inl, inr, Bool-cases, [], ◌∷◌,
  ◌++◌, ==_iff, differ,
}
use sistemas_operacionais.Base.Int.{ℤ, pos, ◌+ℤ◌}
use sistemas_operacionais.Queue.View
use sistemas_operacionais.Queue.View.{View, items}
use sistemas_operacionais.Queue.Members.{mem, mem-push, items-push}
use sistemas_operacionais.Kernel.{
  Ptr, running, task_kernel, ready, suspended, finished, Tcb, Kernel, Place, at_ready, at_suspended,
  at_sleeping, at_finished, queue_of, set_queue, set_task, quantum,
}
use sistemas_operacionais.Task.{switch_to, systime}
use sistemas_operacionais.Dispatcher.{queue_add, count_kernel, yield_cpu, suspend, sleep}
use sistemas_operacionais.Dispatcher.Consistent.{
  put_self, put-put, Fits, Home, Out, Once-push, Fits-Home, old_or_spare, IsConsistent, Moves,
  running-outside, Moves-IsConsistent,
}

-- The current task gets the fields `t`, goes to the end of a queue, and the kernel goes on.
unfoldable pub park : Place → Tcb → Kernel → Kernel
park q t k =
    (switch_to task_kernel (count_kernel (queue_add q k.current (set_task k.current t k)))).1

pub queue_of-set :
    (q r : Place) (v : View Ptr) (k : Kernel)
    → (queue_of r (set_queue q v k) ≡ v) × (r ≡ q) ⊎ (queue_of r (set_queue q v k) ≡ queue_of r k)
queue_of-set at_ready at_ready v k = inl (refl, refl)
queue_of-set at_suspended at_suspended v k = inl (refl, refl)
queue_of-set at_sleeping at_sleeping v k = inl (refl, refl)
queue_of-set at_finished at_finished v k = inl (refl, refl)
queue_of-set at_ready at_suspended v k = inr refl
queue_of-set at_ready at_sleeping v k = inr refl
queue_of-set at_ready at_finished v k = inr refl
queue_of-set at_suspended at_ready v k = inr refl
queue_of-set at_suspended at_sleeping v k = inr refl
queue_of-set at_suspended at_finished v k = inr refl
queue_of-set at_sleeping at_ready v k = inr refl
queue_of-set at_sleeping at_suspended v k = inr refl
queue_of-set at_sleeping at_finished v k = inr refl
queue_of-set at_finished at_ready v k = inr refl
queue_of-set at_finished at_suspended v k = inr refl
queue_of-set at_finished at_sleeping v k = inr refl

-- The parts of a parked state.
pub record Parked (k k' : Kernel) (q : Place) (t : Tcb) : Type 0 where
  pub queues :
      (r : Place) → queue_of r k' ≡ queue_of r (set_queue q (View.push k.current (queue_of q k)) k)
  pub self : k'.tcb k.current ≡ t
  pub others : (p : Ptr) → p ≢ k.current → p ≢ task_kernel → k'.tcb p ≡ k.tcb p
  pub kernel : (k'.tcb task_kernel).status ≡ (k.tcb task_kernel).status
  pub current : k'.current ≡ task_kernel
  pub handler : k'.task_disk_handler ≡ k.task_disk_handler

pub park-Parked :
    (q : Place) (t : Tcb) (k : Kernel)
    → k.current ≢ task_kernel
    → (k.tcb task_kernel).status ≢ finished
    → Parked k (park q t k) q t
unfolding park switch_to count_kernel queue_add
park-Parked at_ready t k user alive = ground arith
park-Parked q t k user alive = ground arith

Fits-still : (q : Place) (t : Tcb) → Fits q t → t.status ≡ running → ⊥
Fits-still at_ready t f r = cc
Fits-still at_suspended t f r = cc
Fits-still at_sleeping t f r = cc
Fits-still at_finished t f r = cc

module _ (k : Kernel) (ok : IsConsistent k) (user : k.current ≢ task_kernel) where
  out : (q : Place) → Out k.task_disk_handler q k.current (items (queue_of q k))
  out = running-outside k k.current ok (ok.runs user)

  pushed :
      (q r : Place) (t : Tcb) (p : Ptr) (u : Tcb)
      → Fits q t
      → u ≡ t
      → r ≡ q
      → mem p (items (View.push k.current (queue_of q k))) ≡ true
      → ((mem p (items (queue_of r k)) ≡ true) × (p ≢ k.current))
        ⊎ ((p ≡ k.current) × Home k.task_disk_handler r k.current u)
  pushed q r t p u fits self e i = elim (Bool-cases (p == k.current)) [
    | inl here ↦ inr (
      (==_iff p k.current).0 here,
      rw (e, self) (Fits-Home k.task_disk_handler q k.current t fits),
    )
    | inr there ↦
        let old : mem p (items (queue_of q k)) ≡ true =
          ground (arith, mem-push k.current (queue_of q k) p) in
        inl (rw e old, λ z. ground arith)
  ]

  Parked-Moves :
      (q : Place) (t : Tcb) (k' : Kernel)
      → Fits q t
      → (k.current ≡ k.task_disk_handler → t.sleeping ≡ false)
      → Parked k k' q t
      → Moves k k' k.current
  Parked-Moves q t k' fits wake m = record {
    user = user;
    others = m.others;
    members = λ r p i. elim (queue_of-set q r (View.push k.current (queue_of q k)) k) [
      | inl (v, e) ↦ pushed q r t p (k'.tcb k.current) fits m.self e (rw (← v, ← m.queues r) i)
      | inr v ↦
          let old : mem p (items (queue_of r k)) ≡ true = rw (← v, ← m.queues r) i in
          old_or_spare k.task_disk_handler r p k.current (items (queue_of r k)) (k'.tcb k.current)
            (out r) old
    ];
    distinct = λ r.
        rw (m.queues r) (elim (queue_of-set q r (View.push k.current (queue_of q k)) k) [
          | inl (v, e) ↦
              rw (v, e)
                (Once-push k.task_disk_handler q k.current (queue_of q k) (ok.distinct q) (out q))
          | inr v ↦ rw v (ok.distinct r)
        ]);
    runs = λ ne. absurd (ne m.current);
    alive = λ e. ok.alive (sym m.kernel ∙ e);
    same_handler = m.handler;
    awake = λ e. ap (λ (u : Tcb). u.sleeping) m.self ∙ wake e;
    rests = λ e r. absurd (Fits-still q t fits (ap (λ (u : Tcb). u.status) (sym m.self) ∙ r));
    keeps_running = λ ne e. absurd (ne e);
  }

  by_parts :
      (q : Place) (t : Tcb) (k' : Kernel)
      → Fits q t
      → (k.current ≡ k.task_disk_handler → t.sleeping ≡ false)
      → Parked k k' q t
      → IsConsistent k'
  by_parts q t k' fits wake m =
      Moves-IsConsistent k k' k.current ok (Parked-Moves q t k' fits wake m)

-- What a task's fields are when it yields.
abbrev pub yielded : Tcb → Tcb
yielded t = record t {
  execution_time = t.execution_time +ℤ pos quantum;
  remaining_quantum_time = pos quantum;
  status = ready;
}

pub yield_cpu-park :
    (k : Kernel)
    → k.current ≢ task_kernel
    → yield_cpu k ≡ park at_ready (yielded (k.tcb k.current)) k
unfolding yield_cpu park
yield_cpu-park k user = rw (yield_cpu, differ k.current task_kernel user)

-- What a task's fields are when it goes to sleep.
abbrev pub asleep : ℤ → ℕ → Tcb → Tcb
asleep t now s = record s { sleeping = true; wake_up_time = pos now +ℤ t; status = suspended }

-- What is written to the task just before it is suspended is as if written with the status.
pub suspend-park :
    (q : Place) (s : Tcb) (k : Kernel)
    → suspend q (set_task k.current s k) ≡ park q (record s { status = suspended }) k
unfolding suspend park
suspend-park q s k = rw (
  suspend,
  put_self k.tcb k.current s,
  put-put k.tcb k.current s (record s { status = suspended }),
)

park-clock : (q : Place) (t : Tcb) (k : Kernel) → (park q t k).clock ≡ k.clock
unfolding park switch_to count_kernel queue_add
park-clock at_ready t k = ground arith
park-clock at_suspended t k = ground arith
park-clock at_sleeping t k = ground arith
park-clock at_finished t k = ground arith

pub yield_cpu-clock : (k : Kernel) → k.current ≢ task_kernel → (yield_cpu k).clock ≡ k.clock
yield_cpu-clock k user =
    rw (yield_cpu-park k user) (park-clock at_ready (yielded (k.tcb k.current)) k)

-- The suspended queue afterwards.
pub suspend-suspended :
    (k : Kernel)
    → IsConsistent k
    → k.current ≢ task_kernel
    → (suspend at_suspended k).suspended_queue ≡ View.push k.current k.suspended_queue
suspend-suspended k ok user =
    let m : Parked k (suspend at_suspended k) at_suspended
        (record (k.tcb k.current) { status = suspended }) =
      unfold suspend park in park-Parked at_suspended _ k user ok.alive in
    m.queues at_suspended

pub yield_cpu-suspended :
    (k : Kernel)
    → IsConsistent k
    → k.current ≢ task_kernel
    → (yield_cpu k).suspended_queue ≡ k.suspended_queue
yield_cpu-suspended k ok user =
    let m = park-Parked at_ready (yielded (k.tcb k.current)) k user ok.alive in
    rw (yield_cpu-park k user) (m.queues at_suspended)

pub park-IsConsistent :
    (k : Kernel) (q : Place) (s : Tcb)
    → IsConsistent k
    → k.current ≢ task_kernel
    → Fits q s
    → (k.current ≡ k.task_disk_handler → s.sleeping ≡ false)
    → IsConsistent (park q s k) × ((park q s k).current ≡ task_kernel)
park-IsConsistent k q s ok user fits wake =
    let m : Parked k (park q s k) q s = park-Parked q s k user ok.alive in
    (by_parts k ok user q s _ fits wake m, m.current)

-- What has happened when the current task has parked in a queue with the fields `t`.
pub record ParkedAt (k k' : Kernel) (q : Place) (t : Tcb) : Type 0 where
  pub consistent : IsConsistent k'
  pub current : k'.current ≡ task_kernel
  pub joined : items (queue_of q k') ≡ items (queue_of q k) ++ (k.current ∷ [])
  pub elsewhere : (r : Place) → r ≢ q → queue_of r k' ≡ queue_of r k
  pub self : k'.tcb k.current ≡ t
  pub others : (p : Ptr) → p ≢ k.current → p ≢ task_kernel → k'.tcb p ≡ k.tcb p

queue_of-push : (q : Place) (v : View Ptr) (k : Kernel) → queue_of q (set_queue q v k) ≡ v
queue_of-push at_ready v k = refl
queue_of-push at_suspended v k = refl
queue_of-push at_sleeping v k = refl
queue_of-push at_finished v k = refl

queue_of-away :
    (q r : Place) (v : View Ptr) (k : Kernel) → r ≢ q → queue_of r (set_queue q v k) ≡ queue_of r k
queue_of-away q r v k ne = elim (queue_of-set q r v k) [
  | inl (e, same) ↦ absurd (ne same)
  | inr e ↦ e
]

park-ParkedAt :
    (q : Place) (t : Tcb) (k : Kernel)
    → IsConsistent k
    → k.current ≢ task_kernel
    → Fits q t
    → (k.current ≡ k.task_disk_handler → t.sleeping ≡ false)
    → ParkedAt k (park q t k) q t
park-ParkedAt q t k ok user fits wake =
    let m : Parked k (park q t k) q t = park-Parked q t k user ok.alive in
    record {
      consistent = by_parts k ok user q t _ fits wake m;
      current = m.current;
      joined =
          ap items (m.queues q ∙ queue_of-push q (View.push k.current (queue_of q k)) k)
          ∙ items-push k.current (queue_of q k);
      elsewhere = λ r ne. m.queues r ∙ queue_of-away q r (View.push k.current (queue_of q k)) k ne;
      self = m.self;
      others = m.others;
    }

pub yield_cpu-keeps :
    (k : Kernel)
    → IsConsistent k
    → k.current ≢ task_kernel
    → ParkedAt k (yield_cpu k) at_ready (yielded (k.tcb k.current))
yield_cpu-keeps k ok user = rw (yield_cpu-park k user) (
    park-ParkedAt at_ready (yielded (k.tcb k.current)) k ok user (refl, (ok.runs user).1)
      (λ _. (ok.runs user).1))

pub suspend-keeps :
    (k : Kernel)
    → IsConsistent k
    → k.current ≢ task_kernel
    → ParkedAt k
        (suspend at_suspended k)
        at_suspended
        (record (k.tcb k.current) { status = suspended })
suspend-keeps k ok user =
    unfold suspend park in
    park-ParkedAt at_suspended (record (k.tcb k.current) { status = suspended }) k ok user
      (refl, (ok.runs user).1) (λ _. (ok.runs user).1)

pub sleep-keeps :
    (t : ℤ) (k : Kernel)
    → IsConsistent k
    → k.current ≢ task_kernel
    → k.current ≢ k.task_disk_handler
    → ParkedAt k (sleep t k) at_sleeping (asleep t k.clock (k.tcb k.current))
unfolding sleep systime
sleep-keeps t k ok user no_manager = rw (suspend-park at_sleeping _ k) (
    park-ParkedAt at_sleeping (asleep t k.clock (k.tcb k.current)) k ok user (refl, refl)
      (λ e. absurd (no_manager e)))

-- When a user task of a consistent kernel calls `task_yield`, `task_suspend` on the suspended queue
-- or, if it is not the disk manager, `task_sleep`, it is the last of the ready, the suspended or
-- the sleeping queue afterwards, with the status, the flag, the times and the quantum that the
-- call gives it; the other queues and tasks are as before, the kernel has the processor and is
-- consistent.
pub park-keeps :
    (k : Kernel) (t : ℤ)
    → IsConsistent k
    → k.current ≢ task_kernel
    → k.current ≢ k.task_disk_handler
    → ParkedAt k (yield_cpu k) at_ready (yielded (k.tcb k.current))
      × ParkedAt k
          (suspend at_suspended k)
          at_suspended
          (record (k.tcb k.current) { status = suspended })
      × ParkedAt k (sleep t k) at_sleeping (asleep t k.clock (k.tcb k.current))
park-keeps k t ok user no_manager =
    (yield_cpu-keeps k ok user, suspend-keeps k ok user, sleep-keeps t k ok user no_manager)
