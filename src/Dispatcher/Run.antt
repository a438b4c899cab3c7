-- ===== src/Dispatcher/Run.antt =====
-- `task_run` and the body of the dispatcher's loop up to the switch.
use mathlib.Core.Path.{subst}
use mathlib.Core.List.{append-nil}
use sistemas_operacionais.Base.{
  ◌+◌, ◌≡◌, refl, sym, ap, ◌∙◌, ◌≢◌, Bool, true, false, not, ◌&&◌, arith, ◌==◌, if◌then◌else◌, inl,
  differ, same, List, ◌∷◌, some, ◌⊎◌, inr, Bool-cases, ==_iff,
}
use sistemas_operacionais.Base.Int.{pos, ◌≤ℤ◌}
use sistemas_operacionais.Queue.View
use sistemas_operacionais.Queue.View.{View, items}
use sistemas_operacionais.Queue.Members.{mem, Distinct, mem-remove, Distinct-remove, is_task}
use sistemas_operacionais.Kernel.{
  Ptr, null, task_kernel, running, Tcb, Kernel, quantum, Place, at_ready, at_suspended, at_sleeping,
  at_finished, queue_of, put,
}
use sistemas_operacionais.Task.{switch_to}
use sistemas_operacionais.Scheduler.{scheduler, schedule_items}
use sistemas_operacionais.Scheduler.Aging.{aged, reset}
use sistemas_operacionais.Scheduler.Pass.{Picked, scheduler-Picked}
use sistemas_operacionais.Dispatcher.{run, dispatch}
use sistemas_operacionais.Dispatcher.Consistent.{
  Runs, Home, Home-same, Once, IsConsistent, Moves, ne_kernel, Moves-IsConsistent,
}
use sistemas_operacionais.Dispatcher.Wake.{spare, queue_del-found}
use sistemas_operacionais.Dispatcher.Present.{queued, present}

-- The kernel when the task has left the ready queue and has the processor and a whole quantum.
abbrev pub launched : Ptr → Kernel → Kernel
launched p k = record k {
  tcb = put k.tcb p (record (k.tcb p) {
    remaining_quantum_time = pos quantum;
    number_of_activations = (k.tcb p).number_of_activations + 1;
    status = running;
  });
  ready_queue = View.remove (is_task p) k.ready_queue;
  current = p;
}

pub run-launched :
    (p : Ptr) (k : Kernel) → p ≢ null → mem p (items k.ready_queue) ≡ true → run p k ≡ launched p k
unfolding run switch_to
run-launched p k ne i = rw (
  run,
  queue_del-found at_ready p k i,
  ap (λ r. r.1) (queue_del-found at_ready p k i),
  differ p null ne,
  same p p,
)

module _ (p : Ptr) (k : Kernel) (ok : IsConsistent k) (i : mem p (items k.ready_queue) ≡ true)
    (kernel : k.current ≡ task_kernel) where
  Stays : Place → Ptr → Type 0
  Stays q r = (mem r (items (queue_of q k)) ≡ true) × (r ≢ p)

  abbrev task : Tcb
  task = (launched p k).tcb p

  placed :
      (q : Place) (r : Ptr)
      → at_ready ≢ q
      → mem r (items (queue_of q k)) ≡ true
      → Stays q r ⊎ ((r ≡ p) × Home k.task_disk_handler q p task)
  unfolding Stays
  placed q r ne j = elim (Bool-cases (r == p)) [
    | inl here ↦
        let e : r ≡ p = (==_iff r p).0 here in
        inr (
          e,
          spare at_ready q k.task_disk_handler p (k.tcb p) task ne (ok.member at_ready p i)
              (ok.member q p (ap (λ z. mem z (items (queue_of q k))) (sym e) ∙ j)),
        )
    | inr there ↦ inl (j, λ e. ground arith)
  ]

  stay :
      (q : Place) (r : Ptr)
      → mem r (items (queue_of q (launched p k))) ≡ true
      → Stays q r ⊎ ((r ≡ p) × Home k.task_disk_handler q p task)
  unfolding Stays
  stay at_ready r j =
      let e : (mem r (items k.ready_queue) && not (r == p)) ≡ true =
        sym (mem-remove p k.ready_queue (ok.distinct at_ready) r) ∙ j in
      inl (ground arith, λ h. ground arith)
  stay at_suspended r j = placed at_suspended r (λ e. cc) j
  stay at_sleeping r j = placed at_sleeping r (λ e. cc) j
  stay at_finished r j = placed at_finished r (λ e. cc) j

  distinct : (q : Place) → Once k.task_disk_handler q (items (queue_of q (launched p k)))
  distinct at_ready = Distinct-remove p k.ready_queue (ok.distinct at_ready)
  distinct at_suspended = ok.distinct at_suspended
  distinct at_sleeping = ok.distinct at_sleeping
  distinct at_finished = ok.distinct at_finished

  launched-Moves : Moves k (launched p k) p
  unfolding Stays
  launched-Moves =
      let user : p ≢ task_kernel = ne_kernel k p at_ready ok i in
      record {
        user = user;
        others = λ r ne no. rw (differ r p ne);
        members = stay;
        distinct = distinct;
        runs = λ u. rw (same p p) (refl, (ok.member at_ready p i).1);
        alive = rw (differ task_kernel p (λ e. user (sym e))) ok.alive;
        same_handler = refl;
        awake = λ _. rw (same p p) (ok.member at_ready p i).1;
        rests = λ _ _. refl;
        keeps_running = λ _ e. absurd (ok.handler (sym e ∙ kernel));
      }

launched-present :
    (c : Ptr) (k : Kernel)
    → Distinct (items k.ready_queue)
    → (p : Ptr) → queued p k ≡ true
    → present p (launched c k) ≡ true
launched-present c k d p i = ground (arith, mem-remove c k.ready_queue d p)

-- In a consistent kernel that has the processor, `task_run` on a ready task, not NULL, leaves the kernel consistent with
-- that task on the processor, out of the ready queue and with a whole quantum.
pub run-keeps :
    (p : Ptr) (k : Kernel)
    → IsConsistent k
    → p ≢ null
    → k.current ≡ task_kernel
    → mem p (items k.ready_queue) ≡ true
    → IsConsistent (run p k)
      × ((run p k).current ≡ p)
      × (((run p k).tcb p).remaining_quantum_time ≡ pos quantum)
      × (mem p (items (run p k).ready_queue) ≡ false)
run-keeps p k ok ne kernel i = rw (run-launched p k ne i) (
  Moves-IsConsistent k (launched p k) p ok (launched-Moves p k ok i kernel),
  refl,
  rw (same p p),
  rw (mem-remove p k.ready_queue (ok.distinct at_ready) p, same p p) (ground arith),
)

pub scheduler-items :
    (k : Kernel) (x : Ptr) (xs : List Ptr)
    → items k.ready_queue ≡ x ∷ xs
    → (q : Place) → items (queue_of q (scheduler k).1) ≡ items (queue_of q k)
unfolding scheduler schedule_items
scheduler-items k x xs e at_ready = append-nil (items k.ready_queue)
scheduler-items k x xs e at_suspended = rw e refl
scheduler-items k x xs e at_sleeping = rw e refl
scheduler-items k x xs e at_finished = rw e refl

pub scheduler-handler :
    (k : Kernel) (x : Ptr) (xs : List Ptr)
    → items k.ready_queue ≡ x ∷ xs
    → (scheduler k).1.task_disk_handler ≡ k.task_disk_handler
unfolding scheduler schedule_items
scheduler-handler k x xs e = rw e refl

-- The scheduler's changes to a task keep what its place asks of it.
pub same_status :
    (t : Tcb) (b c : Bool)
    → ((if b then reset t else if c then aged t else t).status ≡ t.status)
      × ((if b then reset t else if c then aged t else t).sleeping ≡ t.sleeping)
same_status t true c = (refl, refl)
same_status t false true = (refl, refl)
same_status t false false = (refl, refl)

scheduler-keeps :
    (k k' : Kernel) (xs : List Ptr) (t : Ptr)
    → IsConsistent k
    → Picked k k' xs t
    → ((q : Place) → items (queue_of q k') ≡ items (queue_of q k))
    → k'.task_disk_handler ≡ k.task_disk_handler
    → IsConsistent k'
scheduler-keeps k k' xs t ok m kept handler = record {
  member = λ q p i.
      subst (λ d. Home d q p (k'.tcb p)) (sym handler)
        (Home-same k.task_disk_handler q p (k.tcb p) (k'.tcb p) (status p) (flag p)
          (ok.member q p (rw (← kept q) i)));
  distinct = λ q.
      subst (λ d. Once d q (items (queue_of q k'))) (sym handler) (rw (kept q) (ok.distinct q));
  outside = λ q. rw (kept q) (ok.outside q);
  runs = λ u.
      let r : Runs (k.tcb k.current) = ok.runs (λ e. u (m.same_current ∙ e)) in
      rw m.same_current (status k.current ∙ r.0, flag k.current ∙ r.1);
  alive = λ e. ok.alive (sym (status task_kernel) ∙ e);
  handler = λ e. ok.handler (sym handler ∙ e);
  awake =
      subst (λ d. (k'.tcb d).sleeping ≡ false) (sym handler) (flag k.task_disk_handler ∙ ok.awake);
  rests =
      subst (λ d. (k'.tcb d).status ≡ running → k'.current ≡ d) (sym handler)
        (λ r. m.same_current ∙ ok.rests (sym (status k.task_disk_handler) ∙ r));
}
  where
    status : (p : Ptr) → (k'.tcb p).status ≡ (k.tcb p).status
    status p = rw (m.tasks p) (same_status (k.tcb p) (p == t) (mem p xs)).0

    flag : (p : Ptr) → (k'.tcb p).sleeping ≡ (k.tcb p).sleeping
    flag p = rw (m.tasks p) (same_status (k.tcb p) (p == t) (mem p xs)).1

pub dispatch-run :
    (k : Kernel) (t : Ptr) → (scheduler k).0 ≡ some t → dispatch k ≡ run t (scheduler k).1
unfolding dispatch
dispatch-run k t chosen = rw (dispatch, chosen)

-- The kernel `k'` that the choice of `c` from the ready tasks `xs` of `k` leads to.
pub record Dispatched (k k' : Kernel) (xs : List Ptr) (c : Ptr) : Type 0 where
  pub consistent : IsConsistent k'
  pub current : k'.current ≡ c
  pub from : mem c xs ≡ true
  pub least : (q : Ptr) → mem q xs ≡ true → (k.tcb c).dynamic_priority ≤ℤ (k.tcb q).dynamic_priority
  pub suspended : items k'.suspended_queue ≡ items k.suspended_queue
  pub whole : (k'.tcb c).remaining_quantum_time ≡ pos quantum
  pub left : mem c (items k'.ready_queue) ≡ false
  pub stays : (p : Ptr) → queued p k ≡ true → present p k' ≡ true

-- In a consistent kernel that has the processor, with a ready task and NULL not among them, the dispatcher's choice and
-- `task_run` leave the kernel consistent, and the processor with a ready task whose dynamic
-- priority was least, which has a whole quantum and is no longer in the ready queue.
pub dispatch-keeps :
    (k : Kernel) (x : Ptr) (xs : List Ptr)
    → IsConsistent k
    → k.current ≡ task_kernel
    → items k.ready_queue ≡ x ∷ xs
    → mem null (x ∷ xs) ≡ false
    → (c : Ptr) × Dispatched k (dispatch k) (x ∷ xs) c
dispatch-keeps k x xs ok kernel e no_null =
    let (t, chosen, m) = scheduler-Picked k x xs e (subst Distinct e (ok.distinct at_ready)) in
    let kept = scheduler-items k x xs e in
    let i : mem t (items (scheduler k).1.ready_queue) ≡ true = rw (kept at_ready, e) m.ready in
    let ne : t ≢ null = λ h. true_ne (sym m.ready ∙ (ap (λ p. mem p (x ∷ xs)) h ∙ no_null)) in
    let (ok', current, whole, out) =
      run-keeps t (scheduler k).1
        (scheduler-keeps k (scheduler k).1 (x ∷ xs) t ok m kept (scheduler-handler k x xs e)) ne
        (m.same_current ∙ kernel) i in
    rw (dispatch-run k t chosen) (
      t,
      record {
        consistent = ok';
        current = current;
        from = m.ready;
        least = m.least;
        suspended =
            ap (λ (j : Kernel). items j.suspended_queue) (run-launched t (scheduler k).1 ne i)
            ∙ kept at_suspended;
        whole = whole;
        left = out;
        stays = λ p j.
            let j' : queued p (scheduler k).1 ≡ true =
              rw (kept at_ready, kept at_suspended, kept at_sleeping, kept at_finished) j in
            subst (λ (l : Kernel). present p l ≡ true) (sym (run-launched t (scheduler k).1 ne i))
              (launched-present t (scheduler k).1 (rw (kept at_ready) (ok.distinct at_ready)) p j');
      },
    )
  where
    true_ne : true ≡ false → ⊥
    true_ne h = cc
