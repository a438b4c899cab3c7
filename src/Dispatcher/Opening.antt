-- ===== src/Dispatcher/Opening.antt =====
-- The kernel when the dispatcher of kernel/dispatcher.c has chosen its first task: behind `block_init`
-- of kernel/block.c and the `task_create` of `user_main`.
use mathlib.Core.Path.{subst}
use sistemas_operacionais.Base.{
  ℕ, ◌≡◌, refl, sym, ap, ◌∙◌, ◌≢◌, true, false, ◌==◌, inr, [], ◌∷◌, some, ◌+◌, arith, differ, same,
  ==_iff,
}
use sistemas_operacionais.Base.Int.{pos}
use sistemas_operacionais.Queue.View
use sistemas_operacionais.Queue.View.{View, items}
use sistemas_operacionais.Queue.Members.{mem, is_task, items-remove}
use sistemas_operacionais.Kernel.{
  Ptr, null, task_kernel, quantum, ready, running, finished, Tcb, Kernel, Place, at_ready,
  at_suspended, at_sleeping, at_finished, queue_of, boot,
}
use sistemas_operacionais.Task.{create, spawn}
use sistemas_operacionais.Buffer.{Bytes}
use sistemas_operacionais.Disk.{Disk, unknown}
use sistemas_operacionais.Block.{Manager, block_init, install}
use sistemas_operacionais.Block.Requests.{block_init-installed, create-spawned, made}
use sistemas_operacionais.Scheduler.{
  scheduler, schedule_items, select_loop, consider, age, precedes,
}
use sistemas_operacionais.Scheduler.Pass.{scheduler-Picked}
use sistemas_operacionais.Dispatcher.{dispatch, queue_add}
use sistemas_operacionais.Dispatcher.Consistent.{Home, Once, IsConsistent}
use sistemas_operacionais.Dispatcher.Run.{
  launched, run-launched, dispatch-run, same_status, scheduler-items, scheduler-handler,
}

-- Of two tasks with the same priority the scheduler chooses the first.
pub scheduler-first :
    (k : Kernel) (m u : Ptr)
    → items k.ready_queue ≡ m ∷ u ∷ []
    → u ≢ m
    → (k.tcb m).dynamic_priority ≡ pos 0
    → (k.tcb u).dynamic_priority ≡ pos 0
    → (scheduler k).0 ≡ some m
unfolding scheduler schedule_items View.rewind select_loop consider age precedes
scheduler-first k m u e ne pm pu =
    ap (λ xs. (schedule_items xs k).0) e
    ∙ rw (same m m, same u u, differ u m ne, pm, pu)
        (rw (differ m u (λ z. ne (sym z)), pm) (rw (same m m) refl))

-- The kernel before the choice.
pub record Ready (m u : Ptr) (k : Kernel) : Type 0 where
  pub ready_queue : items k.ready_queue ≡ m ∷ u ∷ []
  pub suspended_queue : items k.suspended_queue ≡ m ∷ []
  pub sleeping_queue : items k.sleeping_queue ≡ []
  pub finished_queue : items k.finished_queue ≡ []
  pub manager : k.task_disk_handler ≡ m
  pub manager_awake : (k.tcb m).sleeping ≡ false
  pub manager_priority : (k.tcb m).dynamic_priority ≡ pos 0
  pub user_ready : ((k.tcb u).status ≡ ready) × ((k.tcb u).sleeping ≡ false)
  pub user_priority : (k.tcb u).dynamic_priority ≡ pos 0
  pub alive : (k.tcb task_kernel).status ≢ finished

module _ (m u : Ptr) (k : Kernel) (r : Ready m u k) (manager : m ≢ null) (apart : u ≢ m)
    (no_kernel : m ≢ task_kernel) (no_kernel' : u ≢ task_kernel) where
  chosen : (scheduler k).0 ≡ some m
  chosen = scheduler-first k m u r.ready_queue apart r.manager_priority r.user_priority

  abbrev k1 : Kernel
  k1 = (scheduler k).1

  kept : (q : Place) → items (queue_of q k1) ≡ items (queue_of q k)
  kept = scheduler-items k m (u ∷ []) r.ready_queue

  status :
      (p : Ptr)
      → ((k1.tcb p).status ≡ (k.tcb p).status) × ((k1.tcb p).sleeping ≡ (k.tcb p).sleeping)
  status p =
      let (t, c, pk) =
        scheduler-Picked k m (u ∷ []) r.ready_queue
          (ground (arith, differ m u (λ z. apart (sym z))), (refl, tt)) in
      rw (pk.tasks p) (same_status (k.tcb p) (p == t) (mem p (m ∷ u ∷ [])))

  first : dispatch k ≡ launched m k1
  first =
      dispatch-run k m chosen
      ∙ run-launched m k1 manager (rw (kept at_ready, r.ready_queue, same m m) refl)

  abbrev after : Kernel
  after = launched m k1

  lists :
      (items after.ready_queue ≡ u ∷ [])
      × (items after.suspended_queue ≡ m ∷ [])
      × (items after.sleeping_queue ≡ [])
      × (items after.finished_queue ≡ [])
  lists = (
    items-remove (is_task m) k1.ready_queue
        ∙ ap (View.remove_first (is_task m)) (kept at_ready ∙ r.ready_queue)
        ∙ rw (same m m refl) refl,
    kept at_suspended ∙ r.suspended_queue,
    kept at_sleeping ∙ r.sleeping_queue,
    kept at_finished ∙ r.finished_queue,
  )

  handler : after.task_disk_handler ≡ m
  handler = scheduler-handler k m (u ∷ []) r.ready_queue ∙ r.manager

  running_task : after.tcb m ≡ record (k1.tcb m) {
    remaining_quantum_time = pos quantum;
    number_of_activations = (k1.tcb m).number_of_activations + 1;
    status = running;
  }
  running_task = rw (same m m refl) refl

  alone : (p x : Ptr) → mem p (x ∷ []) ≡ true → p ≡ x
  alone p x i = (==_iff p x).0 (ground (arith, i))

  user_after : ((after.tcb u).status ≡ ready) × ((after.tcb u).sleeping ≡ false)
  user_after = rw (differ u m apart) ((status u).0 ∙ r.user_ready.0, (status u).1 ∙ r.user_ready.1)

  member :
      (q : Place) (p : Ptr) → mem p (items (queue_of q after)) ≡ true → Home m q p (after.tcb p)
  member at_ready p i =
      let e : p ≡ u = alone p u (ap (mem p) (sym lists.0) ∙ i) in
      subst (λ z. (z.status ≡ ready) × (z.sleeping ≡ false)) (ap after.tcb (sym e)) user_after
  member at_suspended p i = inr (alone p m (ap (mem p) (sym lists.1) ∙ i))
  member at_sleeping p i = absurd (none_in (ap (mem p) (sym lists.2) ∙ i))
    where
      none_in : false ≡ true → ⊥
      none_in h = cc
  member at_finished p i = absurd (none_in (ap (mem p) (sym lists.3) ∙ i))
    where
      none_in : false ≡ true → ⊥
      none_in h = cc

  once : (q : Place) → Once m q (items (queue_of q after))
  once at_ready = rw lists.0 (refl, tt)
  once at_suspended = rw lists.1 ((λ _. refl), tt)
  once at_sleeping = rw lists.2 tt
  once at_finished = rw lists.3 tt

  outside : (q : Place) → mem task_kernel (items (queue_of q after)) ≡ false
  outside at_ready = rw (lists.0, differ task_kernel u (λ e. no_kernel' (sym e))) refl
  outside at_suspended = rw (lists.1, differ task_kernel m (λ e. no_kernel (sym e))) refl
  outside at_sleeping = rw lists.2 refl
  outside at_finished = rw lists.3 refl

  after-IsConsistent : IsConsistent after
  after-IsConsistent = record {
    member = λ q p i. subst (λ d. Home d q p (after.tcb p)) (sym handler) (member q p i);
    distinct = λ q. subst (λ d. Once d q (items (queue_of q after))) (sym handler) (once q);
    outside = outside;
    runs = λ _. rw running_task (refl, (status m).1 ∙ r.manager_awake);
    alive =
        rw (differ task_kernel m (λ e. no_kernel (sym e)))
          (λ e. r.alive (sym (status task_kernel).0 ∙ e));
    handler = λ e. no_kernel (sym handler ∙ e);
    awake =
        ap (λ d. (after.tcb d).sleeping) handler
        ∙ (ap (λ (t : Tcb). t.sleeping) running_task ∙ ((status m).1 ∙ r.manager_awake));
    rests = λ _. sym handler;
  }

  -- The first choice makes the kernel consistent.
  pub dispatch-first : IsConsistent (dispatch k)
  dispatch-first = subst IsConsistent (sym first) after-IsConsistent

-- The kernel `k` behind `block_init`, with the manager's task `m`, and `task_create` of the task `u`
-- of `user_main`.
pub record Opened (m u : Ptr) (k : Kernel) : Type 0 where
  pub name : Ptr
  pub stack : Ptr
  pub disk_name : Ptr
  pub user_stack : Ptr
  pub user_name : Ptr
  pub image : Bytes
  pub bytes : ℕ
  pub before : Manager
  pub between : Manager
  pub off : before.disk.status ≡ unknown
  pub manager : m ≢ null
  pub manager_stack : stack ≢ null
  pub manager_apart : m ≢ task_kernel
  pub user : u ≢ null
  pub user_stack_set : user_stack ≢ null
  pub user_apart : u ≢ task_kernel
  pub apart : u ≢ m
  pub starts_disk :
      block_init image bytes m stack disk_name (record before { kernel = boot name }) ≡ some between
  pub creates_user : create u user_stack user_name between.kernel ≡ (u, k)

some-same : {s t : Manager} → some s ≡ some t → s ≡ t
some-same e = cc

module _ (m u name stack disk_name user_stack user_name : Ptr) (d : Disk) (s : Manager)
    (user_apart : u ≢ task_kernel) (manager_apart : m ≢ task_kernel) (apart : u ≢ m) where
  abbrev opened : Kernel
  opened = spawn u user_stack user_name (install m d (spawn m stack disk_name (boot name)) s).kernel

  opened-Ready : Ready m u opened
  unfolding spawn install queue_add View.push
  opened-Ready = record {
    ready_queue = refl;
    suspended_queue = refl;
    sleeping_queue = refl;
    finished_queue = refl;
    manager = refl;
    manager_awake = rw (differ m u (λ e. apart (sym e)), same m m) refl;
    manager_priority = rw (differ m u (λ e. apart (sym e)), same m m) refl;
    user_ready = rw (same u u) (refl, refl);
    user_priority = rw (same u u) refl;
    alive =
        rw
          (
            differ task_kernel u (λ e. user_apart (sym e)),
            differ task_kernel m (λ e. manager_apart (sym e)),
          )
          (λ e. cc);
  }

Opened-Ready : (m u : Ptr) (k : Kernel) → Opened m u k → Ready m u k
Opened-Ready m u k o =
    let d : Disk = made o.image o.bytes o.before.disk in
    let s : Manager = record o.before { kernel = boot o.name } in
    let e : o.between ≡ install m d (spawn m o.stack o.disk_name (boot o.name)) s = some-same (
      sym o.starts_disk
      ∙ block_init-installed o.image o.bytes m o.stack o.disk_name s o.off o.manager
          o.manager_stack) in
    let f : k
        ≡ opened m u o.name o.stack o.disk_name o.user_stack o.user_name d s o.user_apart
            o.manager_apart o.apart =
      ap (λ z. z.1)
        (sym o.creates_user
          ∙ create-spawned u o.user_stack o.user_name o.between.kernel o.user o.user_stack_set)
      ∙ ap (λ (b : Manager). spawn u o.user_stack o.user_name b.kernel) e in
    subst (Ready m u) (sym f) (
      opened-Ready m u o.name o.stack o.disk_name o.user_stack o.user_name d s o.user_apart
        o.manager_apart o.apart)

-- The first choice of the dispatcher after `block_init` and the creation of the task of `user_main`
-- leaves the kernel consistent, with the disk manager's task on the processor.
pub Opened-IsConsistent :
    (m u : Ptr) (k : Kernel) → Opened m u k → IsConsistent (dispatch k) × ((dispatch k).current ≡ m)
Opened-IsConsistent m u k o =
    let r = Opened-Ready m u k o in
    (
      dispatch-first m u k r o.manager o.apart o.manager_apart o.user_apart,
      ap (λ (j : Kernel). j.current) (first m u k r o.manager o.apart o.manager_apart o.user_apart),
    )
