-- ===== src/Dispatcher/Spawn.antt =====
-- `task_create` of kernel/task.c adds a ready task.
use sistemas_operacionais.Base.{
  ◌+◌, ◌≡◌, refl, sym, ap, ◌∙◌, ◌≢◌, true, false, ◌⊎◌, inl, inr, Bool-cases, ==_iff, arith, differ,
  ◌==◌, [], ◌∷◌, ◌++◌,
}
use sistemas_operacionais.Base.Int.{pos}
use sistemas_operacionais.Queue.View
use sistemas_operacionais.Queue.View.{items}
use sistemas_operacionais.Queue.Members.{mem, mem-push, items-push}
use sistemas_operacionais.Kernel.{
  Ptr, null, task_kernel, Tcb, Kernel, Place, at_ready, at_suspended, at_sleeping, at_finished,
  queue_of, put, ready, running, zero_tcb,
}
use sistemas_operacionais.Task.{create, spawn, systime}
use sistemas_operacionais.Dispatcher.Consistent.{
  Home, Once, Once-push, IsConsistent, Moves, Moves-IsConsistent, put_self,
}

module _ (task stack name : Ptr) (k : Kernel) where
  -- The new task's control block, and the kernel with it.
  abbrev pub block : Tcb
  block = record zero_tcb {
    name = name;
    id = k.last_id + 1;
    stack = stack;
    status = ready;
    parent = k.current;
    creation_time = k.clock;
    execution_time = pos 0;
  }

  abbrev pub grown : Kernel
  grown = record k {
    last_id = k.last_id + 1;
    tcb = put k.tcb task block;
    ready_queue = View.push task k.ready_queue;
  }

  pub create-grown : task ≢ null → stack ≢ null → create task stack name k ≡ (task, grown)
  unfolding create spawn systime
  create-grown t s = rw (create, differ task null t, differ stack null s)

  module _ (ok : IsConsistent k) (user : task ≢ task_kernel) (fresh : task ≢ k.current)
      (nowhere : (q : Place) → mem task (items (queue_of q k)) ≡ false) where
    apart : (q : Place) (p : Ptr) → mem p (items (queue_of q k)) ≡ true → p ≢ task
    apart q p i e =
        let h : mem p (items (queue_of q k)) ≡ false = rw e (nowhere q) in differ_tf (sym i ∙ h)
      where
        differ_tf : true ≡ false → ⊥
        differ_tf h = cc

    members :
        (q : Place) (p : Ptr)
        → mem p (items (queue_of q grown)) ≡ true
        → ((mem p (items (queue_of q k)) ≡ true) × (p ≢ task))
          ⊎ ((p ≡ task) × Home k.task_disk_handler q task (grown.tcb task))
    members at_ready p i = elim (Bool-cases (p == task)) [
      | inl here ↦ inr ((==_iff p task).0 here, rw (put_self k.tcb task block) (refl, refl))
      | inr there ↦
          let old : mem p (items k.ready_queue) ≡ true =
            ground (arith, mem-push task k.ready_queue p) in
          inl (old, apart at_ready p old)
    ]
    members at_suspended p i = inl (i, apart at_suspended p i)
    members at_sleeping p i = inl (i, apart at_sleeping p i)
    members at_finished p i = inl (i, apart at_finished p i)

    distinct : (q : Place) → Once k.task_disk_handler q (items (queue_of q grown))
    distinct at_ready =
        Once-push k.task_disk_handler at_ready task k.ready_queue (ok.distinct at_ready)
          (nowhere at_ready)
    distinct at_suspended = ok.distinct at_suspended
    distinct at_sleeping = ok.distinct at_sleeping
    distinct at_finished = ok.distinct at_finished

    idle_block : ready ≡ running → ⊥
    idle_block e = cc

    grown-Moves : Moves k grown task
    grown-Moves = record {
      user = user;
      others = λ p ne _. rw (differ p task ne);
      members = members;
      distinct = distinct;
      runs = λ u. rw (differ k.current task (λ e. fresh (sym e))) (ok.runs u);
      alive = rw (differ task_kernel task (λ e. user (sym e))) ok.alive;
      same_handler = refl;
      awake = λ _. rw (put_self k.tcb task block) refl;
      rests = λ _ r.
          absurd (idle_block (ap (λ (t : Tcb). t.status) (sym (put_self k.tcb task block)) ∙ r));
      keeps_running = λ _ e. e;
    }

-- In a consistent kernel `task_create` whose two allocations succeed, with a block that is in no
-- queue and is neither the kernel's nor the current task's, returns the block and keeps the kernel
-- consistent: the new task has the next id, is a child of the current task, and is the last of the
-- ready queue.
pub create-keeps :
    (task stack name : Ptr) (k : Kernel)
    → IsConsistent k
    → task ≢ null
    → stack ≢ null
    → task ≢ task_kernel
    → task ≢ k.current
    → ((q : Place) → mem task (items (queue_of q k)) ≡ false)
    → (k' : Kernel) × (create task stack name k ≡ (task, k'))
      × IsConsistent k'
      × (items k'.ready_queue ≡ items k.ready_queue ++ (task ∷ []))
      × ((k'.tcb task).id ≡ k.last_id + 1)
      × ((k'.tcb task).parent ≡ k.current)
      × (k'.last_id ≡ k.last_id + 1)
create-keeps task stack name k ok t s user fresh nowhere = (
  grown task stack name k,
  create-grown task stack name k t s,
  Moves-IsConsistent k (grown task stack name k) task ok
      (grown-Moves task stack name k ok user fresh nowhere),
  items-push task k.ready_queue,
  ap (λ (b : Tcb). b.id) (put_self k.tcb task (block task stack name k)),
  ap (λ (b : Tcb). b.parent) (put_self k.tcb task (block task stack name k)),
  refl,
)
