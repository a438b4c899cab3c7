-- ===== src/Dispatcher/Leaving.antt =====
-- The kernel inside `task_exit`, where the current task has ended but is in no queue yet.
use mathlib.Core.Path.{subst}
use sistemas_operacionais.Base.{
  ◌≡◌, refl, sym, ap, ◌∙◌, ◌≢◌, Bool, true, false, ◌==◌, inl, inr, Bool-cases, differ, ==_iff, List,
}
use sistemas_operacionais.Base.Int.{ℤ, pos, ◌+ℤ◌, ◌-ℤ◌}
use sistemas_operacionais.Queue.View.{View, items}
use sistemas_operacionais.Queue.Members.{mem, mem-push, mem-remove-other}
use sistemas_operacionais.Kernel.{
  Ptr, null, task_kernel, running, suspended, finished, Tcb, Kernel, Place, at_ready, at_suspended,
  at_sleeping, at_finished, queue_of, set_task, quantum,
}
use sistemas_operacionais.Dispatcher.{close_task, awake, done}
use sistemas_operacionais.Dispatcher.Consistent.{
  put_self, Out, Home, Once, Home-same, IsConsistent, running-outside, Moves-IsConsistent,
}
use sistemas_operacionais.Dispatcher.Wake.{roused, awake-keeps, awake-roused, fits}

-- The kernel as if it had the processor.
abbrev pub idle : Kernel → Kernel
idle k = record k { current = task_kernel }

-- The kernel while the task `c` leaves.
pub record Leaving (c : Ptr) (k : Kernel) : Type 0 where
  pub consistent : IsConsistent (idle k)
  pub current : k.current ≡ c
  pub user : c ≢ task_kernel
  pub ordinary : c ≢ k.task_disk_handler
  pub status : (k.tcb c).status ≡ finished
  pub awake : (k.tcb c).sleeping ≡ false
  pub outside : (q : Place) → mem c (items (queue_of q k)) ≡ false

places :
    (q : Place) (c : Ptr) (t : Tcb) (k : Kernel) → queue_of q (idle (set_task c t k)) ≡ queue_of q k
places at_ready c t k = refl
places at_suspended c t k = refl
places at_sleeping c t k = refl
places at_finished c t k = refl

spots : (q : Place) (c : Ptr) (t : Tcb) (k : Kernel) → queue_of q (set_task c t k) ≡ queue_of q k
spots at_ready c t k = refl
spots at_suspended c t k = refl
spots at_sleeping c t k = refl
spots at_finished c t k = refl

apart : {b : Bool} → b ≡ true → b ≡ false → ⊥
apart h g = let e : true ≡ false = sym h ∙ g in cc

Out-false :
    (d : Ptr) (q : Place) (p : Ptr) (ps : List Ptr) → Out d q p ps → p ≢ d → mem p ps ≡ false
Out-false d at_ready p ps out ne = out
Out-false d at_suspended p ps out ne = out ne
Out-false d at_sleeping p ps out ne = out
Out-false d at_finished p ps out ne = out

-- A task that is in no queue gets other fields.
outside-IsConsistent :
    (c : Ptr) (t : Tcb) (k : Kernel)
    → IsConsistent k
    → c ≢ task_kernel
    → c ≢ k.task_disk_handler
    → k.current ≡ c
    → ((q : Place) → mem c (items (queue_of q k)) ≡ false)
    → IsConsistent (idle (set_task c t k))
outside-IsConsistent c t k ok user ordinary runs out =
    Moves-IsConsistent k (idle (set_task c t k)) c ok (record {
      user = user;
      others = λ p ne _. rw (differ p c ne);
      members = λ q p i.
          let old : mem p (items (queue_of q k)) ≡ true = rw (← places q c t k) i in
          inl (old, λ e. apart old (rw e (out q)));
      distinct = λ q. rw (places q c t k) (ok.distinct q);
      runs = λ ne. absurd (ne refl);
      alive = rw (differ task_kernel c (λ e. user (sym e))) ok.alive;
      same_handler = refl;
      awake = λ e. absurd (ordinary e);
      rests = λ e _. absurd (ordinary e);
      keeps_running = λ ne e. absurd (ne (sym runs ∙ e));
    })

abbrev pub closed : ℤ → Tcb → Tcb
closed exit_code t = record t {
  execution_time = t.execution_time +ℤ (pos quantum -ℤ t.remaining_quantum_time);
  status = finished;
  exit_code = exit_code;
}

pub close_task-Leaving :
    (exit_code : ℤ) (k : Kernel)
    → IsConsistent k
    → k.current ≢ task_kernel
    → k.current ≢ k.task_disk_handler
    → Leaving k.current (close_task exit_code k)
unfolding close_task
close_task-Leaving exit_code k ok user ordinary =
    let out = λ (q : Place).
      Out-false k.task_disk_handler q k.current (items (queue_of q k))
        (running-outside k k.current ok (ok.runs user) q) ordinary in
    let t : Tcb = closed exit_code (k.tcb k.current) in
    record {
      consistent = outside-IsConsistent k.current t k ok user ordinary refl out;
      current = refl;
      user = user;
      ordinary = ordinary;
      status = ap (λ (s : Tcb). s.status) (put_self k.tcb k.current t);
      awake = ap (λ (s : Tcb). s.sleeping) (put_self k.tcb k.current t) ∙ (ok.runs user).1;
      outside = λ q. ap (λ v. mem k.current (items v)) (spots q k.current t k) ∙ out q;
    }

idle-queue : (q : Place) (k : Kernel) → queue_of q (idle k) ≡ queue_of q k
idle-queue at_ready k = refl
idle-queue at_suspended k = refl
idle-queue at_sleeping k = refl
idle-queue at_finished k = refl

-- Two kernels that agree on the queues' tasks, and on what the queues ask of a task.
pub record Alike (k k' : Kernel) : Type 0 where
  queues : (q : Place) → items (queue_of q k') ≡ items (queue_of q k)
  status : (p : Ptr) → (k'.tcb p).status ≡ (k.tcb p).status
  sleeping : (p : Ptr) → (k'.tcb p).sleeping ≡ (k.tcb p).sleeping
  current : k'.current ≡ k.current
  handler : k'.task_disk_handler ≡ k.task_disk_handler

Alike-IsConsistent : (k k' : Kernel) → Alike k k' → IsConsistent (idle k) → IsConsistent (idle k')
Alike-IsConsistent k k' a ok = record {
  member = λ q p i.
      subst (λ d. Home d q p (k'.tcb p)) (sym a.handler)
        (Home-same k.task_disk_handler q p (k.tcb p) (k'.tcb p) (a.status p) (a.sleeping p)
          (ok.member q p (ap (mem p) (sym (whole q)) ∙ i)));
  distinct = λ q.
      subst (λ d. Once d q (items (queue_of q (idle k')))) (sym a.handler)
        (rw (whole q) (ok.distinct q));
  outside = λ q. ap (mem task_kernel) (whole q) ∙ ok.outside q;
  runs = λ ne. absurd (ne refl);
  alive = λ e. ok.alive (sym (a.status task_kernel) ∙ e);
  handler = λ e. ok.handler (sym a.handler ∙ e);
  awake =
      subst (λ d. (k'.tcb d).sleeping ≡ false) (sym a.handler)
        (a.sleeping k.task_disk_handler ∙ ok.awake);
  rests =
      subst (λ d. (k'.tcb d).status ≡ running → task_kernel ≡ d) (sym a.handler)
        (λ r. ok.rests (sym (a.status k.task_disk_handler) ∙ r));
}
  where
    whole : (q : Place) → items (queue_of q (idle k')) ≡ items (queue_of q (idle k))
    whole q = ap items (idle-queue q k') ∙ (a.queues q ∙ ap items (sym (idle-queue q k)))

pub Alike-Leaving : (c : Ptr) (k k' : Kernel) → Alike k k' → Leaving c k → Leaving c k'
Alike-Leaving c k k' a h = record {
  consistent = Alike-IsConsistent k k' a h.consistent;
  current = a.current ∙ h.current;
  user = h.user;
  ordinary = λ e. h.ordinary (e ∙ a.handler);
  status = a.status c ∙ h.status;
  awake = a.sleeping c ∙ h.awake;
  outside = λ q. ap (mem c) (a.queues q) ∙ h.outside q;
}

-- The iterator of the suspended queue moves.
abbrev pub turned : View Ptr → Kernel → Kernel
turned v k = record k { suspended_queue = v }

pub turned-Leaving :
    (c : Ptr) (v : View Ptr) (k : Kernel)
    → items v ≡ items k.suspended_queue
    → Leaving c k
    → Leaving c (turned v k)
turned-Leaving c v k e h =
    Alike-Leaving c k (turned v k)
      (record {
        queues = queues;
        status = λ p. refl;
        sleeping = λ p. refl;
        current = refl;
        handler = refl;
      })
      h
  where
    queues : (q : Place) → items (queue_of q (turned v k)) ≡ items (queue_of q k)
    queues at_ready = refl
    queues at_suspended = e
    queues at_sleeping = refl
    queues at_finished = refl

-- A task gets the exit code of the one that it waited for.
abbrev pub told : ℤ → Ptr → Kernel → Kernel
told exit_code p k = set_task p (record (k.tcb p) { target_exit_code = exit_code }) k

pub told-Alike : (exit_code : ℤ) (p : Ptr) (k : Kernel) → Alike k (told exit_code p k)
told-Alike exit_code p k = record {
  queues = queues;
  status = status;
  sleeping = sleeping;
  current = refl;
  handler = refl;
}
  where
    queues : (q : Place) → items (queue_of q (told exit_code p k)) ≡ items (queue_of q k)
    queues at_ready = refl
    queues at_suspended = refl
    queues at_sleeping = refl
    queues at_finished = refl

    status : (r : Ptr) → ((told exit_code p k).tcb r).status ≡ (k.tcb r).status
    status r = elim (Bool-cases (r == p)) [
      | inl here ↦ let e : r ≡ p = (==_iff r p).0 here in rw (here, e) refl
      | inr there ↦ rw there refl
    ]

    sleeping : (r : Ptr) → ((told exit_code p k).tcb r).sleeping ≡ (k.tcb r).sleeping
    sleeping r = elim (Bool-cases (r == p)) [
      | inl here ↦ let e : r ≡ p = (==_iff r p).0 here in rw (here, e) refl
      | inr there ↦ rw there refl
    ]

-- A waiting task of the suspended queue is woken.
pub roused-Leaving :
    (c p : Ptr) (k : Kernel)
    → p ≢ null
    → (k.tcb p).status ≡ suspended
    → mem p (items k.suspended_queue) ≡ true
    → Leaving c k
    → (awake p k ≡ done (roused false p k)) × Leaving c (roused false p k)
roused-Leaving c p k ne suspends i h = (
  awake-roused false p k ne suspends (fits false p (idle k) h.consistent i suspends).1 i,
  record {
    consistent = (awake-keeps false p (idle k) h.consistent ne suspends i).1;
    current = h.current;
    user = h.user;
    ordinary = h.ordinary;
    status = rw (differ c p other) h.status;
    awake = rw (differ c p other) h.awake;
    outside = outside;
  },
)
  where
    other : c ≢ p
    other e =
        let a : (k.tcb c).status ≡ suspended = rw e suspends in
        let b : suspended ≡ finished = sym a ∙ h.status in cc

    outside : (q : Place) → mem c (items (queue_of q (roused false p k))) ≡ false
    outside at_ready = mem-push p k.ready_queue c ∙ rw (h.outside at_ready, differ c p other) refl
    outside at_suspended =
        mem-remove-other k.task_disk_handler p k.suspended_queue c (differ c p other)
        ∙ h.outside at_suspended
    outside at_sleeping = h.outside at_sleeping
    outside at_finished = h.outside at_finished
