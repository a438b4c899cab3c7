-- ===== src/Dispatcher/Wake.antt =====
-- `task_awake` moves a waiting task to the ready queue.
use sistemas_operacionais.Base.{
  ◌≡◌, refl, sym, ap, ◌∙◌, ◌≢◌, Bool, true, false, not, ◌&&◌, arith, ◌==◌, if◌then◌else◌, ◌⊎◌, inl,
  inr, Bool-cases, ==_iff, differ, same, [], ◌∷◌, ◌++◌,
}
use sistemas_operacionais.Queue.View
use sistemas_operacionais.Queue.View.{View, items}
use sistemas_operacionais.Queue.Members.{
  mem, Distinct, mem-push, Distinct-push, mem-remove, Distinct-remove, any-mem, is_task, items-push,
  Single, Single-remove, remove-gone, mem-remove-other, items-remove,
}
use sistemas_operacionais.Queue.{no_error}
use sistemas_operacionais.Kernel.{
  Ptr, null, task_kernel, ready, running, suspended, Tcb, Kernel, Place, at_ready, at_suspended,
  at_sleeping, at_finished, queue_of, set_queue, put,
}
use sistemas_operacionais.Dispatcher.{queue_add, queue_del, awake, leave_queue, done}
use sistemas_operacionais.Dispatcher.Consistent.{
  put_self, put-put, Fits, Home, Once, IsConsistent, Moves, ne_kernel, Moves-IsConsistent,
}

-- The queue in which a task waits, by its `sleeping` flag.
abbrev pub waits : Bool → Place
waits true = at_sleeping
waits false = at_suspended

-- The kernel when the task has left that queue, is ready, and is the last of the ready queue.
abbrev pub roused : Bool → Ptr → Kernel → Kernel
roused s p k = record k {
  tcb = put k.tcb p (record (k.tcb p) { status = ready; sleeping = false });
  ready_queue = View.push p k.ready_queue;
  suspended_queue = if s then k.suspended_queue else View.remove (is_task p) k.suspended_queue;
  sleeping_queue = if s then View.remove (is_task p) k.sleeping_queue else k.sleeping_queue;
}

Fits-waits : (s : Bool) (t : Tcb) → (t.status ≡ suspended) × (t.sleeping ≡ s) → Fits (waits s) t
Fits-waits true t f = f
Fits-waits false t f = f

-- A task is in one queue only.
pub elsewhere : (q r : Place) (t : Tcb) → q ≢ r → Fits q t → Fits r t → ⊥
elsewhere at_ready at_ready t ne f g = ne refl
elsewhere at_suspended at_suspended t ne f g = ne refl
elsewhere at_sleeping at_sleeping t ne f g = ne refl
elsewhere at_finished at_finished t ne f g = ne refl
elsewhere at_ready at_suspended t ne f g = cc
elsewhere at_ready at_sleeping t ne f g = cc
elsewhere at_ready at_finished t ne f g = cc
elsewhere at_suspended at_ready t ne f g = cc
elsewhere at_suspended at_sleeping t ne f g = cc
elsewhere at_suspended at_finished t ne f g = cc
elsewhere at_sleeping at_ready t ne f g = cc
elsewhere at_sleeping at_suspended t ne f g = cc
elsewhere at_sleeping at_finished t ne f g = cc
elsewhere at_finished at_ready t ne f g = cc
elsewhere at_finished at_suspended t ne f g = cc
elsewhere at_finished at_sleeping t ne f g = cc

away_sleeping : (s : Bool) → s ≡ false → waits s ≢ at_sleeping
away_sleeping true e h = cc
away_sleeping false e h = cc

away_suspended : (s : Bool) → s ≡ true → waits s ≢ at_suspended
away_suspended true e h = cc
away_suspended false e h = cc

away_ready : (s : Bool) → waits s ≢ at_ready
away_ready true h = cc
away_ready false h = cc

away_finished : (s : Bool) → waits s ≢ at_finished
away_finished true h = cc
away_finished false h = cc

-- A task of one queue is in another only as the manager's task in the suspended queue.
pub spare : (q r : Place) (d p : Ptr) (t u : Tcb) → q ≢ r → Fits q t → Home d r p t → Home d r p u
spare q at_ready d p t u ne f h = absurd (elsewhere q at_ready t ne f h)
spare q at_suspended d p t u ne f (inl h) = absurd (elsewhere q at_suspended t ne f h)
spare q at_suspended d p t u ne f (inr e) = inr e
spare q at_sleeping d p t u ne f h = absurd (elsewhere q at_sleeping t ne f h)
spare q at_finished d p t u ne f h = absurd (elsewhere q at_finished t ne f h)

-- The flag of a suspended task in one of the two queues.
waiting_flag :
    (s : Bool) (p : Ptr) (k : Kernel)
    → IsConsistent k
    → mem p (items (queue_of (waits s) k)) ≡ true
    → (k.tcb p).sleeping ≡ s
waiting_flag true p k ok i = (ok.member at_sleeping p i).1
waiting_flag false p k ok i = flag (ok.member at_suspended p i)
  where
    flag : Home k.task_disk_handler at_suspended p (k.tcb p) → (k.tcb p).sleeping ≡ false
    flag (inl f) = f.1
    flag (inr e) = ap (λ z. (k.tcb z).sleeping) e ∙ ok.awake

module _ (s : Bool) (p : Ptr) (k : Kernel) (ok : IsConsistent k) where
  module _ (i : mem p (items (queue_of (waits s) k)) ≡ true)
      (suspends : (k.tcb p).status ≡ suspended) where
    pub fits : ((k.tcb p).status ≡ suspended) × ((k.tcb p).sleeping ≡ s)
    fits = (suspends, waiting_flag s p k ok i)

    there : Fits (waits s) (k.tcb p)
    there = Fits-waits s (k.tcb p) fits

    self : Fits at_ready ((roused s p k).tcb p)
    self = rw (same p p) (refl, refl)

    abbrev Moved : Place → Ptr → Type 0
    Moved q r =
        ((mem r (items (queue_of q k)) ≡ true) × (r ≢ p))
        ⊎ ((r ≡ p) × Home k.task_disk_handler q p ((roused s p k).tcb p))

    kept : (q : Place) (r : Ptr) → waits s ≢ q → mem r (items (queue_of q k)) ≡ true → Moved q r
    kept q r ne j = elim (Bool-cases (r == p)) [
      | inl here ↦
          let e : r ≡ p = (==_iff r p).0 here in
          inr (
            e,
            spare (waits s) q k.task_disk_handler p (k.tcb p) ((roused s p k).tcb p) ne there
                (ok.member q p (ap (λ z. mem z (items (queue_of q k))) (sym e) ∙ j)),
          )
      | inr there ↦ inl (j, λ e. ground arith)
    ]

    left_sleeping :
        (r : Ptr)
        → mem r (items (View.remove (is_task p) k.sleeping_queue)) ≡ true
        → Moved at_sleeping r
    left_sleeping r j =
        let e : (mem r (items k.sleeping_queue) && not (r == p)) ≡ true =
          sym (mem-remove p k.sleeping_queue (ok.distinct at_sleeping) r) ∙ j in
        inl (ground arith, λ h. ground arith)

    left_suspended :
        (r : Ptr)
        → mem r (items (View.remove (is_task p) k.suspended_queue)) ≡ true
        → Moved at_suspended r
    left_suspended r j = elim (Bool-cases (r == p)) [
      | inr away ↦ inl (
        sym (mem-remove-other k.task_disk_handler p k.suspended_queue r away) ∙ j,
        λ e. ground arith,
      )
      | inl here ↦
          let e : r ≡ p = (==_iff r p).0 here in
          elim (Bool-cases (p == k.task_disk_handler)) [
            | inl manager ↦ inr (e, inr ((==_iff p k.task_disk_handler).0 manager))
            | inr other ↦
                let gone : mem p (items (View.remove (is_task p) k.suspended_queue)) ≡ false =
                  remove-gone k.task_disk_handler p k.suspended_queue (ok.distinct at_suspended)
                    (λ z. ground arith) in
                let still : mem p (items (View.remove (is_task p) k.suspended_queue)) ≡ true =
                  ap (λ z. mem z (items (View.remove (is_task p) k.suspended_queue))) (sym e) ∙ j in
                absurd (let h : true ≡ false = sym still ∙ gone in cc)
          ]
    ]

    joined : (r : Ptr) → mem r (items (View.push p k.ready_queue)) ≡ true → Moved at_ready r
    joined r j = elim (Bool-cases (r == p)) [
      | inl here ↦ inr ((==_iff r p).0 here, self)
      | inr there ↦ kept at_ready r (away_ready s) (ground (arith, mem-push p k.ready_queue r))
    ]

    in_sleeping :
        (b : Bool) (r : Ptr)
        → s ≡ b
        → mem r (items (if b then View.remove (is_task p) k.sleeping_queue else k.sleeping_queue))
          ≡ true
        → Moved at_sleeping r
    in_sleeping true r e j = left_sleeping r j
    in_sleeping false r e j = kept at_sleeping r (away_sleeping s e) j

    in_suspended :
        (b : Bool) (r : Ptr)
        → s ≡ b
        → mem r (items (if b then k.suspended_queue else View.remove (is_task p) k.suspended_queue))
          ≡ true
        → Moved at_suspended r
    in_suspended true r e j = kept at_suspended r (away_suspended s e) j
    in_suspended false r e j = left_suspended r j

    members : (q : Place) (r : Ptr) → mem r (items (queue_of q (roused s p k))) ≡ true → Moved q r
    members at_ready r j = joined r j
    members at_suspended r j = in_suspended s r refl j
    members at_sleeping r j = in_sleeping s r refl j
    members at_finished r j = kept at_finished r (away_finished s) j

    not_ready : mem p (items k.ready_queue) ≡ false
    not_ready = elim (Bool-cases (mem p (items k.ready_queue))) [
      | inl j ↦
          absurd
            (elsewhere (waits s) at_ready (k.tcb p) (away_ready s) there (ok.member at_ready p j))
      | inr out ↦ out
    ]

    fewer :
        (b : Bool)
        → Distinct
            (items (if b then View.remove (is_task p) k.sleeping_queue else k.sleeping_queue))
    fewer true = Distinct-remove p k.sleeping_queue (ok.distinct at_sleeping)
    fewer false = ok.distinct at_sleeping

    as_many :
        (b : Bool)
        → Single k.task_disk_handler
            (items (if b then k.suspended_queue else View.remove (is_task p) k.suspended_queue))
    as_many true = ok.distinct at_suspended
    as_many false = Single-remove k.task_disk_handler p k.suspended_queue (ok.distinct at_suspended)

    distinct : (q : Place) → Once k.task_disk_handler q (items (queue_of q (roused s p k)))
    distinct at_ready = Distinct-push p k.ready_queue (ok.distinct at_ready) not_ready
    distinct at_suspended = as_many s
    distinct at_sleeping = fewer s
    distinct at_finished = ok.distinct at_finished

    current_apart : k.current ≢ task_kernel → k.current ≢ p
    current_apart user e =
        let a : (k.tcb p).status ≡ running = rw (← e) (ok.runs user).0 in
        let b : (k.tcb p).status ≡ suspended = fits.0 in
        let c : running ≡ suspended = sym a ∙ b in cc

    user : p ≢ task_kernel
    user = ne_kernel k p (waits s) ok i

    roused-Moves : Moves k (roused s p k) p
    roused-Moves = record {
      user = user;
      others = λ r ne no. rw (differ r p ne);
      members = members;
      distinct = distinct;
      runs = λ u. rw (differ k.current p (current_apart u)) (ok.runs u);
      alive = rw (differ task_kernel p (λ e. user (sym e))) ok.alive;
      same_handler = refl;
      awake = λ _. self.1;
      rests = λ _ r. absurd (let h : ready ≡ running = sym self.0 ∙ r in cc);
      keeps_running = λ _ e. e;
    }

pub queue_del-found :
    (q : Place) (p : Ptr) (k : Kernel)
    → mem p (items (queue_of q k)) ≡ true
    → queue_del q p k ≡ (no_error, set_queue q (View.remove (is_task p) (queue_of q k)) k)
unfolding queue_del
queue_del-found q p k i = rw (any-mem p (items (queue_of q k)), i)

pub awake-roused :
    (s : Bool) (p : Ptr) (k : Kernel)
    → p ≢ null
    → (k.tcb p).status ≡ suspended
    → (k.tcb p).sleeping ≡ s
    → mem p (items (queue_of (waits s) k)) ≡ true
    → awake p k ≡ done (roused s p k)
unfolding awake leave_queue queue_add
awake-roused true p k ne st sl i = rw (
  differ p null ne,
  st,
  sl,
  queue_del-found at_sleeping p k i,
  ap (λ r. r.1) (queue_del-found at_sleeping p k i),
  put_self k.tcb p,
  put-put k.tcb p,
)
awake-roused false p k ne st sl i =
    rw
      (
        differ p null ne,
        st,
        sl,
        queue_del-found at_suspended p k i,
        ap (λ r. r.1) (queue_del-found at_suspended p k i),
      )
      (ap
        (λ b. done (record (roused false p k) {
          tcb = put k.tcb p (record (k.tcb p) { status = ready; sleeping = b });
        }))
        sl)

left_queue :
    (s : Bool) (p : Ptr) (k : Kernel)
    → items (queue_of (waits s) (roused s p k))
      ≡ View.remove_first (is_task p) (items (queue_of (waits s) k))
left_queue true p k = items-remove (is_task p) k.sleeping_queue
left_queue false p k = items-remove (is_task p) k.suspended_queue

-- In a consistent kernel `task_awake` on a task, not NULL, of the suspended queue (`s` is false) or
-- of the sleeping queue (`s` is true) whose status is suspended succeeds and leaves the kernel
-- consistent: the queue has lost its first entry for the task, which is ready and is the last of
-- the ready queue.
pub awake-keeps :
    (s : Bool) (p : Ptr) (k : Kernel)
    → IsConsistent k
    → p ≢ null
    → (k.tcb p).status ≡ suspended
    → mem p (items (queue_of (waits s) k)) ≡ true
    → (awake p k ≡ done (roused s p k))
      × IsConsistent (roused s p k)
      × (items (roused s p k).ready_queue ≡ items k.ready_queue ++ (p ∷ []))
      × (((roused s p k).tcb p).status ≡ ready)
      × (items (queue_of (waits s) (roused s p k))
          ≡ View.remove_first (is_task p) (items (queue_of (waits s) k)))
awake-keeps s p k ok ne suspends i =
    let st = fits s p k ok i suspends in
    (
      awake-roused s p k ne st.0 st.1 i,
      Moves-IsConsistent k (roused s p k) p ok (roused-Moves s p k ok i suspends),
      items-push p k.ready_queue,
      (self s p k ok i suspends).0,
      left_queue s p k,
    )
