-- ===== src/Dispatcher/Consistent.antt =====
-- The invariant of the kernel's queues: where a task waits agrees with its status.
use mathlib.Core.Path.{subst}
use sistemas_operacionais.Base.{
  List, ap, ◌∙◌, ◌==◌, ==_iff, ◌≡◌, refl, sym, fun_ext, arith, same, ◌≢◌, true, false, ◌⊎◌, inl,
  inr, Bool-cases,
}
use sistemas_operacionais.Queue.View.{View, items}
use sistemas_operacionais.Queue.Members.{mem, Distinct, Single, Distinct-push, Single-push}
use sistemas_operacionais.Queue.View
use sistemas_operacionais.Kernel.{
  Ptr, put, task_kernel, ready, running, suspended, finished, Tcb, Kernel, Place, at_ready,
  at_suspended, at_sleeping, at_finished, queue_of,
}

pub put_self : (f : Ptr → Tcb) (c : Ptr) (t : Tcb) → put f c t c ≡ t
put_self f c t = rw (same c c)

pub put-put : (f : Ptr → Tcb) (c : Ptr) (s t : Tcb) → put (put f c s) c t ≡ put f c t
put-put f c s t = fun_ext λ p. ground arith

-- A task may be in a queue only with this status and this `sleeping` flag.
abbrev pub Fits : Place → Tcb → Type 0
Fits at_ready t = (t.status ≡ ready) × (t.sleeping ≡ false)
Fits at_suspended t = (t.status ≡ suspended) × (t.sleeping ≡ false)
Fits at_sleeping t = (t.status ≡ suspended) × (t.sleeping ≡ true)
Fits at_finished t = (t.status ≡ finished) × (t.sleeping ≡ false)

abbrev pub Runs : Tcb → Type 0
Runs t = (t.status ≡ running) × (t.sleeping ≡ false)

-- A member of a queue fits it, but the disk manager's task `d` is in the suspended queue, from
-- `block_init` on, also when it does not wait there.
abbrev pub Home : (d : Ptr) → Place → Ptr → Tcb → Type 0
Home d at_ready p t = Fits at_ready t
Home d at_suspended p t = Fits at_suspended t ⊎ (p ≡ d)
Home d at_sleeping p t = Fits at_sleeping t
Home d at_finished p t = Fits at_finished t

abbrev pub Once : (d : Ptr) → Place → List Ptr → Type 0
Once d at_ready ps = Distinct ps
Once d at_suspended ps = Single d ps
Once d at_sleeping ps = Distinct ps
Once d at_finished ps = Distinct ps

-- A task that may join a queue.
abbrev pub Out : (d : Ptr) → Place → Ptr → List Ptr → Type 0
Out d at_ready p ps = mem p ps ≡ false
Out d at_suspended p ps = p ≢ d → mem p ps ≡ false
Out d at_sleeping p ps = mem p ps ≡ false
Out d at_finished p ps = mem p ps ≡ false

pub Fits-Home : (d : Ptr) (q : Place) (p : Ptr) (t : Tcb) → Fits q t → Home d q p t
Fits-Home d at_ready p t f = f
Fits-Home d at_suspended p t f = inl f
Fits-Home d at_sleeping p t f = f
Fits-Home d at_finished p t f = f

pub Home-same :
    (d : Ptr) (q : Place) (p : Ptr) (t u : Tcb)
    → u.status ≡ t.status
    → u.sleeping ≡ t.sleeping
    → Home d q p t
    → Home d q p u
Home-same d at_ready p t u a b f = (a ∙ f.0, b ∙ f.1)
Home-same d at_suspended p t u a b (inl f) = inl (a ∙ f.0, b ∙ f.1)
Home-same d at_suspended p t u a b (inr e) = inr e
Home-same d at_sleeping p t u a b f = (a ∙ f.0, b ∙ f.1)
Home-same d at_finished p t u a b f = (a ∙ f.0, b ∙ f.1)

pub Once-push :
    (d : Ptr) (q : Place) (p : Ptr) (v : View Ptr)
    → Once d q (items v)
    → Out d q p (items v)
    → Once d q (items (View.push p v))
Once-push d at_ready p v o out = Distinct-push p v o out
Once-push d at_suspended p v o out = Single-push d p v o out
Once-push d at_sleeping p v o out = Distinct-push p v o out
Once-push d at_finished p v o out = Distinct-push p v o out

pub Out-of : (d : Ptr) (q : Place) (p : Ptr) (ps : List Ptr) → mem p ps ≡ false → Out d q p ps
Out-of d at_ready p ps o = o
Out-of d at_suspended p ps o = λ _. o
Out-of d at_sleeping p ps o = o
Out-of d at_finished p ps o = o

-- A member that may join a queue where it is already is the manager's task.
pub Out-Home :
    (d : Ptr) (q : Place) (p : Ptr) (ps : List Ptr)
    → Out d q p ps
    → mem p ps ≡ true
    → (t : Tcb) → Home d q p t
Out-Home d at_ready p ps out i t = absurd (let e : true ≡ false = sym i ∙ out in cc)
Out-Home d at_suspended p ps out i t = elim (Bool-cases (p == d)) [
  | inl here ↦ inr ((==_iff p d).0 here)
  | inr there ↦ absurd (let e : true ≡ false = sym i ∙ out (λ z. ground arith) in cc)
]
Out-Home d at_sleeping p ps out i t = absurd (let e : true ≡ false = sym i ∙ out in cc)
Out-Home d at_finished p ps out i t = absurd (let e : true ≡ false = sym i ∙ out in cc)

-- Every task in a queue fits it, once, but for the manager's in the suspended queue; the kernel is
-- in none; the task that has the processor, if it is not the kernel, is running; the kernel has
-- not ended; and the manager's task does not sleep, and runs only when it has the processor.
pub record IsConsistent (k : Kernel) : Type 0 where
  pub member :
      (q : Place) (p : Ptr)
      → mem p (items (queue_of q k)) ≡ true
      → Home k.task_disk_handler q p (k.tcb p)
  pub distinct : (q : Place) → Once k.task_disk_handler q (items (queue_of q k))
  pub outside : (q : Place) → mem task_kernel (items (queue_of q k)) ≡ false
  pub runs : k.current ≢ task_kernel → Runs (k.tcb k.current)
  pub alive : (k.tcb task_kernel).status ≢ finished
  pub handler : k.task_disk_handler ≢ task_kernel
  pub awake : (k.tcb k.task_disk_handler).sleeping ≡ false
  pub rests : (k.tcb k.task_disk_handler).status ≡ running → k.current ≡ k.task_disk_handler

-- What every step shares: at most the task `c` changes places, and the kernel's own fields.
pub record Moves (k k' : Kernel) (c : Ptr) : Type 0 where
  pub user : c ≢ task_kernel
  pub others : (p : Ptr) → p ≢ c → p ≢ task_kernel → k'.tcb p ≡ k.tcb p
  pub members :
      (q : Place) (p : Ptr)
      → mem p (items (queue_of q k')) ≡ true
      → ((mem p (items (queue_of q k)) ≡ true) × (p ≢ c))
        ⊎ ((p ≡ c) × Home k.task_disk_handler q c (k'.tcb c))
  pub distinct : (q : Place) → Once k.task_disk_handler q (items (queue_of q k'))
  pub runs : k'.current ≢ task_kernel → Runs (k'.tcb k'.current)
  pub alive : (k'.tcb task_kernel).status ≢ finished
  pub same_handler : k'.task_disk_handler ≡ k.task_disk_handler
  pub awake : c ≡ k.task_disk_handler → (k'.tcb c).sleeping ≡ false
  pub rests : c ≡ k.task_disk_handler → (k'.tcb c).status ≡ running → k'.current ≡ c
  pub keeps_running :
      c ≢ k.task_disk_handler → k.current ≡ k.task_disk_handler → k'.current ≡ k.task_disk_handler

not-Fits-running : (q : Place) (t : Tcb) → Runs t → Fits q t → ⊥
not-Fits-running at_ready t r f = cc
not-Fits-running at_suspended t r f = cc
not-Fits-running at_sleeping t r f = cc
not-Fits-running at_finished t r f = cc

Home-Out :
    (d : Ptr) (q : Place) (c : Ptr) (t : Tcb) (ps : List Ptr)
    → (mem c ps ≡ true → Home d q c t)
    → Runs t
    → Out d q c ps
Home-Out d q c t ps h r = elim (Bool-cases (mem c ps)) [
  | inl i ↦ there q (h i)
  | inr out ↦ Out-of d q c ps out
]
  where
    there : (q : Place) → Home d q c t → Out d q c ps
    there at_ready f = absurd (not-Fits-running at_ready t r f)
    there at_suspended (inl f) = absurd (not-Fits-running at_suspended t r f)
    there at_suspended (inr e) = λ ne. absurd (ne e)
    there at_sleeping f = absurd (not-Fits-running at_sleeping t r f)
    there at_finished f = absurd (not-Fits-running at_finished t r f)

-- A running task is in no queue.
pub running-outside :
    (k : Kernel) (c : Ptr)
    → IsConsistent k
    → Runs (k.tcb c)
    → (q : Place) → Out k.task_disk_handler q c (items (queue_of q k))
running-outside k c ok r q = Home-Out k.task_disk_handler q c (k.tcb c) _ (ok.member q c) r

-- An old member of a queue, where the task `c` may join it.
pub old_or_spare :
    (d : Ptr) (q : Place) (p c : Ptr) (ps : List Ptr) (t : Tcb)
    → Out d q c ps
    → mem p ps ≡ true
    → ((mem p ps ≡ true) × (p ≢ c)) ⊎ ((p ≡ c) × Home d q c t)
old_or_spare d q p c ps t out i = elim (Bool-cases (p == c)) [
  | inl here ↦
      let e : p ≡ c = (==_iff p c).0 here in
      inr (e, Out-Home d q c ps out (ap (λ z. mem z ps) (sym e) ∙ i) t)
  | inr there ↦ inl (i, λ e. ground arith)
]

pub ne_kernel :
    (k : Kernel) (p : Ptr) (q : Place)
    → IsConsistent k
    → mem p (items (queue_of q k)) ≡ true
    → p ≢ task_kernel
ne_kernel k p q ok i e = let out : mem p (items (queue_of q k)) ≡ false = rw e (ok.outside q) in cc

pub Moves-IsConsistent : (k k' : Kernel) (c : Ptr) → IsConsistent k → Moves k k' c → IsConsistent k'
Moves-IsConsistent k k' c ok m = record {
  member = λ q p i.
      subst (λ d. Home d q p (k'.tcb p)) (sym m.same_handler)
        (elim (m.members q p i) [
          | inl (old, ne) ↦ rw (m.others p ne (ne_kernel k p q ok old)) (ok.member q p old)
          | inr (e, fits) ↦ rw e fits
        ]);
  distinct = λ q. subst (λ d. Once d q (items (queue_of q k'))) (sym m.same_handler) (m.distinct q);
  outside = λ q. elim (Bool-cases (mem task_kernel (items (queue_of q k')))) [
    | inl i ↦ absurd (elim (m.members q task_kernel i) [
      | inl (old, ne) ↦ ne_kernel k task_kernel q ok old refl
      | inr (e, fits) ↦ m.user (sym e)
    ])
    | inr out ↦ out
  ];
  runs = m.runs;
  alive = m.alive;
  handler = λ e. ok.handler (sym m.same_handler ∙ e);
  awake =
      subst (λ d. (k'.tcb d).sleeping ≡ false) (sym m.same_handler)
        (elim (Bool-cases (k.task_disk_handler == c)) [
          | inl here ↦
              let e : k.task_disk_handler ≡ c = (==_iff k.task_disk_handler c).0 here in
              ap (λ z. (k'.tcb z).sleeping) e ∙ m.awake (sym e)
          | inr there ↦
              ap (λ (t : Tcb). t.sleeping)
                (m.others k.task_disk_handler (λ e. ground arith) ok.handler)
              ∙ ok.awake
        ]);
  rests =
      subst (λ d. (k'.tcb d).status ≡ running → k'.current ≡ d) (sym m.same_handler)
        (λ r. elim (Bool-cases (k.task_disk_handler == c)) [
          | inl here ↦
              let e : k.task_disk_handler ≡ c = (==_iff k.task_disk_handler c).0 here in
              m.rests (sym e) (ap (λ z. (k'.tcb z).status) (sym e) ∙ r) ∙ sym e
          | inr there ↦
              let same =
                ap (λ (t : Tcb). t.status)
                  (m.others k.task_disk_handler (λ e. ground arith) ok.handler) in
              m.keeps_running (λ e. ground arith) (ok.rests (sym same ∙ r))
        ]);
}
