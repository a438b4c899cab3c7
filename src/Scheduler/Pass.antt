-- ===== src/Scheduler/Pass.antt =====
-- A whole pass of the scheduler over the ready queue.
use mathlib.Core.List.{append-nil}
use sistemas_operacionais.Base.{
  ◌≡◌, refl, Bool, true, false, some, List, ◌∷◌, ◌==◌, if◌then◌else◌, inl, inr, Bool-cases, ==_iff,
}
use sistemas_operacionais.Base.Int.{◌≤ℤ◌}
use sistemas_operacionais.Queue.View.{items}
use sistemas_operacionais.Kernel.{Ptr, Tcb, Kernel}
use sistemas_operacionais.Scheduler.{select_loop, restore, schedule_items, scheduler}
use sistemas_operacionais.Queue.Members.{mem, Distinct}
use sistemas_operacionais.Scheduler.Aging.{aged, reset, select_loop-tcb}
use sistemas_operacionais.Scheduler.Choice.{first-Chosen}

-- What a pass over the ready tasks `xs` decides and changes.
pub record Picked (k k' : Kernel) (xs : List Ptr) (t : Ptr) : Type 0 where
  pub ready : mem t xs ≡ true
  pub least : (q : Ptr) → mem q xs ≡ true → (k.tcb t).dynamic_priority ≤ℤ (k.tcb q).dynamic_priority
  pub tasks :
      (p : Ptr)
      → k'.tcb p
        ≡ (if p == t then reset (k.tcb p) else if mem p xs then aged (k.tcb p) else k.tcb p)
  pub kept : items k'.ready_queue ≡ xs
  pub same_current : k'.current ≡ k.current

restore_lem :
    (f g : Ptr → Tcb) (t : Ptr) (b : Bool) (p : Ptr)
    → g p ≡ (if b then aged (f p) else f p)
    → restore g t p ≡ (if p == t then reset (f p) else if b then aged (f p) else f p)
unfolding restore
restore_lem f g t b p e = elim (Bool-cases (p == t)) [
  | inl same ↦ rw (same, ← (==_iff p t).0 same, e) (reset-if b)
  | inr other ↦ rw (other, e)
]
  where
    reset-if : (b : Bool) → reset (if b then aged (f p) else f p) ≡ reset (f p)
    reset-if true = refl
    reset-if false = refl

-- The pass from the head of the queue.
items-Picked :
    (k : Kernel) (x : Ptr) (xs : List Ptr)
    → Distinct (x ∷ xs)
    → let k' = (schedule_items (x ∷ xs) k).1 in
      (t : Ptr) × ((schedule_items (x ∷ xs) k).0 ≡ some t)
      × (mem t (x ∷ xs) ≡ true)
      × ((q : Ptr)
          → mem q (x ∷ xs) ≡ true
          → (k.tcb t).dynamic_priority ≤ℤ (k.tcb q).dynamic_priority)
      × ((p : Ptr)
          → k'.tcb p ≡ (
              if p == t
              then reset (k.tcb p)
              else if mem p (x ∷ xs)
              then aged (k.tcb p)
              else k.tcb p))
unfolding schedule_items
items-Picked k x xs ds =
    let c = first-Chosen k.tcb x xs ds in
    (
      (select_loop k.tcb x (x ∷ xs)).1,
      refl,
      c.from,
      c.least,
      λ p.
          restore_lem k.tcb (select_loop k.tcb x (x ∷ xs)).0 _ (mem p (x ∷ xs)) p
            (select_loop-tcb k.tcb x (x ∷ xs) ds p),
    )

-- With distinct tasks in the ready queue, and at least one, the scheduler returns a task of the
-- queue whose dynamic priority is least; it resets that priority to the static one, lowers the
-- dynamic priority of every other ready task by one, and changes no other task, no other field and
-- not the contents of the queue.
pub scheduler-Picked :
    (k : Kernel) (x : Ptr) (xs : List Ptr)
    → items k.ready_queue ≡ x ∷ xs
    → Distinct (x ∷ xs)
    → (t : Ptr) × ((scheduler k).0 ≡ some t) × Picked k (scheduler k).1 (x ∷ xs) t
unfolding scheduler
scheduler-Picked k x xs e ds =
    let (t, chosen, ready, least, tasks) = items-Picked k x xs ds in
    rw e (
      t,
      chosen,
      record {
        ready = ready;
        least = least;
        tasks = tasks;
        kept = append-nil (x ∷ xs);
        same_current = refl;
      },
    )
