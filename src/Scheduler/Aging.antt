-- ===== src/Scheduler/Aging.antt =====
-- What a pass of the scheduler does to the task control blocks.
use sistemas_operacionais.Base.{
  ◌≡◌, refl, ◌∙◌, Bool, true, false, ◌||◌, List, [], ◌∷◌, ◌==◌, if◌then◌else◌, inl, inr, Bool-cases,
  ==_iff,
}
use sistemas_operacionais.Base.Int.{decrement}
use sistemas_operacionais.Queue.Members.{mem, Distinct, mem-ne}
use sistemas_operacionais.Kernel.{Ptr, Tcb}
use sistemas_operacionais.Scheduler.{age, consider, select_loop}

-- The task with its dynamic priority one lower.
abbrev pub aged : Tcb → Tcb
aged t = record t { dynamic_priority = decrement t.dynamic_priority }

-- The task with its dynamic priority back at the static one.
abbrev pub reset : Tcb → Tcb
reset t = record t { dynamic_priority = t.static_priority }

-- Ageing `x` first and then, by a test, another list without it.
age-step :
    (f : Ptr → Tcb) (p x : Ptr) (b : Bool)
    → (b ≡ true → (p == x) ≡ false)
    → (if b then aged (age f x p) else age f x p) ≡ (if (p == x) || b then aged (f p) else f p)
unfolding age
age-step f p x true apart = rw (apart refl)
age-step f p x false apart = elim (Bool-cases (p == x)) [
  | inl same ↦ rw (same, (==_iff p x).0 same)
  | inr other ↦ rw other
]

-- The loop ages each task of a list of distinct tasks once, and no other.
pub select_loop-tcb :
    (f : Ptr → Tcb) (s : Ptr) (xs : List Ptr)
    → Distinct xs
    → (p : Ptr) → (select_loop f s xs).0 p ≡ (if mem p xs then aged (f p) else f p)
unfolding select_loop consider
select_loop-tcb f s [] d p = refl
select_loop-tcb f s (x ∷ xs) d p =
    select_loop-tcb (age f x) _ xs d.1 p ∙ age-step f p x (mem p xs) (mem-ne p x xs d.0)
