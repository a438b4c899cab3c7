-- ===== src/Scheduler/Choice.antt =====
-- Which task a pass of the scheduler chooses.
use mathlib.Core.Path.{subst}
use sistemas_operacionais.Base.{
  zero, suc, ◌≡◌, refl, sym, ap, ◌∙◌, Bool, true, false, ◌||◌, List, [], ◌∷◌, arith, ◌==◌,
  if◌then◌else◌, ◌⊎◌, inl, inr, Bool-cases, ==_iff,
}
use sistemas_operacionais.Base.Int.{ℤ, pos, negsuc, increment, decrement, ltb_ℤ, ◌≤ℤ◌}
use sistemas_operacionais.Kernel.{Ptr, Tcb}
use sistemas_operacionais.Scheduler.{age, precedes, consider, select_loop}
use sistemas_operacionais.Queue.Members.{mem, Distinct, mem-ne}
use sistemas_operacionais.Scheduler.Aging.{aged}

if-same : (b : Bool) (x : Ptr) → (if b then x else x) ≡ x
if-same true x = refl
if-same false x = refl

increment-decrement : (a : ℤ) → increment (decrement a) ≡ a
increment-decrement (pos zero) = refl
increment-decrement (pos (suc n)) = refl
increment-decrement (negsuc n) = refl

le_of_lt : (a b : ℤ) → ltb_ℤ a b ≡ true → a ≤ℤ b
le_of_lt a b h = ground arith

le_of_not_lt : (a b : ℤ) → ltb_ℤ a b ≡ false → b ≤ℤ a
le_of_not_lt a b h = ground arith

trans : (a b c : ℤ) → a ≤ℤ b → b ≤ℤ c → a ≤ℤ c
trans a b c h k = omega arith

-- What the loop has chosen, among the task held before and those of the list, by their
-- priorities before any ageing.
pub record Chosen (d : Ptr → ℤ) (s : Ptr) (xs : List Ptr) (t : Ptr) : Type 0 where
  pub from : mem t (s ∷ xs) ≡ true
  pub least : (q : Ptr) → mem q (s ∷ xs) ≡ true → d t ≤ℤ d q

-- The blocks in the middle of the loop: the task held is aged, those to come are not.
record Midway (d : Ptr → ℤ) (f : Ptr → Tcb) (s : Ptr) (xs : List Ptr) : Type 0 where
  held : (f s).dynamic_priority ≡ decrement (d s)
  ahead : (q : Ptr) → mem q xs ≡ true → (f q).dynamic_priority ≡ d q
  apart : mem s xs ≡ false

age_self : (f : Ptr → Tcb) (p : Ptr) → age f p p ≡ aged (f p)
unfolding age
age_self f p = ground arith

age-other : (f : Ptr → Tcb) (p q : Ptr) → (q == p) ≡ false → age f p q ≡ f q
unfolding age
age-other f p q e = rw e

module _ (d : Ptr → ℤ) where
  -- Tests on aged priorities are tests on the old ones.
  precedes-old :
      (g : Ptr → Tcb) (x s : Ptr)
      → (g x).dynamic_priority ≡ decrement (d x)
      → (g s).dynamic_priority ≡ decrement (d s)
      → precedes g x s ≡ ltb_ℤ (d x) (d s)
  unfolding precedes
  precedes-old g x s ex es = rw (ex, es, increment-decrement (d x), increment-decrement (d s))

  consider-choice :
      (f : Ptr → Tcb) (s x : Ptr)
      → (age f x x).dynamic_priority ≡ decrement (d x)
      → (age f x s).dynamic_priority ≡ decrement (d s)
      → consider f s x ≡ (age f x, if ltb_ℤ (d x) (d s) then x else s)
  unfolding consider
  consider-choice f s x ex es =
      ap (λ (b : Bool). (age f x, if b then x else s)) (precedes-old (age f x) x s ex es)

  -- One round, with the task held as `s'` after it.
  Midway-step :
      (f : Ptr → Tcb) (s x : Ptr) (xs : List Ptr) (s' : Ptr)
      → mem x xs ≡ false
      → Midway d f s (x ∷ xs)
      → (s' ≡ x) ⊎ (s' ≡ s)
      → Midway d (age f x) s' xs
  Midway-step f s x xs s' out m which = record {
    held = held which;
    ahead = λ q i.
        ap (λ (t : Tcb). t.dynamic_priority) (age-other f x q (mem-ne q x xs out i))
        ∙ m.ahead q (ground arith);
    apart = apart which;
  }
    where
      away : ((s == x) ≡ false) × (mem s xs ≡ false)
      away = split (s == x) (mem s xs) m.apart
        where
          split : (a b : Bool) → (a || b) ≡ false → (a ≡ false) × (b ≡ false)
          split a b e = ground arith

      held : (s' ≡ x) ⊎ (s' ≡ s) → (age f x s').dynamic_priority ≡ decrement (d s')
      held (inl e) = rw (e, age_self f x) (ap decrement (m.ahead x (ground arith)))
      held (inr e) = rw (e, age-other f x s away.0) m.held

      apart : (s' ≡ x) ⊎ (s' ≡ s) → mem s' xs ≡ false
      apart (inl e) = rw e out
      apart (inr e) = rw e away.1

  -- A choice among the rest is one among all.
  Chosen-step :
      (s x : Ptr) (xs : List Ptr) (b : Bool) (t : Ptr)
      → ltb_ℤ (d x) (d s) ≡ b
      → Chosen d (if b then x else s) xs t
      → Chosen d s (x ∷ xs) t
  Chosen-step s x xs true t e c = record {
    from = wider (t == s) (mem t (x ∷ xs)) c.from;
    least = λ q i. elim (Bool-cases (q == s)) [
      | inl same ↦
          rw ((==_iff q s).0 same)
            (trans (d t) (d x) (d s) (c.least x (ground arith)) (le_of_lt (d x) (d s) e))
      | inr other ↦ c.least q (rw other at i)
    ];
  }
    where
      wider : (a b : Bool) → b ≡ true → (a || b) ≡ true
      wider a b e = ground arith
  Chosen-step s x xs false t e c = record {
    from = wider (t == s) (t == x) (mem t xs) c.from;
    least = λ q i. elim (Bool-cases (q == x)) [
      | inl same ↦
          rw ((==_iff q x).0 same)
            (trans (d t) (d s) (d x) (c.least s (ground arith)) (le_of_not_lt (d x) (d s) e))
      | inr other ↦ c.least q (rw other at i)
    ];
  }
    where
      wider : (a b c : Bool) → (a || c) ≡ true → (a || (b || c)) ≡ true
      wider a b c e = ground arith

  select_loop-Chosen :
      (f : Ptr → Tcb) (s : Ptr) (xs : List Ptr)
      → Distinct xs
      → Midway d f s xs
      → Chosen d s xs (select_loop f s xs).1
  unfolding select_loop
  select_loop-Chosen f s [] ds m = record {
    from = ground arith;
    least = λ q i. let e : q ≡ s = ground arith in rw e (omega arith);
  }
  select_loop-Chosen f s (x ∷ xs) ds m =
      subst (λ c. Chosen d s (x ∷ xs) (select_loop c.0 c.1 xs).1) (sym round)
        (Chosen-step s x xs _ _ refl (
          select_loop-Chosen (age f x) _ xs ds.1
            (Midway-step f s x xs _ ds.0 m (which (ltb_ℤ (d x) (d s))))))
    where
      which : (b : Bool) → ((if b then x else s) ≡ x) ⊎ ((if b then x else s) ≡ s)
      which true = inl refl
      which false = inr refl

      round : consider f s x ≡ (age f x, if ltb_ℤ (d x) (d s) then x else s)
      round =
          consider-choice f s x
            (ap (λ (t : Tcb). t.dynamic_priority) (age_self f x)
              ∙ ap decrement (m.ahead x (ground arith)))
            (ap (λ (t : Tcb). t.dynamic_priority) (age-other f x s (ground (arith, m.apart)))
              ∙ m.held)

-- The loop from the head of a queue, which holds the head before it ages it.
pub first-Chosen :
    (f : Ptr → Tcb) (x : Ptr) (xs : List Ptr)
    → Distinct (x ∷ xs)
    → Chosen (λ p. (f p).dynamic_priority) x xs (select_loop f x (x ∷ xs)).1
unfolding select_loop consider
first-Chosen f x xs ds =
    subst (λ c. Chosen (λ p. (f p).dynamic_priority) x xs (select_loop c.0 c.1 xs).1) (sym round)
      (select_loop-Chosen (λ p. (f p).dynamic_priority) (age f x) x xs ds.1
        (record {
          held = ap (λ (t : Tcb). t.dynamic_priority) (age_self f x);
          ahead =
              λ q i. ap (λ (t : Tcb). t.dynamic_priority) (age-other f x q (mem-ne q x xs ds.0 i));
          apart = ds.0;
        }))
  where
    round : consider f x x ≡ (age f x, x)
    round = ap (λ (y : Ptr). (age f x, y)) (if-same (precedes (age f x) x x) x)
