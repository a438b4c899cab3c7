-- ===== src/Dispatcher/WakeLoop.antt =====
-- The loop of `task_exit` over the suspended queue.
use mathlib.Core.Path.{subst}
use sistemas_operacionais.Base.{
  sym, ℕ, zero, suc, ◌-◌, ◌≤◌, ◌<◌, ◌≡◌, refl, ap, ◌∙◌, ◌≢◌, true, false, arith, ◌==◌, ◌⊎◌, inl,
  inr, Bool-cases, differ, same, ==_iff, List, [], ◌∷◌, ◌++◌, length,
}
use sistemas_operacionais.Base.Int.{ℤ}
use sistemas_operacionais.Queue.View
use sistemas_operacionais.Queue.View.{View, items, view}
use sistemas_operacionais.Queue.Members.{mem, is_task, items-advance, mem-push}
use sistemas_operacionais.Kernel.{
  Ptr, null, Kernel, TaskStatus, ready, running, suspended, finished, is_status,
}
use sistemas_operacionais.Dispatcher.{
  awake, wake_waiter, wake_loop, done, Outcome, task_of, queue_next,
}
use sistemas_operacionais.Dispatcher.Wake.{roused}
use sistemas_operacionais.Dispatcher.Present.{Stays, roused-Stays}
use sistemas_operacionais.Dispatcher.Leaving.{
  Leaving, turned, turned-Leaving, told, told-Alike, Alike-Leaving, roused-Leaving,
}

-- The task is ready, with the exit code of the task that it waited for.
abbrev pub Told : ℤ → Ptr → Kernel → Type 0
Told exit_code p k =
    ((k.tcb p).status ≡ ready)
    × ((k.tcb p).target_exit_code ≡ exit_code)
    × (mem p (items k.ready_queue) ≡ true)

-- A step of the loop succeeds with the task still leaving and no more tasks to look at.
pub record Woken (exit_code : ℤ) (c p : Ptr) (k : Kernel) (o : Outcome) : Type 0 where
  pub after : Kernel
  pub is_done : o ≡ done after
  pub leaving : Leaving c after
  pub stays : Stays k after
  pub tells : (r : Ptr) → Told exit_code r k → Told exit_code r after
  pub woken :
      ((k.tcb p).target_to_wait == (k.tcb k.current).id) ≡ true
      → (k.tcb p).status ≡ suspended
      → Told exit_code p after
  pub fewer : length after.suspended_queue.after ≤ length k.suspended_queue.after

pub mem-after : (b a : List Ptr) (x : Ptr) → mem x (b ++ (x ∷ a)) ≡ true
mem-after [] a x = rw (same x x) refl
mem-after (y ∷ b) a x = ground (arith, mem-after b a x)

length-remove_first :
    (x : Ptr) (xs : List Ptr) → length (View.remove_first (is_task x) xs) ≤ length xs
length-remove_first x [] = omega arith
length-remove_first x (y ∷ xs) = elim (Bool-cases (y == x)) [
  | inl hit ↦ rw hit (omega arith)
  | inr miss ↦ rw miss (omega (arith, length-remove_first x xs))
]

pub remove-after :
    (x : Ptr) (v : View Ptr) → length (View.remove (is_task x) v).after ≤ length v.after
unfolding View.remove
remove-after x v = elim (Bool-cases (View.any (is_task x) v.before)) [
  | inl found ↦ rw found (omega arith)
  | inr none ↦ rw none (length-remove_first x v.after)
]

pub suspended-cases : (s : TaskStatus) → (s ≡ suspended) ⊎ (is_status s suspended ≡ false)
suspended-cases ready = inr refl
suspended-cases running = inr refl
suspended-cases suspended = inl refl
suspended-cases finished = inr refl

pub is_running : (s : TaskStatus) → is_status s running ≡ true → s ≡ running
is_running ready e = cc
is_running running e = refl
is_running suspended e = cc
is_running finished e = cc

-- `task_awake` leaves a task alone that is not suspended.
pub awake-nothing :
    (p : Ptr) (k : Kernel)
    → p ≢ null
    → is_status (k.tcb p).status suspended ≡ false
    → awake p k ≡ done k
unfolding awake
awake-nothing p k ne other = rw (awake, differ p null ne, other) refl

roused-Told :
    (exit_code : ℤ) (p : Ptr) (k : Kernel) → Told exit_code p (roused false p (told exit_code p k))
roused-Told exit_code p k = (
  rw (same p p refl) refl,
  rw (same p p refl) refl,
  ground (arith, mem-push p k.ready_queue p, same p p refl),
)

told-roused :
    (exit_code : ℤ) (p : Ptr) (k : Kernel) (r : Ptr)
    → Told exit_code r k
    → Told exit_code r (roused false p (told exit_code p k))
told-roused exit_code p k r t = elim (Bool-cases (r == p)) [
  | inl here ↦
      subst (λ z. Told exit_code z (roused false p (told exit_code p k)))
        (sym ((==_iff r p).0 here)) (roused-Told exit_code p k)
  | inr there ↦ (rw there t.0, rw there t.1, ground (arith, mem-push p k.ready_queue r, t.2))
]

told-told :
    (exit_code : ℤ) (p : Ptr) (k : Kernel) (r : Ptr)
    → Told exit_code r k
    → Told exit_code r (told exit_code p k)
told-told exit_code p k r t = elim (Bool-cases (r == p)) [
  | inl here ↦
      let e : r ≡ p = (==_iff r p).0 here in
      (rw here (ap (λ z. (k.tcb z).status) (sym e) ∙ t.0), rw here refl, t.2)
  | inr there ↦ (rw there t.0, rw there t.1, t.2)
]

still_suspended :
    (exit_code : ℤ) (p : Ptr) (k : Kernel)
    → (k.tcb p).status ≡ suspended
    → is_status ((told exit_code p k).tcb p).status suspended ≡ false
    → ⊥
still_suspended exit_code p k suspends not_suspended =
    let same_status : ((told exit_code p k).tcb p).status ≡ (k.tcb p).status =
      rw (same p p refl) refl in
    let e : true ≡ false =
      sym (ap (λ z. is_status z suspended) (same_status ∙ suspends)) ∙ not_suspended in
    cc

pub wake_waiter-Woken :
    (exit_code : ℤ) (c p : Ptr) (k : Kernel)
    → p ≢ null
    → mem p (items k.suspended_queue) ≡ true
    → Leaving c k
    → Woken exit_code c p k (wake_waiter exit_code p k)
unfolding wake_waiter
wake_waiter-Woken exit_code c p k ne i h =
    elim (Bool-cases ((k.tcb p).target_to_wait == (k.tcb k.current).id)) [
      | inl waits ↦
          let told_leaving : Leaving c (told exit_code p k) =
            Alike-Leaving c k (told exit_code p k) (told-Alike exit_code p k) h in
          elim (suspended-cases ((told exit_code p k).tcb p).status) [
            | inl suspends ↦
                let w = roused-Leaving c p (told exit_code p k) ne suspends i told_leaving in
                record {
                  after = roused false p (told exit_code p k);
                  is_done = rw (wake_waiter, waits) w.0;
                  leaving = w.1;
                  stays = roused-Stays false p (told exit_code p k);
                  tells = told-roused exit_code p k;
                  woken = λ _ _. roused-Told exit_code p k;
                  fewer = remove-after p k.suspended_queue;
                }
            | inr not_suspended ↦ record {
              after = told exit_code p k;
              is_done =
                  rw (wake_waiter, waits) (awake-nothing p (told exit_code p k) ne not_suspended);
              leaving = told_leaving;
              stays = λ r i'. i';
              tells = told-told exit_code p k;
              woken = λ _ suspends. absurd (still_suspended exit_code p k suspends not_suspended);
              fewer = omega arith;
            }
          ]
      | inr other ↦ record {
        after = k;
        is_done = rw (wake_waiter, other) refl;
        leaving = h;
        stays = λ r i'. i';
        tells = λ r t. t;
        woken = λ waits _. absurd (let e : true ≡ false = sym waits ∙ other in cc);
        fewer = omega arith;
      }
    ]

pub advance-after : (v : View Ptr) → length (View.advance v).after ≡ length v.after - 1
unfolding View.advance
advance-after v = go v.before v.after
  where
    go : (b a : List Ptr) → length (View.advance_parts b a).after ≡ length a - 1
    go b [] = omega arith
    go b (x ∷ a) = omega arith

wake_loop-null :
    (fuel : ℕ) (exit_code : ℤ) (k : Kernel) → wake_loop (suc fuel) exit_code null k ≡ done k
unfolding wake_loop
wake_loop-null fuel exit_code k = refl

pub wake_loop-step :
    (fuel : ℕ) (exit_code : ℤ) (aux : Ptr) (k k1 : Kernel)
    → aux ≢ null
    → wake_waiter exit_code aux k ≡ done k1
    → wake_loop (suc fuel) exit_code aux k
      ≡ wake_loop fuel exit_code
          (task_of (View.current (View.advance k1.suspended_queue)))
          (turned (View.advance k1.suspended_queue) k1)
unfolding wake_loop queue_next
wake_loop-step fuel exit_code aux k k1 ne e = rw (wake_loop, differ aux null ne, e) refl

-- What the iterator says: no task is left, or the first of those left is under it.
pub current_lem :
    (v : View Ptr)
    → (task_of (View.current v) ≡ null)
      ⊎ ((mem (task_of (View.current v)) (items v) ≡ true) × (1 ≤ length v.after))
unfolding View.current
current_lem v = go v.before v.after
  where
    go :
        (b a : List Ptr)
        → (task_of (View.current_of a) ≡ null)
          ⊎ ((mem (task_of (View.current_of a)) (b ++ a) ≡ true) × (1 ≤ length a))
    go b [] = inl refl
    go b (x ∷ a) = inr (mem-after b a x, omega arith)

turned-Stays :
    (k : Kernel) (v : View Ptr) → items v ≡ items k.suspended_queue → Stays k (turned v k)
turned-Stays k v e r i = rw e i

-- The loop ends, and with the task still leaving.
pub record Ended (exit_code : ℤ) (c : Ptr) (k : Kernel) (o : Outcome) : Type 0 where
  pub last : Kernel
  pub ends : o ≡ done last
  pub leaving : Leaving c last
  pub stays : Stays k last
  pub tells : (r : Ptr) → Told exit_code r k → Told exit_code r last

Ended-null :
    (fuel : ℕ) (exit_code : ℤ) (c aux : Ptr) (k : Kernel)
    → Leaving c k
    → aux ≡ null
    → Ended exit_code c k (wake_loop (suc fuel) exit_code aux k)
Ended-null fuel exit_code c aux k h e = record {
  last = k;
  ends = ap (λ p. wake_loop (suc fuel) exit_code p k) e ∙ wake_loop-null fuel exit_code k;
  leaving = h;
  stays = λ r i. i;
  tells = λ r t. t;
}

pub wake_loop-Ended :
    (fuel : ℕ) (exit_code : ℤ) (c : Ptr) (k : Kernel)
    → length k.suspended_queue.after < fuel
    → Leaving c k
    → Ended exit_code c k (wake_loop fuel exit_code (task_of (View.current k.suspended_queue)) k)
wake_loop-Ended zero exit_code c k enough h = absurd (omega (arith, enough))
wake_loop-Ended (suc fuel) exit_code c k enough h = elim (current_lem k.suspended_queue) [
  | inl none ↦ Ended-null fuel exit_code c _ k h none
  | inr (i, some_left) ↦
      let aux : Ptr = task_of (View.current k.suspended_queue) in
      elim (Bool-cases (aux == null)) [
        | inl none ↦ Ended-null fuel exit_code c aux k h ((==_iff aux null).0 none)
        | inr some_task ↦
            let ne : aux ≢ null = λ e. ground arith in
            let w : Woken exit_code c aux k (wake_waiter exit_code aux k) =
              wake_waiter-Woken exit_code c aux k ne i h in
            let v : View Ptr = View.advance w.after.suspended_queue in
            let rest : Ended exit_code c (turned v w.after)
                (wake_loop fuel exit_code (task_of (View.current v)) (turned v w.after)) =
              wake_loop-Ended fuel exit_code c (turned v w.after)
                (omega (arith, enough, some_left, w.fewer, advance-after w.after.suspended_queue))
                (turned-Leaving c v w.after (items-advance w.after.suspended_queue) w.leaving) in
            record {
              last = rest.last;
              ends = wake_loop-step fuel exit_code aux k w.after ne w.is_done ∙ rest.ends;
              leaving = rest.leaving;
              tells = λ r t. rest.tells r (w.tells r t);
              stays = λ r j.
                  rest.stays r (
                    turned-Stays w.after v (items-advance w.after.suspended_queue) r (w.stays r j));
            }
      ]
]
