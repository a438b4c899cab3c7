-- ===== src/Semaphore/Balance.antt =====
-- A semaphore's value and the tasks that wait for it.
use sistemas_operacionais.Base.{
  ℕ, zero, suc, ◌≡◌, refl, sym, ap, ◌∙◌, ◌≢◌, true, false, arith, ◌⊎◌, inl, inr, List, [], ◌∷◌,
  ◌++◌, length, length-append, differ, same,
}
use sistemas_operacionais.Base.Int.{ℤ, pos, negsuc, neg_part, increment, decrement, ltb_ℤ}
use sistemas_operacionais.Queue.{no_error, error}
use sistemas_operacionais.Queue.View
use sistemas_operacionais.Queue.View.{View, items, view}
use sistemas_operacionais.Queue.Members.{mem, items-push}
use sistemas_operacionais.Kernel.{
  Ptr, null, task_kernel, ready, suspended, is_status, Kernel, Tcb, at_suspended,
}
use sistemas_operacionais.Dispatcher.{awake, done}
use sistemas_operacionais.Dispatcher.Consistent.{IsConsistent}
use sistemas_operacionais.Dispatcher.Steps.{ParkedAt, suspend-keeps}
use sistemas_operacionais.Dispatcher.Wake.{roused, awake-keeps}
use sistemas_operacionais.Dispatcher.WakeLoop.{awake-nothing}
use sistemas_operacionais.Semaphore.{
  Semaphore, returned, waiting, spin_lock, spin_unlock, down, down_suspend, down_resume, up, drop,
}

-- Unlocked, not destroyed, and a negative value counts the waiting tasks.
pub record IsOpen (s : Semaphore) : Type 0 where
  pub unlocked : s.lock ≡ 0
  pub alive : s.destroy ≡ 0
  pub balance : length (items s.wait_queue) ≡ neg_part s.value

-- The semaphore with another value and queue.
abbrev pub with : ℤ → View Ptr → Semaphore → Semaphore
with v q s = record { lock = 0; wait_queue = q; value = v; destroy = s.destroy }

pub down-passes :
    (s : Semaphore) (k : Kernel) (n : ℕ)
    → IsOpen s
    → s.value ≡ pos (suc n)
    → down s k ≡ returned no_error (with (pos n) s.wait_queue s) k
unfolding down spin_lock spin_unlock
down-passes s k n o e =
    let positive : ltb_ℤ (pos n) (pos 0) ≡ false = ground arith in
    rw (down, o.unlocked, o.alive, e, positive)

pub down-waits :
    (s : Semaphore) (k : Kernel) (m : ℕ)
    → IsOpen s
    → decrement s.value ≡ negsuc m
    → down s k ≡ waiting (with (negsuc m) (View.push k.current s.wait_queue) s) k
unfolding down spin_lock spin_unlock
down-waits s k m o e =
    let negative : ltb_ℤ (negsuc m) (pos 0) ≡ true = ground arith in
    rw (down, o.unlocked, o.alive, e, negative)

pub decrement-neg :
    (v : ℤ)
    → ((n : ℕ) × (v ≡ pos (suc n))) ⊎ ((m : ℕ) × (decrement v ≡ negsuc m) × (m ≡ neg_part v))
decrement-neg (pos zero) = inr (0, refl, refl)
decrement-neg (pos (suc n)) = inl (n, refl)
decrement-neg (negsuc m) = inr (suc m, refl, refl)

pub length-push :
    (p : Ptr) (v : View Ptr) (n : ℕ) → length (items v) ≡ n → length (items (View.push p v)) ≡ suc n
length-push p v n e = rw (items-push p v, length-append, e) (omega arith)

-- `sem_down` on an open semaphore: either the value is positive and falls by one, and neither the
-- semaphore's queue nor the kernel changes; or the current task goes to the end of the semaphore's
-- queue. In both cases the semaphore stays open. When that task, a user task, comes to the call of
-- `task_suspend`, in whatever consistent kernel `k'` it then runs, it is the last of the suspended
-- queue with that status, nothing else moves, and the kernel has the processor and is consistent.
pub down_lem :
    (s : Semaphore) (k k' : Kernel)
    → IsOpen s
    → IsConsistent k'
    → k'.current ≡ k.current
    → k.current ≢ task_kernel
    → ((n : ℕ) × (s.value ≡ pos (suc n))
        × (s' : Semaphore) × (down s k ≡ returned no_error s' k)
        × IsOpen s'
        × (s'.value ≡ pos n)
        × (s'.wait_queue ≡ s.wait_queue))
      ⊎ ((s' : Semaphore) × (down s k ≡ waiting s' k)
          × IsOpen s'
          × (s'.value ≡ decrement s.value)
          × (items s'.wait_queue ≡ items s.wait_queue ++ (k.current ∷ []))
          × ParkedAt k'
              (down_suspend k')
              at_suspended
              (record (k'.tcb k'.current) { status = suspended }))
unfolding down_suspend
down_lem s k k' o ok same_task user = elim (decrement-neg s.value) [
  | inl (n, e) ↦ inl (
    n,
    e,
    with (pos n) s.wait_queue s,
    down-passes s k n o e,
    record { unlocked = refl; alive = o.alive; balance = o.balance ∙ ap neg_part e },
    refl,
    refl,
  )
  | inr (m, e, n) ↦ inr (
    with (negsuc m) (View.push k.current s.wait_queue) s,
    down-waits s k m o e,
    record {
      unlocked = refl;
      alive = o.alive;
      balance = length-push k.current s.wait_queue m (o.balance ∙ sym n);
    },
    sym e,
    items-push k.current s.wait_queue,
    suspend-keeps k' ok (λ z. user (sym same_task ∙ z)),
  )
]

-- What `sem_up` finds and leaves at the head of the queue.
drop-head : (p : Ptr) (rest : List Ptr) → drop p (view [] (p ∷ rest)) ≡ view [] rest
unfolding drop View.remove
drop-head p rest = rw (same p p)

pub up-roused :
    (s : Semaphore) (k : Kernel) (p : Ptr) (rest : List Ptr)
    → IsOpen s
    → items s.wait_queue ≡ p ∷ rest
    → p ≢ null
    → awake p k ≡ done (roused false p k)
    → up s k ≡ returned no_error (with (increment s.value) (view [] rest) s) (roused false p k)
unfolding up spin_lock spin_unlock View.rewind View.current
up-roused s k p rest o e ne a =
    rw (up, o.unlocked, o.alive, e, differ p null ne, drop-head p rest, a)

pub increment-length : (v : ℤ) (n : ℕ) → suc n ≡ neg_part v → n ≡ neg_part (increment v)
increment-length (pos m) n e = omega (arith, e)
increment-length (negsuc zero) n e = omega (arith, e)
increment-length (negsuc (suc m)) n e = omega (arith, e)

-- In a consistent kernel `sem_up` on an open semaphore whose first waiting task, not NULL, is in
-- the suspended queue with that status returns without error, takes that task off the semaphore's queue and puts it
-- at the end of the ready queue, and leaves the semaphore open and the kernel consistent.
pub up-wakes :
    (s : Semaphore) (k : Kernel) (p : Ptr) (rest : List Ptr)
    → IsOpen s
    → IsConsistent k
    → items s.wait_queue ≡ p ∷ rest
    → p ≢ null
    → (k.tcb p).status ≡ suspended
    → mem p (items k.suspended_queue) ≡ true
    → (s' : Semaphore) × (up s k ≡ returned no_error s' (roused false p k))
      × IsOpen s'
      × (items s'.wait_queue ≡ rest)
      × IsConsistent (roused false p k)
      × (items (roused false p k).ready_queue ≡ items k.ready_queue ++ (p ∷ []))
      × (((roused false p k).tcb p).status ≡ ready)
up-wakes s k p rest o ok e ne suspends i =
    let (a, ok', last, is_ready, _) = awake-keeps false p k ok ne suspends i in
    (
      with (increment s.value) (view [] rest) s,
      up-roused s k p rest o e ne a,
      record {
        unlocked = refl;
        alive = o.alive;
        balance = increment-length s.value (length rest) (ap length (sym e) ∙ o.balance);
      },
      refl,
      ok',
      last,
      is_ready,
    )

up-unready :
    (s : Semaphore) (k : Kernel) (p : Ptr) (rest : List Ptr)
    → IsOpen s
    → items s.wait_queue ≡ p ∷ rest
    → p ≢ null
    → is_status (k.tcb p).status suspended ≡ false
    → up s k ≡ returned no_error (with (increment s.value) (view [] rest) s) k
unfolding up spin_lock spin_unlock View.rewind View.current
up-unready s k p rest o e ne other =
    rw (up, o.unlocked, o.alive, e, differ p null ne, drop-head p rest, awake-nothing p k ne other)

-- A wake-up is lost when the timer gives the processor away between the `spin_unlock` and the
-- `task_suspend` of `sem_down`: at an open semaphore of value zero the task, not NULL, goes to the
-- queue; a `sem_up` in a kernel where the task is ready takes it off the queue again, does not change
-- the kernel, and leaves the value zero; and when the task goes on, in a consistent kernel, it is
-- suspended, with nobody waiting at the semaphore for the next `sem_up` to wake.
pub lost_wake_up :
    (s : Semaphore) (k k1 k2 : Kernel)
    → IsOpen s
    → s.value ≡ pos 0
    → k.current ≢ null
    → k.current ≢ task_kernel
    → (k1.tcb k.current).status ≡ ready
    → IsConsistent k2
    → k2.current ≡ k.current
    → (s1 s2 : Semaphore) × (down s k ≡ waiting s1 k)
      × (up s1 k1 ≡ returned no_error s2 k1)
      × (items s2.wait_queue ≡ [])
      × (s2.value ≡ pos 0)
      × (((down_suspend k2).tcb k.current).status ≡ suspended)
unfolding down_suspend
lost_wake_up s k k1 k2 o zero_value ne user is_ready ok same_task =
    let s1 : Semaphore = with (negsuc 0) (View.push k.current s.wait_queue) s in
    let queue : items (View.push k.current s.wait_queue) ≡ k.current ∷ [] =
      items-push k.current s.wait_queue
      ∙ ap (λ xs. xs ++ (k.current ∷ []))
          (none_left (items s.wait_queue) (o.balance ∙ ap neg_part zero_value)) in
    let open1 : IsOpen s1 = record {
      unlocked = refl;
      alive = o.alive;
      balance = ap length queue;
    } in
    let parked = suspend-keeps k2 ok (λ z. user (sym same_task ∙ z)) in
    (
      s1,
      with (pos 0) (view [] []) s1,
      down-waits s k 0 o (ap decrement zero_value),
      up-unready s1 k1 k.current [] open1 queue ne (ap (λ z. is_status z suspended) is_ready),
      refl,
      refl,
      ap (λ z. ((down_suspend k2).tcb z).status) (sym same_task)
          ∙ ap (λ (t : Tcb). t.status) parked.self,
    )
  where
    none_left : (xs : List Ptr) → length xs ≡ 0 → xs ≡ []
    none_left [] e = refl
    none_left (x ∷ xs) e = absurd (omega (arith, e))

-- Once a semaphore is destroyed, and unlocked, `sem_down` and `sem_up` are errors that change
-- nothing, and a task that comes back from its wait in `sem_down` gives its unit back and gets an
-- error too.
pub destroyed_error :
    (s : Semaphore) (k : Kernel)
    → s.lock ≡ 0
    → s.destroy ≡ 1
    → (down s k ≡ returned error (with s.value s.wait_queue s) k)
      × (up s k ≡ returned error (with s.value s.wait_queue s) k)
      × (down_resume s k ≡ returned error (with (increment s.value) s.wait_queue s) k)
unfolding down up down_resume spin_lock spin_unlock
destroyed_error s k unlocked gone =
    (rw (down, unlocked, gone), rw (up, unlocked, gone), rw (down_resume, unlocked, gone))

pub up-empty :
    (s : Semaphore) (k : Kernel)
    → IsOpen s
    → items s.wait_queue ≡ []
    → up s k ≡ returned no_error (with (increment s.value) (view [] []) s) k
unfolding up spin_lock spin_unlock View.rewind View.current awake
up-empty s k o e = rw (up, o.unlocked, o.alive, e)

-- What a `sem_up` with nobody waiting adds, the next `sem_down` takes: the value is as it was, and
-- the caller is not suspended.
pub up-down :
    (s : Semaphore) (k : Kernel)
    → IsOpen s
    → items s.wait_queue ≡ []
    → (s' s'' : Semaphore) × (up s k ≡ returned no_error s' k)
      × IsOpen s'
      × (down s' k ≡ returned no_error s'' k)
      × IsOpen s''
      × (s''.value ≡ s.value)
up-down s k o e =
    let (n, up_value, value) = increment-positive s.value (sym o.balance ∙ ap length e) in
    let s' : Semaphore = with (increment s.value) (view [] []) s in
    let is_open : IsOpen s' = record {
      unlocked = refl;
      alive = o.alive;
      balance = sym (ap neg_part up_value);
    } in
    (
      s',
      with (pos n) (view [] []) s',
      up-empty s k o e,
      is_open,
      down-passes s' k n is_open up_value,
      record { unlocked = refl; alive = o.alive; balance = refl },
      sym value,
    )
  where
    increment-positive :
        (v : ℤ) → neg_part v ≡ 0 → (n : ℕ) × (increment v ≡ pos (suc n)) × (v ≡ pos n)
    increment-positive (pos n) h = (n, refl, refl)
    increment-positive (negsuc n) h = absurd (omega (arith, h))
