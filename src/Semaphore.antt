-- ===== src/Semaphore.antt =====
-- kernel/semaphore.c, one call at a time. The `xchgl` loop of `spin_lock` returns only if the
-- lock is free, and else spins until another task is let run (`spinning`).
pub mod Balance
use sistemas_operacionais.Base.{
  ℕ, zero, suc, Bool, Option, none, some, ◌==◌, if◌then◌else◌, ◌⊎◌, inl, inr,
}
use sistemas_operacionais.Base.Int.{ℤ, pos, increment, decrement, ltb_ℤ}
use sistemas_operacionais.Queue.{Status, no_error, error}
use sistemas_operacionais.Queue.Members.{is_task}
use sistemas_operacionais.Queue.View
use sistemas_operacionais.Queue.View.{View, empty, any, items}
use sistemas_operacionais.Kernel.{Ptr, null, Kernel, at_suspended}
use sistemas_operacionais.Dispatcher.{Outcome, done, abort, out_of_fuel, task_of, suspend, awake}

-- `struct semaphore_t`
pub record Semaphore : Type 0 where
  pub lock : ℕ
  pub wait_queue : View Ptr
  pub value : ℤ
  pub destroy : ℕ

-- How a call ends.
pub data Result : Type 0 where
  returned : Status → Semaphore → Kernel → Result
  waiting : Semaphore → Kernel → Result  -- before `task_suspend`
  spinning : Result  -- in `spin_lock`
  failed : Result  -- at an assertion of `task_awake`
  unfinished : Result  -- with no fuel left

-- `spin_lock`: the exchange puts 1 there, and the loop ends if it was 0.
unfoldable pub spin_lock : Semaphore → Option Semaphore
spin_lock s = if s.lock == 0 then some (record s { lock = 1 }) else none

-- `spin_unlock`
unfoldable pub spin_unlock : Semaphore → Semaphore
spin_unlock s = record s { lock = 0 }

abbrev pub locked : Semaphore → (Semaphore → Result) → Result
locked s f = elim (spin_lock s) [ none ↦ spinning | some s' ↦ f s' ]

-- `sem_create`; the flags say whether the two allocations succeed.
unfoldable pub create : (semaphore queue : Bool) → ℤ → Option Semaphore
create semaphore queue value =
    if ltb_ℤ value (pos 0)
    then none
    else if semaphore
    then (if queue
        then some (record { lock = 0; wait_queue = empty; value = value; destroy = 0 })
        else none)
    else none

-- `sem_down` up to `spin_unlock` and, for a task that waits, up to the call of `task_suspend`, at a
-- semaphore that is not NULL. The timer may run other tasks before that call, `down_suspend`.
unfoldable pub down : Semaphore → Kernel → Result
unfolding spin_lock spin_unlock View.push
down s k = locked s λ s1.
    if s1.destroy == 1
    then returned error (spin_unlock s1) k
    else (let s2 : Semaphore = record s1 { value = decrement s1.value } in
        if ltb_ℤ s2.value (pos 0)
        then waiting (spin_unlock (record s2 { wait_queue = View.push k.current s2.wait_queue })) k
        else returned no_error (spin_unlock s2) k)

-- The `task_suspend` of `sem_down`.
unfoldable pub down_suspend : Kernel → Kernel
unfolding suspend
down_suspend k = suspend at_suspended k

-- `sem_down` after `task_suspend`.
unfoldable pub down_resume : Semaphore → Kernel → Result
unfolding spin_lock spin_unlock
down_resume s k = locked s λ s1.
    if s1.destroy == 1
    then returned error (spin_unlock (record s1 { value = increment s1.value })) k
    else returned no_error (spin_unlock s1) k

-- `queue_del` on the queue of waiting tasks.
unfoldable pub drop : Ptr → View Ptr → View Ptr
unfolding View.remove
drop p v = if any (is_task p) (items v) then View.remove (is_task p) v else v

abbrev pub woken : Outcome → Semaphore → (Kernel → Result) → Result
woken (done k) s f = f k
woken abort s f = failed
woken out_of_fuel s f = unfinished

-- `sem_up`, at a semaphore that is not NULL.
unfoldable pub up : Semaphore → Kernel → Result
unfolding spin_lock spin_unlock View.rewind View.current drop
up s k = locked s λ s1.
    if s1.destroy == 1
    then returned error (spin_unlock s1) k
    else (let queue : View Ptr = View.rewind s1.wait_queue in
        let task : Ptr = task_of (View.current queue) in
        let s2 : Semaphore = record s1 {
          value = increment s1.value;
          wait_queue = if task == null then queue else drop task queue;
        } in
        woken (awake task k) (spin_unlock s2) λ k'. returned no_error (spin_unlock s2) k')

-- The loop of `sem_destroy`.
pub destroy_loop : ℕ → (task : Ptr) → Semaphore → Kernel → Result
destroy_loop zero task s k = unfinished
destroy_loop (suc fuel) task s k =
    if task == null
    then returned no_error s k
    else locked s λ s1. woken (awake task k) s1 λ k'.
      let queue : View Ptr = View.rewind (drop task s1.wait_queue) in
      destroy_loop fuel (task_of (View.current queue))
        (spin_unlock (record s1 { wait_queue = queue })) k'

-- `sem_destroy`, at a semaphore that is not NULL.
unfoldable pub destroy : Semaphore → Kernel → Result
unfolding spin_lock spin_unlock View.rewind View.current View.count
destroy s k = locked s λ s1.
    let queue : View Ptr = View.rewind s1.wait_queue in
    destroy_loop (suc (View.count queue)) (task_of (View.current queue))
      (spin_unlock (record s1 { destroy = 1; wait_queue = queue })) k

-- The calls of kernel/semaphore.h, with NULL for `none`.
abbrev pub Call : Type 0
Call = Semaphore → Kernel → Result

unfoldable pub at_pointer : Call → Option Semaphore → Kernel → Status ⊎ Result
at_pointer call none k = inl error
at_pointer call (some s) k = inr (call s k)
