-- ===== src/Task/Storage.antt =====
-- The memory of a task in kernel/task.c: what `task_create` asks of the allocator and
-- `task_destroy` gives back, on the heap of kernel/memory.c.
use sistemas_operacionais.Base.{ℕ, ◌*◌, ◌==◌, if◌then◌else◌}
use sistemas_operacionais.Base.Int.{pos}
use sistemas_operacionais.Memory.{
  Ptr, null, Heap, Run, ok, ◌>>=◌, Status, no_error, error, alloc, free,
}

-- `TASK_STACK_SIZE`
abbrev pub stack_size : ℕ
stack_size = 4 * 1024

-- The two allocations of `task_create`, with the size of a `struct task_t`: the task and its
-- stack, both NULL where the function returns NULL.
unfoldable pub allocate : (fuel task_size : ℕ) → Heap → Run (Ptr × Ptr × Heap)
unfolding alloc free
allocate fuel task_size m = alloc fuel (pos task_size) m >>= λ r.
    if r.0 == null
    then ok (null, null, r.1)
    else (alloc fuel (pos stack_size) r.1 >>= λ s.
        if s.0 == null
        then (free fuel r.0 s.1 >>= λ f. ok (null, null, f.1))
        else ok (r.0, s.0, s.1))

-- `task_destroy`, with the stack that the task's context names.
unfoldable pub destroy : (fuel : ℕ) (task stack : Ptr) → Heap → Run (Status × Heap)
unfolding free
destroy fuel task stack m =
    if task == null
    then ok (error, m)
    else (free fuel stack m >>= λ r. free fuel task r.1 >>= λ s. ok (no_error, s.1))
