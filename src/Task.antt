-- ===== src/Task.antt =====
-- kernel/task.c. `ctx_create` and `ctx_swap` act on saved registers only (kernel/ctx.s), so a
-- switch is the change of `current_active_task`: the state in which the other task goes on.
-- What `mem_alloc` returns for a descriptor and for its stack is an argument.
pub mod Storage
use sistemas_operacionais.Base.{ℕ, ◌+◌, ◌==◌, if◌then◌else◌}
use sistemas_operacionais.Base.Int.{pos}
use sistemas_operacionais.Queue.{Status, no_error, error}
use sistemas_operacionais.Queue.View
use sistemas_operacionais.Kernel.{
  Ptr, null, task_kernel, Kernel, finished, ready, is_status, put, zero_tcb,
}

-- `systime`
unfoldable pub systime : Kernel → ℕ
systime k = k.clock

-- `task_init`
unfoldable pub init : Kernel → Kernel
unfolding systime
init k = record k {
  tcb = put k.tcb task_kernel (record (k.tcb task_kernel) { creation_time = systime k });
}

-- `task_create` once both allocations have succeeded.
unfoldable pub spawn : (task stack name : Ptr) → Kernel → Kernel
unfolding systime View.push
spawn task stack name k =
    let id : ℕ = k.last_id + 1 in
    record k {
      last_id = id;
      tcb = put k.tcb task (record zero_tcb {
        name = name;
        id = id;
        stack = stack;
        status = ready;
        parent = k.current;
        creation_time = systime k;
        execution_time = pos 0;
      });
      ready_queue = View.push task k.ready_queue;
    }

-- `task_create`; the stack of a failed second allocation is given back by `mem_free`, outside
-- this state.
unfoldable pub create : (new_task new_stack name : Ptr) → Kernel → Ptr × Kernel
unfolding spawn
create new_task new_stack name k =
    if new_task == null
    then (null, k)
    else if new_stack == null
    then (null, k)
    else (new_task, spawn new_task new_stack name k)

-- `task_switch`
unfoldable pub switch_to : Ptr → Kernel → Status × Kernel
switch_to task k =
    if task == null
    then (if (k.tcb k.current).id == 0
        then (error, k)
        else (no_error, record k { current = (k.tcb k.current).parent }))
    else (if is_status (k.tcb task).status finished
        then (no_error, k)
        else (no_error, record k { current = task }))

-- `task_id`
unfoldable pub id_of : Ptr → Kernel → ℕ
id_of task k = if task == null then (k.tcb k.current).id else (k.tcb task).id

-- `task_name`
unfoldable pub name_of : Ptr → Kernel → Ptr
name_of task k = if task == null then (k.tcb k.current).name else (k.tcb task).name
