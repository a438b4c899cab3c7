-- ===== src/Kernel.antt =====
-- The state that the kernel's parts share: the task control blocks of kernel/tcb.h at their
-- addresses, the queues and globals of kernel/task.c, kernel/dispatcher.c and kernel/time.c.
-- The kernel calls a queue only through lib/queue.h, so a queue is here the view that its
-- operations refine (`Queue`), an item of which is a task's address.
use sistemas_operacionais.Base.{ℕ, Bool, true, false, ◌==◌, if◌then◌else◌}
use sistemas_operacionais.Base.Int.{ℤ, pos}
use sistemas_operacionais.Queue.View.{View, empty}

-- The address of a task control block; 0 is NULL and 1 stands for `&task_kernel`.
abbrev pub Ptr : Type 0
Ptr = ℕ

abbrev pub null : Ptr
null = 0

abbrev pub task_kernel : Ptr
task_kernel = 1

-- The `status` of a task.
pub data TaskStatus : Type 0 where
  ready running suspended finished : TaskStatus

-- `struct task_t`. The saved registers of `context` are those of kernel/ctx.s and stay there; of
-- it only the address of the stack is kept.
pub record Tcb : Type 0 where
  pub id : ℕ
  pub name : Ptr
  pub stack : Ptr
  pub status : TaskStatus
  pub parent : Ptr
  pub static_priority : ℤ
  pub dynamic_priority : ℤ
  pub creation_time : ℕ
  pub execution_time : ℤ
  pub remaining_quantum_time : ℤ
  pub number_of_activations : ℕ
  pub target_to_wait : ℕ
  pub target_exit_code : ℤ
  pub exit_code : ℤ
  pub sleeping : Bool
  pub wake_up_time : ℤ

pub record Kernel : Type 0 where
  pub tcb : Ptr → Tcb
  pub ready_queue : View Ptr
  pub suspended_queue : View Ptr
  pub sleeping_queue : View Ptr
  pub finished_queue : View Ptr
  pub current : Ptr  -- `current_active_task`
  pub last_id : ℕ  -- `current_task_id`
  pub clock : ℕ
  pub task_disk_handler : Ptr  -- of kernel/block.c

-- `QUANTUM`
abbrev pub quantum : ℕ
quantum = 10

-- The global queue that a pointer designates.
pub data Place : Type 0 where
  at_ready at_suspended at_sleeping at_finished : Place

abbrev pub queue_of : Place → Kernel → View Ptr
queue_of at_ready k = k.ready_queue
queue_of at_suspended k = k.suspended_queue
queue_of at_sleeping k = k.sleeping_queue
queue_of at_finished k = k.finished_queue

abbrev pub set_queue : Place → View Ptr → Kernel → Kernel
set_queue at_ready v k = record k { ready_queue = v }
set_queue at_suspended v k = record k { suspended_queue = v }
set_queue at_sleeping v k = record k { sleeping_queue = v }
set_queue at_finished v k = record k { finished_queue = v }

-- The task at `p` gets the fields `t`.
abbrev pub put : (Ptr → Tcb) → Ptr → Tcb → Ptr → Tcb
put f p t q = if q == p then t else f q

abbrev pub set_task : Ptr → Tcb → Kernel → Kernel
set_task p t k = record k { tcb = put k.tcb p t }

-- `status == s`
abbrev pub is_status : TaskStatus → TaskStatus → Bool
is_status ready ready = true
is_status running running = true
is_status suspended suspended = true
is_status finished finished = true
is_status _ _ = false

-- A `struct task_t` that is all zero, which is what a compound literal leaves in fields it does
-- not name.
abbrev pub zero_tcb : Tcb
zero_tcb = record {
  id = 0;
  name = null;
  stack = null;
  status = ready;
  parent = null;
  static_priority = pos 0;
  dynamic_priority = pos 0;
  creation_time = 0;
  execution_time = pos 0;
  remaining_quantum_time = pos 0;
  number_of_activations = 0;
  target_to_wait = 0;
  target_exit_code = pos 0;
  exit_code = pos 0;
  sleeping = false;
  wake_up_time = pos 0;
}

-- The static initialisers of kernel/task.c, the clock of kernel/time.c at zero, and the queues
-- that `dispatcher_init` creates.
abbrev pub boot : (name : Ptr) → Kernel
boot name = record {
  tcb =
      put (λ _. zero_tcb) task_kernel
        (record zero_tcb {
          name = name;
          remaining_quantum_time = pos quantum;
          number_of_activations = 1;
        });
  ready_queue = empty;
  suspended_queue = empty;
  sleeping_queue = empty;
  finished_queue = empty;
  current = task_kernel;
  last_id = 0;
  clock = 0;
  task_disk_handler = null;
}
