-- ===== src/Tests/Rounds.antt =====
-- The kernel from the first choice of the dispatcher on, and one in which two tasks sleep.
use sistemas_operacionais.Base.{◌≡◌, refl, sym, ◌∙◌, ◌≢◌, true, [], ◌∷◌, arith}
use sistemas_operacionais.Base.Int.{pos}
use sistemas_operacionais.Queue.View.{view, items}
use sistemas_operacionais.Kernel.{task_kernel, suspended, Kernel, boot, put, zero_tcb}
use sistemas_operacionais.Dispatcher.{yield_cpu, dispatch}
use sistemas_operacionais.Task.{spawn}
use sistemas_operacionais.Disk.{Disk, unknown, read}
use sistemas_operacionais.Block.{Manager, install}
use sistemas_operacionais.Block.Requests.{block_init-installed, create-spawned, made}
use sistemas_operacionais.Dispatcher.Opening.{Opened, Opened-IsConsistent}
use sistemas_operacionais.Queue.View
use sistemas_operacionais.Scheduler.{select_loop, consider}
use sistemas_operacionais.Dispatcher.History.{
  History, starts, goes_on, dispatches, yields, History-IsConsistent,
}
use sistemas_operacionais.Dispatcher.Present.{present}
use sistemas_operacionais.Dispatcher.Kept.{now, later, Later-present}
use sistemas_operacionais.Dispatcher.Consistent.{IsConsistent}

-- The kernel behind `block_init`, with the manager's task at 50, and with that of `user_main` at 40;
-- then the manager has run and has yielded.
abbrev disk : Disk
disk = record {
  status = unknown;
  image = λ _. 0;
  numblocks = 0;
  blocksize = 0;
  buffer = 0;
  prev_block = 0;
  next_block = 0;
  delay_lo = 0;
  delay_hi = 0;
  time_ms = 0;
}

abbrev before : Manager
before = record {
  kernel = boot 0;
  disk = disk;
  requests = View.empty;
  request = λ _. record { task = 0; block = pos 0; buffer = 0; type = read; return_value = pos 0 };
}

abbrev between : Manager
between = install 50 (made (λ _. 0) 640 disk) (spawn 50 60 70 (boot 0)) before

abbrev opening : Kernel
opening = spawn 40 80 90 between.kernel

opening-Opened : Opened 50 40 opening
opening-Opened = record {
  name = 0;
  stack = 60;
  disk_name = 70;
  user_stack = 80;
  user_name = 90;
  image = λ _. 0;
  bytes = 640;
  before = before;
  between = between;
  off = refl;
  manager = omega arith;
  manager_stack = omega arith;
  manager_apart = omega arith;
  user = omega arith;
  user_stack_set = omega arith;
  user_apart = omega arith;
  apart = omega arith;
  starts_disk = block_init-installed (λ _. 0) 640 50 60 70 before refl (omega arith) (omega arith);
  creates_user = create-spawned 40 80 90 between.kernel (omega arith) (omega arith);
}

abbrev one_task : Kernel
one_task = yield_cpu (dispatch opening)

dispatch-opening : (dispatch opening).current ≢ task_kernel
dispatch-opening =
    let e = (Opened-IsConsistent 50 40 opening opening-Opened).1 in λ h. absurd (fifty (sym e ∙ h))
  where
    fifty : 50 ≡ task_kernel → ⊥
    fifty h = omega (arith, h)

one_task-History : History one_task
one_task-History = goes_on (starts 50 40 opening-Opened) (yields dispatch-opening)

one_task-ready : items one_task.ready_queue ≡ 40 ∷ 50 ∷ []
unfolding yield_cpu dispatch spawn install select_loop consider
one_task-ready = refl

one_task-kernel : one_task.current ≡ task_kernel
unfolding yield_cpu dispatch spawn install select_loop consider
one_task-kernel = refl

History-IsConsistent_example : IsConsistent (dispatch one_task)
History-IsConsistent_example =
    History-IsConsistent (dispatch one_task)
      (goes_on one_task-History (dispatches 40 (50 ∷ []) one_task-ready refl one_task-kernel))

-- The task at 30 sleeps until 5, the one at 40 until 50, and it is 10.
abbrev two_sleepers : Kernel
two_sleepers = record (boot 0) {
  tcb =
      put
        (put (boot 0).tcb 30
          (record zero_tcb { id = 3; status = suspended; sleeping = true; wake_up_time = pos 5 }))
        40 (record zero_tcb { id = 4; status = suspended; sleeping = true; wake_up_time = pos 50 });
  suspended_queue = view [] (50 ∷ []);
  sleeping_queue = view [] (30 ∷ 40 ∷ []);
  task_disk_handler = 50;
  clock = 10;
}

one_task-present : present 40 one_task ≡ true
unfolding yield_cpu dispatch spawn install select_loop consider
one_task-present = refl

Later-present_example : present 40 (dispatch one_task) ≡ true
Later-present_example =
    Later-present one_task (dispatch one_task) 40 one_task-History
      (later now (dispatches 40 (50 ∷ []) one_task-ready refl one_task-kernel)) (omega arith)
      one_task-present
