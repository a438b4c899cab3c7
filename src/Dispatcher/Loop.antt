-- ===== src/Dispatcher/Loop.antt =====
-- `dispatcher_init` and `dispatcher` of kernel/dispatcher.c around the turns of the tasks.
use sistemas_operacionais.Base.{Bool, ◌&&◌, ◌==◌, Option, none, some, if◌then◌else◌}
use sistemas_operacionais.Base.Int.{pos}
use sistemas_operacionais.Queue.View.{empty}
use sistemas_operacionais.Kernel.{Ptr, null, Kernel}
use sistemas_operacionais.Task.{create}
use sistemas_operacionais.Dispatcher.{
  Outcome, done, abort, then_do, check_returned, wake_sleepers, exit,
}
use sistemas_operacionais.Dispatcher.History.{History}

-- `dispatcher_init`, by whether each `queue_create` has its memory.
unfoldable pub init : (ready suspended sleeping finished : Bool) → Kernel → Outcome
init ready suspended sleeping finished k =
    if ready && (suspended && (sleeping && finished))
    then done (record k {
      ready_queue = empty;
      suspended_queue = empty;
      sleeping_queue = empty;
      finished_queue = empty;
    })
    else abort

-- `dispatcher` up to its loop: `user_main` becomes a task.
unfoldable pub enter : (task stack name : Ptr) → Kernel → Outcome
unfolding create
enter task stack name k =
    let (user, k1) = create task stack name k in if user == null then abort else done k1

-- The rest of a round of the loop, when the processor is back, for the task that the scheduler
-- chose if it did.
unfoldable pub round_end : Option Ptr → Kernel → Outcome
unfolding check_returned wake_sleepers
round_end none k = wake_sleepers k
round_end (some task) k = then_do (check_returned task k) wake_sleepers

-- `dispatcher` behind its loop; `task_destroy` gives memory back, outside this state.
unfoldable pub stop : Kernel → Outcome
unfolding exit
stop k = exit (pos 0) (record k {
  ready_queue = empty;
  suspended_queue = empty;
  sleeping_queue = empty;
  finished_queue = empty;
})
