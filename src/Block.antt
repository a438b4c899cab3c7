-- ===== src/Block.antt =====
-- kernel/block.c: the disk manager, a task that hands the requests of other tasks to the disk one
-- at a time. Its loop is cut where it gives the processor away. The random number of each command
-- and what a local variable holds before it is set are arguments.
pub mod Requests
pub mod Transfers
use sistemas_operacionais.Base.{
  ℕ, zero, suc, Bool, true, false, Option, none, some, ◌==◌, if◌then◌else◌,
}
use sistemas_operacionais.Base.Int.{ℤ, pos, negsuc, eqb_ℤ}
use sistemas_operacionais.Queue.{Status}
use sistemas_operacionais.Queue.Members.{is_task}
use sistemas_operacionais.Queue.View
use sistemas_operacionais.Queue.View.{View, empty}
use sistemas_operacionais.Kernel.{Ptr, null, Kernel, suspended, at_suspended, set_task}
use sistemas_operacionais.Task.{create}
use sistemas_operacionais.Dispatcher.{
  Outcome, done, abort, out_of_fuel, then_do, queue_add, yield_cpu, suspend, awake,
}
use sistemas_operacionais.Buffer.{Bytes}
use sistemas_operacionais.Semaphore.{drop}
use sistemas_operacionais.Disk.{
  Disk, DiskStatus, unknown, idle, reading, writing, Command, init, read, write, disk_size,
  block_size, command, error,
}

-- `struct request`
pub record Request : Type 0 where
  pub task : Ptr
  pub block : ℤ
  pub buffer : ℕ
  pub type : Command
  pub return_value : ℤ

-- `requests`, the kernel, with `task_disk_handler` in it, the disk, and the requests at their
-- addresses.
pub record Manager : Type 0 where
  pub kernel : Kernel
  pub disk : Disk
  pub requests : View Ptr
  pub request : Ptr → Request

abbrev pub set_request : Ptr → Request → Manager → Manager
set_request p r s = record s { request = λ q. if q == p then r else s.request q }

-- Where `disk_manager` gives the processor away: it has ended; it yields or is suspended, and goes
-- on at the start of its loop; or it is suspended behind the command for the request at an
-- address, and goes on with `served`.
pub data Pause : Type 0 where
  ended : Pause
  yields suspends : Manager → Pause
  serves : Ptr → Manager → Pause

abbrev pub no_bytes : Bytes
no_bytes _ = 0

-- `hw_disk_cmd` for a request.
unfoldable pub submit : (random : ℕ) → Request → Disk → ℤ × Disk
unfolding command
submit random r d = command no_bytes 0 random r.type r.block r.buffer d

-- `queue_head(requests)` at the start of `disk_manager`
unfoldable pub rewind : Manager → Manager
unfolding View.rewind
rewind s = record s { requests = View.rewind s.requests }

-- One round of the loop of `disk_manager` at the disk's status and the current request, up to
-- where it gives the processor away.
unfoldable pub round_at : (random : ℕ) → DiskStatus → Option Ptr → Manager → Pause
unfolding submit
round_at random unknown request s = ended
round_at random idle none s = yields (record s { kernel = yield_cpu s.kernel })
round_at random idle (some p) s =
    let (value, d) = submit random (s.request p) s.disk in
    serves p (
      set_request p (record (s.request p) { return_value = value })
        (record s { disk = d; kernel = suspend at_suspended s.kernel }))
round_at random _ request s = suspends (record s { kernel = suspend at_suspended s.kernel })

unfoldable pub round : (random : ℕ) → Manager → Pause
unfolding round_at View.current
round random s = round_at random s.disk.status (View.current s.requests) s

-- The rest of the round behind `task_suspend`: the task of the request is woken and the request
-- deleted; `none` is a failed assertion of `task_awake`.
unfoldable pub served : Ptr → Manager → Option Manager
unfolding drop
served p s = elim (awake (s.request p).task s.kernel) [
  | done k ↦ some (record s { kernel = k; requests = drop p s.requests })
  | _ ↦ none
]

-- `handle_disk_signal`
unfoldable pub handle_disk_signal : Manager → Outcome
handle_disk_signal s = awake s.kernel.task_disk_handler s.kernel

-- What `block_init` leaves behind `task_create`.
unfoldable pub install : (handler : Ptr) → Disk → Kernel → Manager → Manager
unfolding queue_add
install handler d k s =
    let k1 : Kernel = queue_add at_suspended handler k in
    record s {
      disk = d;
      requests = empty;
      kernel =
          set_task handler (record (k1.tcb handler) { status = suspended })
            (record k1 { task_disk_handler = handler });
    }

-- `block_init` behind `hw_irq_handle`, where the image opens and the task is made at `task`;
-- `none` is a failed assertion.
unfoldable pub block_init :
    (image : Bytes) (bytes : ℕ) (task stack name : Ptr) → Manager → Option Manager
unfolding command install
block_init image bytes task stack name s =
    let (value, d) = command image bytes 0 init (pos 0) 0 s.disk in
    if eqb_ℤ value (pos 0)
    then (let (handler, k) = create task stack name s.kernel in
        if handler == null then none else some (install handler d k s))
    else none

-- `block_size` and `block_blocks`
unfoldable pub size : Manager → ℤ
unfolding command
size s = (command no_bytes 0 0 block_size (pos 0) 0 s.disk).0

unfoldable pub blocks : Manager → ℤ
unfolding command
blocks s = (command no_bytes 0 0 disk_size (pos 0) 0 s.disk).0

-- How `block_read` and `block_write` end: at once, or suspended, with `result` behind it.
pub data Wait : Type 0 where
  returned : ℤ → Wait
  waiting : Manager → Wait

-- Both up to `task_suspend`; `at` is the address of `task_request`, and `value` its return value
-- before the command, which `block_read` does not set.
unfoldable pub ask : Command → (at : Ptr) (value block : ℤ) (buffer : ℕ) → Manager → Wait
unfolding View.push
ask type at value block buffer s =
    if buffer == null
    then returned error
    else (let s1 : Manager =
          set_request at
            (record {
              task = s.kernel.current;
              block = block;
              buffer = buffer;
              type = type;
              return_value = value;
            })
            s in
        waiting (record s1 {
          requests = View.push at s1.requests;
          kernel = suspend at_suspended s1.kernel;
        }))

unfoldable pub block_read : (at : Ptr) (value block : ℤ) (buffer : ℕ) → Manager → Wait
unfolding ask
block_read at value block buffer s = ask read at value block buffer s

unfoldable pub block_write : (at : Ptr) (block : ℤ) (buffer : ℕ) → Manager → Wait
unfolding ask
block_write at block buffer s = ask write at (pos 0) block buffer s

-- `return task_request.return_value`
unfoldable pub result : (at : Ptr) → Manager → ℤ
result at s = (s.request at).return_value
