-- ===== src/Boot.antt =====
-- kernel/ppos.c: the start of the system, as the calls of its parts.
pub mod Start
use mathlib.Core.Option
use sistemas_operacionais.Base.{
  ℕ, zero, suc, ◌+◌, ◌-◌, ◌≡◌, refl, sym, ap, ◌∙◌, ◌≢◌, ◌<◌, ◌≤◌, true, false, Option, none, some,
  List, [], ◌∷◌, ◌==◌, if◌then◌else◌, arith, leb, length, Bool,
}
use sistemas_operacionais.Base.Int.{ℤ, pos}
use sistemas_operacionais.Buffer.{Bytes}
use sistemas_operacionais.Kernel
use sistemas_operacionais.Kernel.{Kernel}
use sistemas_operacionais.Memory
use sistemas_operacionais.Memory.{Ptr, Heap, ok, fault, out_of_fuel}
use sistemas_operacionais.Task
use sistemas_operacionais.Task.Storage.{allocate}
use sistemas_operacionais.Dispatcher.{done, abort}
use sistemas_operacionais.Dispatcher.Loop
use sistemas_operacionais.Cpu.{Cpu, no_error, error, irq_handle, time_init}
use sistemas_operacionais.Block.{Manager, block_init}

-- What the compiler and the host decide: the real-time signals, the addresses of the two handlers
-- and of a name, the size of a `struct task_t`, and the disk's image.
pub record Host : Type 0 where
  pub first_signal : ℕ
  pub last_signal : ℕ
  pub timer_handler : ℕ
  pub disk_handler : ℕ
  pub disk_name : Ptr
  pub task_size : ℕ
  pub image : Bytes
  pub image_bytes : ℕ

-- The state of all parts.
pub record Machine : Type 0 where
  pub heap : Heap
  pub cpu : Cpu
  pub manager : Manager

-- `IRQ_DISK`
abbrev pub irq_disk : ℤ
irq_disk = pos 2

-- `block_init`, with the memory that `task_create` asks for.
unfoldable pub start_disk : (fuel : ℕ) → Host → Machine → Option Machine
unfolding irq_handle allocate block_init
start_disk fuel host m =
    let (status, cpu) =
      irq_handle host.first_signal host.last_signal irq_disk host.disk_handler m.cpu in
    elim status [
      | error ↦ none
      | no_error ↦ elim (allocate fuel host.task_size m.heap) [
        | fault ↦ none
        | out_of_fuel ↦ none
        | ok (task, stack, heap) ↦
            Option.map (λ s. record { heap = heap; cpu = cpu; manager = s })
              (block_init host.image host.image_bytes task stack host.disk_name m.manager)
      ]
    ]

-- `time_init`, and then `sem_init` and `mqueue_init`, which are empty.
unfoldable pub start_clock : (fuel : ℕ) → Host → Machine → Option Machine
unfolding time_init start_disk
start_clock fuel host m =
    elim (time_init host.first_signal host.last_signal host.timer_handler m.cpu) [
      | none ↦ none
      | some cpu ↦ start_disk fuel host (record m { cpu = cpu })
    ]

-- `ppos_start`; `none` is a failed assertion. The queues of `dispatcher_init` have their memory,
-- and `sched_init` is empty.
unfoldable pub ppos_start : (fuel : ℕ) → Host → Machine → Option Machine
unfolding Memory.init Task.init Loop.init start_clock
ppos_start fuel host m = elim (Loop.init true true true true (Task.init m.manager.kernel)) [
  | done k ↦
      start_clock fuel host
        (record m { heap = Memory.init m.heap; manager = record m.manager { kernel = k } })
  | _ ↦ none
]
