-- ===== src/Tests/Start.antt =====
-- The start of the system with a heap at 4096 and signals from 34 to 64.
use sistemas_operacionais.Base.{◌≡◌, refl, ◌-◌, true, false, some, none, [], ◌∷◌, arith}
use sistemas_operacionais.Base.Int.{pos}
use sistemas_operacionais.Kernel
use sistemas_operacionais.Queue.View
use sistemas_operacionais.Queue.View.{items}
use sistemas_operacionais.Memory.{heap_size, round_up}
use sistemas_operacionais.Memory.FirstFit.{tile}
use sistemas_operacionais.Memory.Alloc.{IsHeap}
use sistemas_operacionais.Cpu.{Cpu}
use sistemas_operacionais.Disk.{Disk, unknown, idle, read}
use sistemas_operacionais.Block.{Manager, Request}
use sistemas_operacionais.Boot.{Host, Machine, ppos_start}
use sistemas_operacionais.Boot.Start.{off, ppos_start-succeeds}

abbrev host : Host
host = record {
  first_signal = 34;
  last_signal = 64;
  timer_handler = 500;
  disk_handler = 600;
  disk_name = 700;
  task_size = 200;
  image = λ _. 0;
  image_bytes = 640;
}

abbrev no_timer : Cpu
no_timer = record { handler = λ _. none; timer = none }

abbrev unknown_disk : Disk
unknown_disk = record {
  status = unknown;
  image = λ _. 0;
  numblocks = 0;
  blocksize = 0;
  buffer = 0;
  prev_block = 0;
  next_block = 0;
  delay_lo = 0;
  delay_hi = 0;
  time_ms = 0;
}

abbrev no_request : Request
no_request = record { task = 0; block = pos 0; buffer = 0; type = read; return_value = pos 0 }

abbrev no_manager : Manager
no_manager = record {
  kernel = Kernel.boot 0;
  disk = unknown_disk;
  requests = View.empty;
  request = λ _. no_request;
}

ppos_start-succeeds_example :
    (m : Machine) × (ppos_start 2 host (off 4096 800 no_timer no_manager) ≡ some m)
    × (m.cpu.handler 35 ≡ some 500)
    × (m.cpu.handler 36 ≡ some 600)
    × (m.manager.disk.status ≡ idle)
    × (m.manager.kernel.task_disk_handler ≡ 4128)
    × (items m.manager.kernel.ready_queue ≡ 4128 ∷ [])
    × IsHeap m.heap
        (tile 208 true ∷ tile 4096 true ∷ tile (heap_size - 32 - 208 - 32 - 4096 - 32) false ∷ [])
unfolding round_up
ppos_start-succeeds_example =
    ppos_start-succeeds 2 199 4096 800 host no_timer no_manager (omega arith) refl (omega arith)
      (omega arith) (omega arith) (omega arith) (omega arith) refl
