-- ===== src/Tests/Blocks.antt =====
-- The disk manager at small inputs.
use sistemas_operacionais.Base.{
  ℕ, ◌+◌, ◌*◌, ◌<◌, ◌≤◌, ◌≡◌, refl, inl, false, none, some, [], ◌∷◌, ◌++◌, arith,
}
use sistemas_operacionais.Base.Int.{pos}
use sistemas_operacionais.Queue.View.{view}
use sistemas_operacionais.Kernel.{at_suspended, suspended}
use sistemas_operacionais.Dispatcher.{suspend}
use sistemas_operacionais.Dispatcher.Consistent.{IsConsistent}
use sistemas_operacionais.Dispatcher.Wake.{roused}
use sistemas_operacionais.Queue.View.{items}
use sistemas_operacionais.Buffer.{Bytes}
use sistemas_operacionais.Disk.{
  Disk, command, unknown, idle, Command, read, write, no_error, error, complete,
}
use sistemas_operacionais.Block.{
  Manager, round, serves, served, block_init, ask, waiting, result, no_bytes,
}
use sistemas_operacionais.Block.Requests.{served_in_order, round-refused, block_init-two_queues}
use sistemas_operacionais.Block.Transfers.{round-reads, round-writes}
use sistemas_operacionais.Tests.Tasks.{three_tasks}

abbrev host : Bytes
host a = a

abbrev small_disk : Disk
small_disk = record {
  status = idle;
  image = λ _. 0;
  numblocks = 16;
  blocksize = 64;
  buffer = 0;
  prev_block = 0;
  next_block = 3;
  delay_lo = 30;
  delay_hi = 300;
  time_ms = 0;
}

-- A request of task 30 for the block `n`, at 500, and one behind it at 600.
abbrev two_requests : Command → (n : ℕ) → Manager
two_requests type n = record {
  kernel = three_tasks;
  disk = small_disk;
  requests = view [] (500 ∷ 600 ∷ []);
  request =
      λ _. record { task = 30; block = pos n; buffer = 100; type = type; return_value = pos 0 };
}

served_in_order_example :
    ((s' : Manager) × (ask write 700 (pos 0) (pos 2) 900 (two_requests read 5) ≡ waiting s')
      × (s'.requests ≡ view [] ((500 ∷ 600 ∷ []) ++ (700 ∷ [])))
      × (s'.kernel ≡ suspend at_suspended three_tasks)
      × (s'.request 700 ≡ (record {
        task = 10;
        block = pos 2;
        buffer = 900;
        type = write;
        return_value = pos 0;
      })))
    × ((s' : Manager) × (round 7 (two_requests read 5) ≡ serves 500 s')
        × (s'.requests ≡ view [] (500 ∷ 600 ∷ []))
        × ((result 500 s', s'.disk) ≡ command no_bytes 0 7 read (pos 5) 100 small_disk)
        × (s'.kernel ≡ suspend at_suspended three_tasks))
    × ((t' : Manager) × (served 500 (two_requests read 5) ≡ some t')
        × (t'.requests ≡ view [] (600 ∷ []))
        × (t'.kernel ≡ roused false 30 three_tasks))
unfolding sistemas_operacionais.Dispatcher.awake
served_in_order_example =
    served_in_order 7 (two_requests read 5) (two_requests read 5) 500 700 (600 ∷ []) (600 ∷ []) _
      write (pos 0) (pos 2) 900 refl refl refl refl (omega arith)

round-refused_example :
    (s' : Manager) × (round 7 (two_requests read 16) ≡ serves 500 s')
    × (s'.kernel ≡ suspend at_suspended three_tasks)
    × (result 500 s' ≡ error)
    × (complete host s'.disk ≡ none)
unfolding sistemas_operacionais.Disk.outside
round-refused_example =
    round-refused 7 (two_requests read 16) 500 (600 ∷ []) host refl refl (inl refl) refl

block_init-two_queues_example :
    (s' : Manager) × (block_init host 1024 40 50 60
        (record (two_requests read 5) { disk = record small_disk { status = unknown } })
      ≡ some s')
    × (items s'.kernel.ready_queue ≡ (20 ∷ 50 ∷ []) ++ (40 ∷ []))
    × (items s'.kernel.suspended_queue ≡ (50 ∷ 30 ∷ []) ++ (40 ∷ []))
    × ((s'.kernel.tcb 40).status ≡ suspended)
    × ¬ IsConsistent s'.kernel
block_init-two_queues_example =
    block_init-two_queues host 1024 40 50 60
      (record (two_requests read 5) { disk = record small_disk { status = unknown } }) refl
      (omega arith) (omega arith)

round-reads_example :
    (s' : Manager) × (m' : Bytes) × (d : Disk) × (round 7 (two_requests read 5) ≡ serves 500 s')
    × (result 500 s' ≡ no_error)
    × (complete host s'.disk ≡ some (m', d))
    × ((i : ℕ) → i < 64 → m' (100 + i) ≡ 0)
    × ((a : ℕ) → ¬ ((100 ≤ a) × (a < 100 + 64)) → m' a ≡ host a)
    × (d.image ≡ small_disk.image)
    × (d.status ≡ idle)
round-reads_example =
    round-reads 7 5 (two_requests read 5) 500 (600 ∷ []) host refl refl refl (omega arith)
      (omega arith) refl

round-writes_example :
    (s' : Manager) × (d : Disk) × (round 7 (two_requests write 5) ≡ serves 500 s')
    × (result 500 s' ≡ no_error)
    × (complete host s'.disk ≡ some (host, d))
    × ((i : ℕ) → i < 64 → d.image (5 * 64 + i) ≡ host (100 + i))
    × ((a : ℕ) → ¬ ((5 * 64 ≤ a) × (a < 5 * 64 + 64)) → d.image a ≡ 0)
    × (d.status ≡ idle)
round-writes_example =
    round-writes 7 5 (two_requests write 5) 500 (600 ∷ []) host refl refl refl (omega arith)
      (omega arith) refl
