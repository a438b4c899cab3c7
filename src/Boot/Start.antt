-- ===== src/Boot/Start.antt =====
-- `ppos_start` on a host that refuses nothing.
use mathlib.Core.Path.{subst}
use sistemas_operacionais.Base.{
  ℕ, suc, ◌+◌, ◌-◌, ◌^◌, ◌≡◌, refl, ap, ◌∙◌, ◌≢◌, ◌<◌, ◌≤◌, true, false, some, [], ◌∷◌, ◌==◌, ◌++◌,
  if◌then◌else◌, arith, leb, differ, same,
}
use sistemas_operacionais.Base.Int.{pos, ltb_ℤ}
use sistemas_operacionais.Kernel
use sistemas_operacionais.Kernel.{Kernel}
use sistemas_operacionais.Queue.View.{items}
use sistemas_operacionais.Memory
use sistemas_operacionais.Memory.{Ptr, null, Heap, ok, heap_size, round_up, alloc}
use sistemas_operacionais.Memory.Tiling.{place, carve, Roomy}
use sistemas_operacionais.Memory.FirstFit.{tile}
use sistemas_operacionais.Memory.Alloc.{IsHeap, alloc-IsHeap, init-IsHeap}
use sistemas_operacionais.Task
use sistemas_operacionais.Task.Storage.{allocate}
use sistemas_operacionais.Dispatcher.{queue_add}
use sistemas_operacionais.Dispatcher.Spawn.{grown, create-grown}
use sistemas_operacionais.Queue.Members.{items-push}
use sistemas_operacionais.Dispatcher.Loop
use sistemas_operacionais.Cpu.{Cpu, no_error, irq_handle, set_timer, time_init}
use sistemas_operacionais.Disk.{command, unknown, idle}
use sistemas_operacionais.Disk
use sistemas_operacionais.Block.{Manager, block_init, install}
use sistemas_operacionais.Boot.{Host, Machine, ppos_start, start_clock, start_disk}

round_up-bounds : (n : ℕ) → n < 4096 → (round_up (suc n) ≤ 4096) × (0 < round_up (suc n))
unfolding round_up
round_up-bounds n small = (omega (arith, small), omega arith)

-- The two blocks for a task, cut from the front of a free heap.
module _ (fuel n size : ℕ) (small : n < 4096) (large : 16384 ≤ size) (fits : size < 2 ^ 32) where
  abbrev r : ℕ
  r = round_up (suc n)

  hit : leb r size ≡ true
  hit = ground (arith, (round_up-bounds n small).0, large)

  wide : leb (r + 48) size ≡ true
  wide = ground (arith, (round_up-bounds n small).0, large)

  spare : r + 32 ≤ size
  spare = omega (arith, (round_up-bounds n small).0, large)

  alloc-first :
      (m : Heap)
      → IsHeap m (tile size false ∷ [])
      → 0 < fuel
      → (m' : Heap) × (alloc fuel (pos (suc n)) m ≡ ok (m.start + 32, m'))
        × IsHeap m' (tile r true ∷ tile (size - r - 32) false ∷ [])
  unfolding place carve Roomy
  alloc-first m h enough =
      let (m', is_run, h') =
        alloc-IsHeap fuel n m (tile size false) [] h (λ _. spare, fits, tt) enough in
      let cut_first : carve r (tile size false ∷ [])
          ≡ tile r true ∷ tile (size - r - 32) false ∷ [] =
        rw (carve, hit, wide) refl in
      (m', is_run ∙ rw hit refl, subst (IsHeap m') cut_first h')

  alloc-second :
      (m : Heap) (q : ℕ)
      → q < 2 ^ 32
      → IsHeap m (tile q true ∷ tile size false ∷ [])
      → 1 < fuel
      → (m' : Heap) × (alloc fuel (pos (suc n)) m ≡ ok (m.start + (32 + q) + 32, m'))
        × IsHeap m' (tile q true ∷ tile r true ∷ tile (size - r - 32) false ∷ [])
  unfolding place carve Roomy
  alloc-second m q less h enough =
      let (m', is_run, h') =
        alloc-IsHeap fuel n m (tile q true) (tile size false ∷ []) h
          ((λ e. absurd (ground (arith, e))), less, ((λ _. spare), fits, tt)) enough in
      let cut_second : carve r (tile q true ∷ tile size false ∷ [])
          ≡ tile q true ∷ tile r true ∷ tile (size - r - 32) false ∷ [] =
        rw (carve, hit, wide) refl in
      (m', is_run ∙ rw hit refl, subst (IsHeap m') cut_second h')

-- What `task_create` gets for a task of `n + 1` bytes.
allocate-first :
    (fuel n : ℕ) (a : Ptr)
    → a ≢ null
    → n < 4096
    → 1 < fuel
    → (stack : Ptr) × (m' : Heap) × (allocate fuel (suc n) (Memory.init (Memory.boot a))
        ≡ ok (a + 32, stack, m'))
      × (stack ≢ null)
      × IsHeap m' (
          tile (round_up (suc n)) true
          ∷ tile 4096 true
          ∷ tile (heap_size - 32 - round_up (suc n) - 32 - 4096 - 32) false
          ∷ [])
unfolding allocate round_up Memory.init
allocate-first fuel n a ne small enough =
    let b = round_up-bounds n small in
    let (m1, e1, h1) =
      alloc-first fuel n (heap_size - 32) small (omega arith) (omega arith)
        (Memory.init (Memory.boot a)) (init-IsHeap a ne) (omega (arith, enough)) in
    let (m2, e2, h2) =
      alloc-second fuel 4095 (heap_size - 32 - round_up (suc n) - 32) (omega arith)
        (omega (arith, b.0)) (omega arith) m1 (round_up (suc n)) (omega (arith, b.0)) h1 enough in
    let task_set : (a + 32 == null) ≡ false = ground arith in
    let stack : Ptr = m1.start + (32 + round_up (suc n)) + 32 in
    let stack_set : (stack == null) ≡ false = ground arith in
    (
      stack,
      m2,
      rw (allocate, e1, task_set, e2, stack_set) refl,
      (λ e. absurd (omega (arith, e))),
      h2,
    )

-- The machine as its static initialisers leave it, at a heap that begins at `a`.
abbrev pub off : (a name : Ptr) → Cpu → Manager → Machine
off a name cpu s = record {
  heap = Memory.boot a;
  cpu = cpu;
  manager = record s { kernel = Kernel.boot name };
}

irq_handle-installs :
    (first last n handle : ℕ) (c : Cpu)
    → suc n + first < last
    → handle ≢ 0
    → irq_handle first last (pos (suc n)) handle c ≡ (
      no_error,
      record c { handler = λ s. if s == suc n + first then some handle else c.handler s },
    )
unfolding irq_handle
irq_handle-installs first last n handle c room set =
    let inside : leb last (suc n + first) ≡ false = ground (arith, room) in
    let positive : ltb_ℤ (pos (suc n)) (pos 1) ≡ false = ground arith in
    rw (irq_handle, positive, inside, differ handle 0 set) refl

time_init-installs :
    (first last handle : ℕ) (c : Cpu)
    → 1 + first < last
    → handle ≢ 0
    → (c' : Cpu) × (time_init first last handle c ≡ some c')
      × (c'.handler (1 + first) ≡ some handle)
unfolding time_init
time_init-installs first last handle c room set =
    let c1 : Cpu = (set_timer first (pos 1) (pos 1) c).1 in
    let e = irq_handle-installs first last 0 handle c1 room set in
    (
      record c1 { handler = λ s. if s == 1 + first then some handle else c1.handler s },
      rw (time_init, e, ap (λ r. r.1) e) refl,
      rw (same (1 + first) (1 + first) refl) refl,
    )

-- The manager when `block_init` has made its task.
block_init-makes :
    (host : Host) (task stack : Ptr) (s : Manager)
    → s.disk.status ≡ unknown
    → task ≢ null
    → stack ≢ null
    → (s' : Manager) × (block_init host.image host.image_bytes task stack host.disk_name s
        ≡ some s')
      × (items s'.kernel.ready_queue ≡ items s.kernel.ready_queue ++ (task ∷ []))
      × (s'.kernel.task_disk_handler ≡ task)
      × (s'.disk.status ≡ idle)
unfolding block_init command Disk.start install queue_add
block_init-makes host task stack s off task_set stack_set =
    let created = create-grown task stack host.disk_name s.kernel task_set stack_set in
    (
      install task (Disk.start host.image host.image_bytes s.disk).1
          (grown task stack host.disk_name s.kernel) s,
      rw (block_init, off, created, differ task null task_set) refl,
      items-push task s.kernel.ready_queue,
      refl,
      rw off refl,
    )

-- `ppos_start` ends with no failed assertion, on a host with a signal for the timer and the disk and
-- addresses of their handlers, where a `struct task_t` has at most 4096 bytes and the disk's image
-- opens: both handlers are installed, the disk is idle, and the one ready task is the disk
-- manager's, whose block and stack are the first two of the heap, with the rest of it free.
pub ppos_start-succeeds :
    (fuel n : ℕ) (a name : Ptr) (host : Host) (c : Cpu) (s : Manager)
    → a ≢ null
    → host.task_size ≡ suc n
    → n < 4096
    → 1 < fuel
    → 2 + host.first_signal < host.last_signal
    → host.timer_handler ≢ 0
    → host.disk_handler ≢ 0
    → s.disk.status ≡ unknown
    → (m : Machine) × (ppos_start fuel host (off a name c s) ≡ some m)
      × (m.cpu.handler (1 + host.first_signal) ≡ some host.timer_handler)
      × (m.cpu.handler (2 + host.first_signal) ≡ some host.disk_handler)
      × (m.manager.disk.status ≡ idle)
      × (m.manager.kernel.task_disk_handler ≡ a + 32)
      × (items m.manager.kernel.ready_queue ≡ (a + 32) ∷ [])
      × IsHeap m.heap (
          tile (round_up (suc n)) true
          ∷ tile 4096 true
          ∷ tile (heap_size - 32 - round_up (suc n) - 32 - 4096 - 32) false
          ∷ [])
unfolding ppos_start start_clock start_disk Loop.init Task.init
ppos_start-succeeds fuel n a name host c s ne size small enough room timer disk unused =
    let (c1, e1, h1) =
      time_init-installs host.first_signal host.last_signal host.timer_handler c
        (omega (arith, room)) timer in
    let e2 =
      irq_handle-installs host.first_signal host.last_signal 1 host.disk_handler c1 room disk in
    let (stack, heap, e3, stack_set, whole) = allocate-first fuel n a ne small enough in
    let e3' = ap (λ z. allocate fuel z (Memory.init (Memory.boot a))) size ∙ e3 in
    let task_set : a + 32 ≢ null = λ e. absurd (omega (arith, e)) in
    let k : Kernel = Task.init (Kernel.boot name) in
    let (s', e4, ready, handler, status) =
      block_init-makes host (a + 32) stack (record s { kernel = k }) unused task_set stack_set in
    (
      record {
        heap = heap;
        cpu = record c1 {
          handler =
              λ x. if x == 2 + host.first_signal then some host.disk_handler else c1.handler x;
        };
        manager = s';
      },
      rw (ppos_start, start_clock, e1, start_disk, e2, e3', e4, ap (λ r. r.1) e2) refl,
      rw (differ (1 + host.first_signal) (2 + host.first_signal) (λ e. absurd (omega (arith, e))))
          h1,
      rw (same (2 + host.first_signal) (2 + host.first_signal) refl) refl,
      status,
      handler,
      ready,
      whole,
    )
