-- ===== src/Lib.antt =====
-- PingPongOS, a small operating system that runs as one process of its host. The queue of
-- lib/queue.c holds tasks everywhere; kernel/task.c makes tasks and switches between them;
-- kernel/scheduler.c chooses a ready task, and kernel/dispatcher.c moves tasks between the four
-- queues by the states of their control blocks (kernel/tcb.h). kernel/time.c preempts a task at
-- the end of its quantum. kernel/semaphore.c suspends and wakes tasks over the dispatcher,
-- kernel/mqueue.c passes messages through a ring of bytes that three semaphores guard,
-- kernel/memory.c is the allocator, hardware/disk.c the simulated disk, kernel/block.c the task
-- that hands the requests of other tasks to it, and lib/libc.c replaces the C library.
--
-- Files:
-- Queue: lib/queue.c, one function per C function, on a store of nodes (Queue/Store) in which a
-- load of a freed node is a fault. Queue/View says what a queue promises with no pointers;
-- Queue/Chain relates the two, and Queue/Add, Queue/Erase and Queue/Walk prove that the
-- functions refine it; Queue/Trace runs any sequence of calls.
-- Kernel: the state that the kernel's parts share, with a queue as its view. Task: kernel/task.c;
-- Task/Storage: a task's memory.
-- Scheduler: kernel/scheduler.c. Dispatcher: kernel/dispatcher.c and kernel/time.c, with the
-- invariant of the queues and states in Dispatcher/Consistent; Steps, Clock, Spawn, Wake, Run,
-- Leaving, WakeLoop, Exit, Waiter, Sleepers, Due and Idle are on one operation each, Dispatcher/Opening is
-- the dispatcher's first choice behind `block_init`, Dispatcher/History is on all operations
-- from there on, Dispatcher/Kept and Present are on where a task is, and
-- Dispatcher/Loop is on a round of the dispatcher. Semaphore: kernel/semaphore.c.
-- Memory: kernel/memory.c, with headers at addresses that overlap as they do in C; Memory/Tiling
-- is the list of blocks, Memory/FirstFit the search of `mem_alloc`, Memory/Alloc the whole call,
-- Memory/Absorb, Memory/Relink, Memory/Merge and Memory/Release the joining of free blocks,
-- Memory/Free the whole of `mem_free`, Memory/Stale a `prev` that is out of date, and
-- Memory/Report is `mem_report`.
-- Buffer: the ring of kernel/mqueue.c. Mqueue: `mqueue_create`, `mqueue_destroy` and
-- `mqueue_msgs`. Disk: hardware/disk.c. Block: kernel/block.c, whose manager is cut where it yields or
-- is suspended. Libc: lib/libc.c. Cpu: handlers and timer of hardware/cpu.c, and `time_init`.
-- Boot: `ppos_start` of kernel/ppos.c.
-- Base: shared names, Boolean tests and C integers. Tests: runs at small inputs.
--
-- An operation that gives the processor away ends in the state in which the other task goes on;
-- what follows it in the C function is an operation of its own (`wait_resume`, `down_resume`,
-- `served`). The timer is never masked in the source, but here it preempts a task only between
-- operations: `sem_down` is cut between the release of its lock and `task_suspend` (`down` and
-- `down_suspend`), where a tick makes a difference, and other ticks inside an operation are left
-- out.
--
-- Loops over a queue's nodes have as fuel the queue's size, or one more, and the theorems on
-- them say that the result is reached. The loops of `task_exit`, of the walk over the sleeping
-- queue and of `sem_destroy` have the length of the queue and one round more. The two searches of
-- the allocator take their fuel as an argument. The digit loops of `printk` have eleven rounds,
-- enough for a 32-bit number.
--
-- Counters and priorities are integers with no bound, and a queue's node is always had where the
-- kernel adds a task; the allocator's sizes and the random number keep their wrap-around.
--
-- Not modelled: `mqueue_send` and `mqueue_recv`, the rest of kernel/ppos.c, which prints and calls, hardware/serial.c, the
-- signal mask, `pause` and the end of the process in hardware/cpu.c, and the assembly of
-- kernel/ctx.s. The image file, the timers and signals, and the random numbers of the disk are the
-- host's, and arguments here.
pub mod Base
pub mod Queue
pub mod Memory
pub mod Kernel
pub mod Task
pub mod Scheduler
pub mod Dispatcher
pub mod Semaphore
pub mod Buffer
pub mod Mqueue
pub mod Disk
pub mod Block
pub mod Libc
pub mod Cpu
pub mod Boot
mod Tests
