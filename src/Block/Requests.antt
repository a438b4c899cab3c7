-- ===== src/Block/Requests.antt =====
-- The order of the disk manager's requests, a request that the disk refuses, and the queues behind
-- `block_init`.
use sistemas_operacionais.Base.{
  ℕ, ◌≡◌, refl, ap, ◌∙◌, ◌≢◌, true, ◌⊎◌, inl, inr, Bool-cases, none, some, List, [], ◌∷◌, ◌++◌,
  arith, ◌==◌, differ, same,
}
use sistemas_operacionais.Base.Int.{ℤ}
use sistemas_operacionais.Queue.View
use sistemas_operacionais.Queue.View.{View, items, view}
use sistemas_operacionais.Queue.Members.{mem, mem-push, items-push}
use sistemas_operacionais.Kernel.{Ptr, null, Kernel, ready, suspended, at_ready, at_suspended}
use sistemas_operacionais.Task.{create, spawn}
use sistemas_operacionais.Dispatcher.{done, queue_add, suspend, awake}
use sistemas_operacionais.Dispatcher.Consistent.{IsConsistent}
use sistemas_operacionais.Buffer.{Bytes}
use sistemas_operacionais.Semaphore.{drop}
use sistemas_operacionais.Disk.{
  Disk, unknown, idle, Command, read, write, command, start, error, no_error,
  request as disk_request, complete, outside,
}
use sistemas_operacionais.Block.{
  Request, Manager, set_request, serves, submit, round_at, round, served, install, block_init,
  waiting, ask, result, no_bytes,
}

push-behind : (x : Ptr) (xs : List Ptr) → View.push x (view [] xs) ≡ view [] (xs ++ (x ∷ []))
unfolding View.push
push-behind x [] = refl
push-behind x (y ∷ xs) = refl

drop-first : (p : Ptr) (rest : List Ptr) → drop p (view [] (p ∷ rest)) ≡ view [] rest
unfolding drop View.remove
drop-first p rest = rw (same p p)

served-run :
    (p : Ptr) (s : Manager) (k : Kernel)
    → awake (s.request p).task s.kernel ≡ done k
    → served p s ≡ some (record s { kernel = k; requests = drop p s.requests })
unfolding served
served-run p s k e = rw (served, e)

pub round-idle :
    (random : ℕ) (s : Manager) (p : Ptr) (rest : List Ptr)
    → s.disk.status ≡ idle
    → s.requests ≡ view [] (p ∷ rest)
    → round random s
      ≡ serves p (
          set_request p
            (record (s.request p) { return_value = (submit random (s.request p) s.disk).0 })
            (record s {
              disk = (submit random (s.request p) s.disk).1;
              kernel = suspend at_suspended s.kernel;
            }))
unfolding round round_at View.current
round-idle random s p rest e q =
    ap (λ st. round_at random st (View.current s.requests) s) e
    ∙ ap (λ v. round_at random idle (View.current v) s) q

abbrev asked : (type : Command) (at : Ptr) (value block : ℤ) (buffer : ℕ) (s : Manager) → Manager
asked type at value block buffer s =
    let s1 : Manager =
      set_request at
        (record {
          task = s.kernel.current;
          block = block;
          buffer = buffer;
          type = type;
          return_value = value;
        })
        s in
    record s1 { requests = View.push at s1.requests; kernel = suspend at_suspended s1.kernel }

ask-waits :
    (type : Command) (at : Ptr) (value block : ℤ) (buffer : ℕ) (s : Manager)
    → buffer ≢ null
    → (s' : Manager) × (ask type at value block buffer s ≡ waiting s')
      × (s'.requests ≡ View.push at s.requests)
      × (s'.kernel ≡ suspend at_suspended s.kernel)
      × (s'.request at ≡ (record {
        task = s.kernel.current;
        block = block;
        buffer = buffer;
        type = type;
        return_value = value;
      }))
unfolding ask
ask-waits type at value block buffer s ne = (
  asked type at value block buffer s,
  rw (differ buffer null ne) refl,
  refl,
  refl,
  rw (same at at) refl,
)

-- Requests are served in the order of arrival: `block_read` and `block_write` put one behind those
-- that wait and suspend the task that asks; at an idle disk the manager submits the first, its
-- command, block and buffer, to the disk, notes the value and is suspended; and when the disk is
-- done it wakes the task of that request and deletes the request, with the next one first.
pub served_in_order :
    (random : ℕ) (s t : Manager) (p at : Ptr) (rest more : List Ptr) (k : Kernel) (type : Command)
    (value block : ℤ) (buffer : ℕ)
    → s.disk.status ≡ idle
    → s.requests ≡ view [] (p ∷ rest)
    → t.requests ≡ view [] (p ∷ more)
    → awake (t.request p).task t.kernel ≡ done k
    → buffer ≢ null
    → ((s' : Manager) × (ask type at value block buffer s ≡ waiting s')
        × (s'.requests ≡ view [] ((p ∷ rest) ++ (at ∷ [])))
        × (s'.kernel ≡ suspend at_suspended s.kernel)
        × (s'.request at ≡ (record {
          task = s.kernel.current;
          block = block;
          buffer = buffer;
          type = type;
          return_value = value;
        })))
      × ((s' : Manager) × (round random s ≡ serves p s')
          × (s'.requests ≡ s.requests)
          × ((result p s', s'.disk)
              ≡ command no_bytes 0 random
                  (s.request p).type
                  (s.request p).block
                  (s.request p).buffer
                  s.disk)
          × (s'.kernel ≡ suspend at_suspended s.kernel))
      × ((t' : Manager) × (served p t ≡ some t') × (t'.requests ≡ view [] more) × (t'.kernel ≡ k))
unfolding result submit
served_in_order random s t p at rest more k type value block buffer e q q' a ne =
    let (s', w, pushed, halted, noted) = ask-waits type at value block buffer s ne in
    (
      (s', w, pushed ∙ ap (View.push at) q ∙ push-behind at (p ∷ rest), halted, noted),
      (_, round-idle random s p rest e q, refl, rw (result, same p p) refl, refl),
      (_, served-run p t k a, ap (drop p) q' ∙ drop-first p more, refl),
    )

refused :
    (random : ℕ) (r : Request) (d : Disk)
    → (r.type ≡ read) ⊎ (r.type ≡ write)
    → d.status ≡ idle
    → outside r.block d.numblocks ≡ true
    → submit random r d ≡ (error, d)
unfolding submit command disk_request
refused random r d (inl t) e out = elim (Bool-cases (r.buffer == 0)) [
  | inl z ↦ rw (t, disk_request, e, z)
  | inr z ↦ rw (t, disk_request, e, z, out)
]
refused random r d (inr t) e out = elim (Bool-cases (r.buffer == 0)) [
  | inl z ↦ rw (t, disk_request, e, z)
  | inr z ↦ rw (t, disk_request, e, z, out)
]

complete-idle : (m : Bytes) (d : Disk) → d.status ≡ idle → complete m d ≡ none
unfolding complete
complete-idle m d e = rw e refl

-- At a request for a block that the disk does not have the manager is suspended all the same, with
-- the disk idle: there is no operation whose end could wake it. The request's value is ERROR.
pub round-refused :
    (random : ℕ) (s : Manager) (p : Ptr) (rest : List Ptr) (m : Bytes)
    → s.disk.status ≡ idle
    → s.requests ≡ view [] (p ∷ rest)
    → ((s.request p).type ≡ read) ⊎ ((s.request p).type ≡ write)
    → outside (s.request p).block s.disk.numblocks ≡ true
    → (s' : Manager) × (round random s ≡ serves p s')
      × (s'.kernel ≡ suspend at_suspended s.kernel)
      × (result p s' ≡ error)
      × (complete m s'.disk ≡ none)
unfolding result
round-refused random s p rest m e q t out =
    let no : submit random (s.request p) s.disk ≡ (error, s.disk) =
      refused random (s.request p) s.disk t e out in
    (
      _,
      round-idle random s p rest e q,
      refl,
      rw (result, same p p) (ap (λ z. z.0) no),
      ap (λ z. complete m z.1) no ∙ complete-idle m s.disk e,
    )

-- The disk that `start` makes.
pub made : (image : Bytes) (bytes : ℕ) → Disk → Disk
unfolding start
made image bytes d = (start image bytes (record d { status = unknown })).1

start-made :
    (image : Bytes) (bytes : ℕ) (d : Disk)
    → d.status ≡ unknown
    → start image bytes d ≡ (no_error, made image bytes d)
unfolding start made
start-made image bytes d e = rw e refl

pub create-spawned :
    (task stack name : Ptr) (k : Kernel)
    → task ≢ null
    → stack ≢ null
    → create task stack name k ≡ (task, spawn task stack name k)
unfolding create
create-spawned task stack name k nt ns = rw (create, differ task null nt, differ stack null ns) refl

pub block_init-installed :
    (image : Bytes) (bytes : ℕ) (task stack name : Ptr) (s : Manager)
    → s.disk.status ≡ unknown
    → task ≢ null
    → stack ≢ null
    → block_init image bytes task stack name s
      ≡ some (install task (made image bytes s.disk) (spawn task stack name s.kernel) s)
unfolding block_init command
block_init-installed image bytes task stack name s e nt ns =
    rw
      (
        block_init,
        start-made image bytes s.disk e,
        create-spawned task stack name s.kernel nt ns,
        differ task null nt,
      )
      refl

install-status :
    (handler : Ptr) (d : Disk) (k : Kernel) (s : Manager)
    → ((install handler d k s).kernel.tcb handler).status ≡ suspended
unfolding install queue_add
install-status handler d k s = rw (install, same handler handler) refl

install-ready :
    (handler : Ptr) (d : Disk) (k : Kernel) (s : Manager)
    → (install handler d k s).kernel.ready_queue ≡ k.ready_queue
unfolding install queue_add
install-ready handler d k s = refl

spawn-ready :
    (task stack name : Ptr) (k : Kernel)
    → mem task (items (spawn task stack name k).ready_queue) ≡ true
unfolding spawn
spawn-ready task stack name k = ground (arith, mem-push task k.ready_queue task, same task task)

spawn-once :
    (task stack name : Ptr) (k : Kernel)
    → items (spawn task stack name k).ready_queue ≡ items k.ready_queue ++ (task ∷ [])
unfolding spawn
spawn-once task stack name k = items-push task k.ready_queue

install-suspended :
    (handler : Ptr) (d : Disk) (k : Kernel) (s : Manager)
    → items (install handler d k s).kernel.suspended_queue
      ≡ items k.suspended_queue ++ (handler ∷ [])
unfolding install queue_add
install-suspended handler d k s = items-push handler k.suspended_queue

spawn-suspended :
    (task stack name : Ptr) (k : Kernel)
    → (spawn task stack name k).suspended_queue ≡ k.suspended_queue
unfolding spawn
spawn-suspended task stack name k = refl

-- `block_init` at a disk that is not yet used succeeds, when both allocations of its `task_create` do,
-- and leaves the manager's task at the end of two queues, the ready one and the suspended one, with
-- the status of a suspended task; so the kernel is not consistent.
pub block_init-two_queues :
    (image : Bytes) (bytes : ℕ) (task stack name : Ptr) (s : Manager)
    → s.disk.status ≡ unknown
    → task ≢ null
    → stack ≢ null
    → (s' : Manager) × (block_init image bytes task stack name s ≡ some s')
      × (items s'.kernel.ready_queue ≡ items s.kernel.ready_queue ++ (task ∷ []))
      × (items s'.kernel.suspended_queue ≡ items s.kernel.suspended_queue ++ (task ∷ []))
      × ((s'.kernel.tcb task).status ≡ suspended)
      × ¬ IsConsistent s'.kernel
block_init-two_queues image bytes task stack name s e nt ns =
    let d : Disk = made image bytes s.disk in
    let k : Kernel = spawn task stack name s.kernel in
    (
      install task d k s,
      block_init-installed image bytes task stack name s e nt ns,
      ap items (install-ready task d k s) ∙ spawn-once task stack name s.kernel,
      install-suspended task d k s
          ∙ ap (λ v. items v ++ (task ∷ [])) (spawn-suspended task stack name s.kernel),
      install-status task d k s,
      λ ok.
          let i : mem task (items (install task d k s).kernel.ready_queue) ≡ true =
            rw (install-ready task d k s) (spawn-ready task stack name s.kernel) in
          let is_ready : ((install task d k s).kernel.tcb task).status ≡ ready =
            (ok.member at_ready task i).0 in
          let is_suspended : ((install task d k s).kernel.tcb task).status ≡ suspended =
            install-status task d k s in
          cc,
    )
