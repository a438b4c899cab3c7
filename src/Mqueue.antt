-- ===== src/Mqueue.antt =====
-- The message queues of kernel/mqueue.c above their ring: `mqueue_create`, `mqueue_destroy` and
-- `mqueue_msgs`.
use sistemas_operacionais.Base.{Bool, ◌||◌, Option, none, some, if◌then◌else◌}
use sistemas_operacionais.Base.Int.{ℤ, pos, negsuc, ltb_ℤ}
use sistemas_operacionais.Queue.{Status, no_error}
use sistemas_operacionais.Kernel.{Kernel}
use sistemas_operacionais.Semaphore.{
  Semaphore, returned, create as sem_create, destroy as sem_destroy,
}
use sistemas_operacionais.Buffer
use sistemas_operacionais.Buffer.{Bytes, CircularBuffer, CbError, cb_noerror, code}

-- `struct mqueue_t`; a semaphore is `none` where its pointer is NULL.
pub record Mqueue : Type 0 where
  pub buff : CircularBuffer
  pub space_available : Option Semaphore
  pub items_available : Option Semaphore
  pub buffer : Option Semaphore

-- The semaphore of a message queue that a call is on.
pub data Which : Type 0 where
  space items lock : Which

abbrev pub sem_at : Which → Mqueue → Option Semaphore
sem_at space q = q.space_available
sem_at items q = q.items_available
sem_at lock q = q.buffer

abbrev pub set_sem : Which → Semaphore → Mqueue → Mqueue
set_sem space s q = record q { space_available = some s }
set_sem items s q = record q { items_available = some s }
set_sem lock s q = record q { buffer = some s }

-- `max_msgs <= 0 || msg_size <= 1`
unfoldable pub refuses : (max_msgs msg_size : ℤ) → Bool
refuses max_msgs msg_size = ltb_ℤ max_msgs (pos 1) || ltb_ℤ msg_size (pos 2)

-- A semaphore after `sem_destroy`, which changes no task where nobody waits.
unfoldable pub gone : Kernel → Semaphore → Option Semaphore
unfolding sem_destroy
gone k s = elim (sem_destroy s k) [ returned st s' k' ↦ some s' | _ ↦ some s ]

-- `mqueue_create`: `ring` is the block for the messages, `alloc` says whether the two allocations
-- of each `sem_create` succeed, and `made` whether the last `mem_alloc` does.
unfoldable pub create :
    (ring : Option Bytes) (alloc : Which → Bool × Bool) (made : Bool)
    → (max_msgs msg_size : ℤ) → Kernel
    → Option Mqueue
unfolding refuses Buffer.destroy
create ring alloc made max_msgs msg_size k =
    let b : CircularBuffer = Buffer.create ring max_msgs msg_size in
    let sem : Which → ℤ → Option Semaphore = λ w value. sem_create (alloc w).0 (alloc w).1 value in
    if refuses max_msgs msg_size then none else elim (sem space max_msgs) [
      | none ↦ none
      | some s ↦ elim (sem items (pos 0)) [
        | none ↦ none
        | some i ↦
            if made
            then some (elim (sem lock (pos 1)) [
              | some l ↦ record {
                buff = b;
                space_available = some s;
                items_available = some i;
                buffer = some l;
              }
              | none ↦ record {
                buff = Buffer.destroy b;
                space_available = gone k s;
                items_available = gone k i;
                buffer = none;
              }
            ])
            else none
      ]
    ]

-- `if (sem) sem_destroy(sem)`; `none` where the call does not come back.
unfoldable pub destroy_sem : Which → Mqueue → Kernel → Option (Mqueue × Kernel)
unfolding sem_destroy
destroy_sem w q k = elim (sem_at w q) [
  | none ↦ some (q, k)
  | some s ↦ elim (sem_destroy s k) [ returned st s' k' ↦ some (set_sem w s' q, k') | _ ↦ none ]
]

-- `mqueue_destroy` at a queue that is not NULL. `mem_free` of the block is outside this state.
unfoldable pub destroy : Mqueue → Kernel → Option (Status × Mqueue × Kernel)
unfolding destroy_sem Buffer.destroy
destroy q k = elim (destroy_sem space (record q { buff = Buffer.destroy q.buff }) k) [
  | none ↦ none
  | some (q1, k1) ↦ elim (destroy_sem items q1 k1) [
    | none ↦ none
    | some (q2, k2) ↦ some (no_error, q2, k2)
  ]
]

-- `mqueue_msgs`
unfoldable pub msgs : Option Mqueue → ℤ
msgs none = negsuc 0
msgs (some q) = pos q.buff.item_quant
