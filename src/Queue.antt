-- ===== src/Queue.antt =====
-- The functions of lib/queue.c, line by line over the store of their nodes. A `queue_t *` is an
-- option (`none` is NULL) of the struct's fields; a function that writes through it returns the
-- new fields. What `malloc` returns is an argument. The loops run on fuel, one round more than
-- the queue has items.
pub mod Store
pub mod View
pub mod Chain
mod Steps
pub mod Add
mod Cut
pub mod Del
pub mod Remove
pub mod Erase
pub mod Walk
pub mod Members
pub mod Print
pub mod Contents
pub mod Trace
use sistemas_operacionais.Base.{
  ℕ, zero, suc, ◌+◌, ◌-◌, Bool, true, false, Option, none, some, ◌==◌, if◌then◌else◌,
}
use sistemas_operacionais.Base.Int.{ℤ, pos, negsuc}
use Store.{Ptr, null, Item, node, Cmd, out_of_fuel, pure, ◌>>=◌, ◌>>◌, store, load, set_next, free}

-- `queue_t`
pub record Queue : Type 0 where
  pub first : Ptr
  pub last : Ptr
  pub iterator : Ptr
  pub size : ℕ

-- `NOERROR` and `ERROR`
pub data Status : Type 0 where
  no_error error : Status

-- The argument says whether `malloc` succeeds.
pub create : Bool → Option Queue
create true = some (record { first = null; last = null; iterator = null; size = 0 })
create false = none

-- The loop of `queue_destroy`.
destroy_loop : ℕ → Ptr → Cmd (Unit {0})
destroy_loop zero aux = λ _. out_of_fuel
destroy_loop (suc k) aux =
    if aux == null then pure tt else do n ← load aux; free aux; destroy_loop k n.next

-- `mem_free(queue)` at the end touches no node, and its result is not looked at.
pub destroy : Option Queue → Cmd Status
unfolding destroy_loop
destroy none = pure error
destroy (some q) = do destroy_loop (q.size + 1) q.first; pure no_error

-- The two branches of `queue_add` on the size, for the new node at `fresh`.
attach : Ptr → Queue → Cmd Queue
attach fresh q =
    if q.size == 0
    then pure (record q { first = fresh; last = fresh; iterator = fresh })
    else do set_next q.last fresh; pure (record q { last = fresh })

pub add : (fresh : Ptr) → Option Queue → Item → Cmd (Status × Option Queue)
unfolding attach
add fresh none item = pure (error, none)
add fresh (some q) item =
    if item == null
    then pure (error, some q)
    else if fresh == null
    then pure (error, some q)
    else do
      store fresh (some (node null item))
      q' ← attach fresh q
      pure (no_error, some (record q' { size = q'.size + 1 }))

-- `if (iterator == p) iterator = iterator->next`
pub skip : (iterator p : Ptr) → Cmd Ptr
skip iterator p = if iterator == p then (do n ← load iterator; pure n.next) else pure iterator

-- `case 1` of `queue_del`
del_only : Queue → Item → Cmd (Status × Queue)
del_only q item = do
  n ← load q.first
  if n.content == item
      then (do
        free q.first
        pure (no_error, record { first = null; last = null; iterator = null; size = 0 }))
      else pure (error, q)

-- The first node of several holds the item.
del_first : Queue → Cmd (Status × Queue)
unfolding skip
del_first q = do
  iterator ← skip q.iterator q.first
  n ← load q.first
  free q.first
  pure (no_error, record q { first = n.next; iterator = iterator; size = q.size - 1 })

-- The body of the loop of `queue_del` where `aux->next` is `deleted` and holds the item.
unlink : Queue → (aux deleted : Ptr) → Cmd (Status × Queue)
unfolding skip
unlink q aux deleted = do
  iterator ← skip q.iterator deleted
  n ← load deleted
  set_next aux n.next
  free deleted
  pure (
    no_error,
    record q {
      iterator = iterator;
      last = if deleted == q.last then aux else q.last;
      size = q.size - 1;
    },
  )

-- The loop of `queue_del`.
pub del_loop : ℕ → Queue → Item → Ptr → Cmd (Status × Queue)
del_loop zero q item aux = λ _. out_of_fuel
del_loop (suc k) q item aux = do
  n ← load aux
  if n.next == null then pure (error, q) else do
    m ← load n.next
    if m.content == item then unlink q aux n.next else del_loop k q item n.next

-- `default` of `queue_del`
del_many : Queue → Item → Cmd (Status × Queue)
unfolding del_first unlink del_loop
del_many q item = do
  n ← load q.first
  if n.content == item then del_first q else del_loop q.size q item q.first

-- The `switch` on the size.
pub del_item : Queue → Item → Cmd (Status × Queue)
unfolding del_only del_many
del_item q item =
    if q.size == 0
    then pure (error, q)
    else if q.size == 1
    then del_only q item
    else del_many q item

unfoldable pub del : Option Queue → Item → Cmd (Status × Option Queue)
unfolding del_item
del none item = pure (error, none)
del (some q) item =
    if item == null then pure (error, some q) else do (s, q') ← del_item q item; pure (s, some q')

-- The loop of `queue_has`.
has_loop : ℕ → Item → Ptr → Cmd Bool
has_loop zero item aux = λ _. out_of_fuel
has_loop (suc k) item aux =
    if aux == null
    then pure false
    else do n ← load aux; if n.content == item then pure true else has_loop k item n.next

pub has : Option Queue → Item → Cmd Bool
unfolding has_loop
has none item = pure false
has (some q) item = if item == null then pure false else has_loop (q.size + 1) item q.first

pub size : Option Queue → ℤ
size none = negsuc 0
size (some q) = pos q.size

-- The content of the node at `p`, NULL at NULL.
content_at : Ptr → Cmd Item
content_at p = if p == null then pure null else do n ← load p; pure n.content

pub head : Option Queue → Cmd (Item × Option Queue)
unfolding content_at
head none = pure (null, none)
head (some q) = do c ← content_at q.first; pure (c, some (record q { iterator = q.first }))

pub next : Option Queue → Cmd (Item × Option Queue)
unfolding content_at
next none = pure (null, none)
next (some q) = if q.iterator == null then pure (null, some q) else do
  n ← load q.iterator
  c ← content_at n.next
  pure (c, some (record q { iterator = n.next }))

pub item : Option Queue → Cmd Item
unfolding content_at
item none = pure null
item (some q) = content_at q.iterator
