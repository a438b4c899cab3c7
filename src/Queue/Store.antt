-- ===== src/Queue/Store.antt =====
-- The nodes of lib/queue.c at their addresses, and the commands that read and write them.
use sistemas_operacionais.Base.{ℕ, Option, none, some, ◌==◌, if◌then◌else◌}

-- A C pointer; 0 is NULL.
abbrev pub Ptr : Type 0
Ptr = ℕ

abbrev pub null : Ptr
null = 0

-- What a queue stores, `void *`: an address that is never followed.
abbrev pub Item : Type 0
Item = ℕ

-- `node_t`
pub record Node : Type 0 where
  pub next : Ptr
  pub content : Item

abbrev pub node : Ptr → Item → Node
node q c = record { next = q; content = c }

abbrev pub Store : Type 0
Store = Ptr → Option Node

unfoldable pub write : Store → Ptr → Option Node → Store
write h p c a = if a == p then c else h a

-- How a call ends: with a value, by following NULL or a freed address, or with no fuel left.
pub data Run (A : Type 0) : Type 0 where
  fault out_of_fuel : Run A
  ok : A → Store → Run A

abbrev pub Cmd : Type 0 → Type 0
Cmd A = Store → Run A

-- `*p`
unfoldable pub load : Ptr → Cmd Node
load p nodes = if p == null then fault else elim (nodes p) [ some n ↦ ok n nodes | none ↦ fault ]

abbrev pub pure : {A : Type 0} → A → Cmd A
pure result nodes = ok result nodes

-- Fills a fresh address, or gives one back.
abbrev pub store : Ptr → Option Node → Cmd (Unit {0})
store p cell nodes = ok tt (write nodes p cell)

module _ {A B : Type 0} where
  abbrev pub chain : Run A → (A → Cmd B) → Run B
  chain fault rest = fault
  chain out_of_fuel rest = out_of_fuel
  chain (ok result nodes) rest = rest result nodes

  infixl 5 ◌>>=◌
  abbrev pub ◌>>=◌ : Cmd A → (A → Cmd B) → Cmd B
  first >>= rest = λ nodes. chain (first nodes) rest

  infixl 5 ◌>>◌
  abbrev pub ◌>>◌ : Cmd A → Cmd B → Cmd B
  first >> second = first >>= λ _. second

-- `free(p)`
unfoldable pub free : Ptr → Cmd (Unit {0})
free p = load p >>= λ _. store p none

-- `p->next = to`
unfoldable pub set_next : Ptr → Ptr → Cmd (Unit {0})
set_next p to = do n ← load p; store p (some (record n { next = to }))
