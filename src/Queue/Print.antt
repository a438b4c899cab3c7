-- ===== src/Queue/Print.antt =====
-- `queue_print` of lib/queue.c, without the lines under DEBUG, as the text that it prints.
use sistemas_operacionais.Base.{
  ℕ, zero, suc, ◌+◌, false, Option, none, some, [], ◌∷◌, ◌++◌, ◌==◌, if◌then◌else◌,
}
use sistemas_operacionais.Base.Int.{pos}
use sistemas_operacionais.Libc.{Text, print_int}
use sistemas_operacionais.Queue.{Queue}
use sistemas_operacionais.Queue.Store.{Ptr, null, Item, Cmd, out_of_fuel, pure, ◌>>=◌, load}

-- What is printed for one item: by the function that is passed, or "undef" if that is NULL.
abbrev pub shown : Option (Item → Text) → Item → Text
shown none item = b'u' ∷ b'n' ∷ b'd' ∷ b'e' ∷ b'f' ∷ []
shown (some func) item = func item

-- The loop over the nodes.
unfoldable pub print_loop : ℕ → Option (Item → Text) → Ptr → Cmd Text
print_loop zero func aux = λ _. out_of_fuel
print_loop (suc k) func aux = if aux == null then pure [] else do
  n ← load aux
  rest ← print_loop k func n.next
  pure (shown func n.content ++ (b' ' ∷ rest))

-- `queue_print`
unfoldable pub print : (name : Text) → Option Queue → Option (Item → Text) → Cmd Text
unfolding print_loop print_int
print name none func = pure (name ++ (b':' ∷ b' ' ∷ b'u' ∷ b'n' ∷ b'd' ∷ b'e' ∷ b'f' ∷ b'\n' ∷ []))
print name (some q) func = do
  body ← print_loop (q.size + 1) func q.first
  pure (
      name
      ++ ((b':' ∷ b' ' ∷ b'[' ∷ b' ' ∷ [])
          ++ (body
              ++ ((b']' ∷ b' ' ∷ b'(' ∷ [])
                  ++ (print_int false 0 (pos q.size)
                      ++ (b' ' ∷ b'i' ∷ b't' ∷ b'e' ∷ b'm' ∷ b's' ∷ b')' ∷ b'\n' ∷ []))))))
