-- ===== src/Memory/Report.antt =====
-- `mem_report` of kernel/memory.c, without the lines under DEBUG, as the text that it prints.
use sistemas_operacionais.Base.{
  ℕ, zero, suc, ◌+◌, ◌-◌, ◌*◌, ◌^◌, none, some, List, [], ◌∷◌, ◌++◌, ◌==◌, ltb, if◌then◌else◌,
}
use sistemas_operacionais.Base.Int.{ℤ, pos, negsuc}
use sistemas_operacionais.Libc.{Text}
use sistemas_operacionais.Libc.Printk.{Arg, int, pointer, printk}
use sistemas_operacionais.Memory.{
  Ptr, null, Header, Cells, Heap, Run, ok, fault, out_of_fuel, ◌>>=◌, load, header_size,
}

-- What `%d` makes of an `unsigned int`.
abbrev pub as_int : ℕ → ℤ
as_int n = if ltb n (2 ^ 31) then pos n else negsuc (2 ^ 32 - 1 - n)

-- `printf`; an argument of the wrong type is undefined.
unfoldable pub emit : Text → List Arg → Run Text
unfolding printk
emit fmt args = elim (printk fmt args) [ none ↦ fault | some out ↦ ok out ]

-- A neighbour by its id, or NULL.
unfoldable pub neighbour : Cells → (shown absent : Text) → Ptr → Run Text
unfolding emit
neighbour c shown absent q =
    if q == null then emit absent [] else (load c q >>= λ a. emit shown (int (pos a.id) ∷ []))

-- What is printed for the block at `p`. `current_block + current_block->size` counts headers.
unfoldable pub report_block : Cells → (p : Ptr) → Header → Run Text
unfolding emit neighbour
report_block c p b = do
  first ←
      emit
        (b'h' ∷ b'e' ∷ b'a' ∷ b'p' ∷ b':' ∷ b' ' ∷ b'b' ∷ b'l' ∷ b'o' ∷ b'c' ∷ b'k' ∷ b' ' ∷ b'%'
          ∷ b'd' ∷ b' ' ∷ b':' ∷ b' ' ∷ b'%' ∷ b'p' ∷ b' ' ∷ b'-' ∷ b' ' ∷ b'%' ∷ b'p' ∷ b' ' ∷ [])
        (int (pos b.id) ∷ pointer p ∷ pointer (p + header_size * b.size) ∷ [])
  state ←
      emit
        (if b.is_used
          then b'a' ∷ b'l' ∷ b'o' ∷ b'c' ∷ b' ' ∷ []
          else b'F' ∷ b'R' ∷ b'E' ∷ b'E' ∷ b' ' ∷ [])
        []
  before ←
      neighbour c (b'p' ∷ b'r' ∷ b'e' ∷ b'v' ∷ b' ' ∷ b'%' ∷ b'd' ∷ b'\t' ∷ [])
        (b'p' ∷ b'r' ∷ b'e' ∷ b'v' ∷ b' ' ∷ b'N' ∷ b'U' ∷ b'L' ∷ b'L' ∷ b'\t' ∷ []) b.prev
  behind ←
      neighbour c (b'n' ∷ b'e' ∷ b'x' ∷ b't' ∷ b' ' ∷ b'%' ∷ b'd' ∷ b'\t' ∷ [])
        (b'n' ∷ b'e' ∷ b'x' ∷ b't' ∷ b' ' ∷ b'N' ∷ b'U' ∷ b'L' ∷ b'L' ∷ b'\t' ∷ []) b.next
  last ←
      emit (b's' ∷ b'i' ∷ b'z' ∷ b'e' ∷ b' ' ∷ b'%' ∷ b'd' ∷ b'\n' ∷ []) (int (as_int b.size) ∷ [])
  ok (first ++ (state ++ (before ++ (behind ++ last))))

-- The `do … while`.
unfoldable pub report_loop : ℕ → Cells → (p : Ptr) → Run Text
unfolding report_block
report_loop zero c p = out_of_fuel
report_loop (suc k) c p =
    let on = λ (q : Ptr). report_loop k c q in
    load c p >>= λ b. report_block c p b >>= λ line.
    if b.next == null then ok line else (on b.next >>= λ rest. ok (line ++ rest))

-- `mem_report`, on `fuel` blocks at most.
unfoldable pub report : (fuel : ℕ) → Heap → Run Text
unfolding report_loop
report fuel m = report_loop fuel m.cell m.start
