-- ===== src/Libc.antt =====
-- lib/libc.c: the functions that the kernel uses in place of the C library. Text is a list of
-- character codes, and what is printed is the list that goes to `hw_serial_put`.
pub mod Printk
pub mod Copy
pub mod Format
pub mod Decimal
pub mod Conversion
use sistemas_operacionais.Base.{
  ℕ, zero, suc, ◌+◌, ◌-◌, ◌*◌, ◌/◌, ◌%◌, ◌^◌, ◌<◌, Bool, true, false, ◌&&◌, ◌||◌, Option, none,
  some, List, [], ◌∷◌, ◌++◌, ◌==◌, leb, ltb, if◌then◌else◌, length,
}
use sistemas_operacionais.Base.Int.{
  ℤ, pos, negsuc, pos_part, neg_part, ◌+ℤ◌, ◌-ℤ◌, ◌≤ℤ◌, increment, decrement, ltb_ℤ,
}
use sistemas_operacionais.Buffer.{Bytes}

-- `randnum` on the state `rand_number`, which is 32 bits wide. The product of a 32-bit number and
-- 1664525 is below 2 ^ 53, so the `long` arithmetic does not overflow. The new state is also the
-- value.
unfoldable pub randnum : ℕ → ℕ
randnum rand_number = (1664525 * rand_number + 1013904223) % 2 ^ 31

-- `randseed`: the `unsigned long` is stored in an `unsigned int`.
unfoldable pub randseed : ℕ → ℕ
randseed seed = seed % 2 ^ 32

-- `abs`
unfoldable pub abs : ℤ → ℤ
abs num = if ltb_ℤ num (pos 0) then pos 0 -ℤ num else num

-- The loop of `mem_copy` in the memory `m`, from `i` on, with `n` rounds left.
pub copy_loop : (n i orig dest : ℕ) → Bytes → Bytes
copy_loop zero i orig dest m = m
copy_loop (suc n) i orig dest m =
    copy_loop n (i + 1) orig dest (λ a. if a == dest + i then m (orig + i) else m a)

pub data Status : Type 0 where
  no_error error : Status

-- `mem_copy`, with two addresses in one memory.
unfoldable pub mem_copy : (orig dest : ℕ) (size : ℤ) → Bytes → Status × Bytes
unfolding copy_loop
mem_copy orig dest (negsuc n) m = (error, m)
mem_copy orig dest (pos size) m =
    if orig == 0 || (dest == 0 || size == 0)
    then (error, m)
    else (no_error, copy_loop size 0 orig dest m)

-- Text up to its NUL.
abbrev pub Text : Type 0
Text = List ℕ

-- `putch`, which hands one byte to the serial port
abbrev pub putch : ℕ → Text
putch c = c ∷ []

-- The loop of `putst`.
unfoldable pub putst_loop : Text → Text
putst_loop [] = []
putst_loop (c ∷ s) = putch c ++ putst_loop s

-- `putst`, `"NULL"` at NULL.
unfoldable pub putst : Option Text → Text
unfolding putst_loop
putst none = putst_loop (b'N' ∷ b'U' ∷ b'L' ∷ b'L' ∷ [])
putst (some s) = putst_loop s

abbrev pub spaces : ℕ → Text
spaces zero = []
spaces (suc n) = b' ' ∷ spaces n

-- What a `short` width, as its 16 bits, leaves for blanks behind `n` decrements: none if it is negative.
unfoldable pub blanks : (width n : ℕ) → ℕ
blanks width n =
    let rest = (width + (2 ^ 16 - n % 2 ^ 16)) % 2 ^ 16 in if ltb rest (2 ^ 15) then rest else 0

-- The two loops that print blanks while `width > 0`, before or after a text.
unfoldable pub pad : (left_align : Bool) (width : ℕ) → Text → Text
pad true width s = s ++ spaces width
pad false width s = spaces width ++ s

-- "calculate number of digits to print": the divisor, and how often it grew. `int` values are
-- below 2 ^ 31, so ten rounds are enough.
pub divisor_loop : (fuel value divisor digits : ℕ) → ℕ × ℕ
divisor_loop zero value divisor digits = (divisor, digits)
divisor_loop (suc k) value divisor digits =
    let more = divisor_loop k value (divisor * 10) (digits + 1) in
    if ltb 9 (value / divisor) then more else (divisor, digits)

-- "print number digits"
pub digits_loop : (fuel value divisor : ℕ) → Text
digits_loop zero value divisor = []
digits_loop (suc k) value divisor =
    let rest = digits_loop k (value % divisor) (divisor / 10) in
    if divisor == 0 then [] else (b'0' + value / divisor) ∷ rest

abbrev pub rounds : ℕ
rounds = 11

-- The digits of a number that is not negative, and the sign before it.
unfoldable pub decimal : ℕ → Text
unfolding divisor_loop digits_loop
decimal value = digits_loop rounds value (divisor_loop rounds value 1 0).0

-- `%d` and `%i`: the width falls by one for each character printed. At INT_MIN the negation
-- overflows in C; it is not in the range here.
unfoldable pub print_int : (left_align : Bool) (width : ℕ) → ℤ → Text
unfolding divisor_loop decimal pad blanks
print_int left_align width (pos value) =
    pad left_align (blanks width (1 + (divisor_loop rounds value 1 0).1)) (decimal value)
print_int left_align width (negsuc n) =
    pad left_align (blanks width (2 + (divisor_loop rounds (suc n) 1 0).1)) (b'-' ∷ decimal (suc n))

-- `%s`
unfoldable pub print_text : (left_align : Bool) (width : ℕ) → Option Text → Text
unfolding pad blanks
print_text left_align width none =
    pad left_align (blanks width 6) (b'(' ∷ b'n' ∷ b'u' ∷ b'l' ∷ b'l' ∷ b')' ∷ [])
print_text left_align width (some s) = pad left_align (blanks width (length s)) s

-- `"0123456789abcdef"[nibble]`
abbrev pub hex_digit : ℕ → ℕ
hex_digit nibble = if ltb nibble 10 then b'0' + nibble else b'a' + (nibble - 10)

-- The sixteen rounds of `%p`, from nibble `n - 1` down.
pub nibbles : (n value : ℕ) → Text
nibbles zero value = []
nibbles (suc i) value = hex_digit (value / 2 ^ (i * 4) % 16) ∷ nibbles i value

-- `%p`
unfoldable pub print_pointer : ℕ → Text
unfolding nibbles
print_pointer value =
    if value == 0 then b'(' ∷ b'n' ∷ b'i' ∷ b'l' ∷ b')' ∷ [] else b'0' ∷ b'x' ∷ nibbles 16 value
