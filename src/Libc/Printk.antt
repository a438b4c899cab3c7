-- ===== src/Libc/Printk.antt =====
-- `printk` of lib/libc.c: the format is read one character at a time.
use mathlib.Core.Option
use sistemas_operacionais.Base.{
  ◌%◌, ◌^◌, ℕ, ◌+◌, ◌-◌, ◌*◌, ◌%◌, Bool, true, false, ◌&&◌, ◌||◌, Option, none, some, List, [], ◌∷◌,
  ◌++◌, ◌==◌, leb, if◌then◌else◌,
}
use sistemas_operacionais.Base.Int.{ℤ, pos, negsuc}
use sistemas_operacionais.Libc.{Text, print_int, print_text, print_pointer}

-- What the caller of `printk` passes for a conversion.
pub data Arg : Type 0 where
  int : ℤ → Arg
  text : Option Text → Arg
  pointer : ℕ → Arg

-- The low byte of an `int`, as a `char`.
abbrev pub low_byte : ℤ → ℕ
low_byte (pos n) = n % 256
low_byte (negsuc n) = 255 - n % 256

-- The conversions that take an argument, by their letter; `none` is an argument of another type,
-- which is undefined in C.
unfoldable pub convert : (letter : ℕ) (left_align : Bool) (width : ℕ) → Arg → Option Text
unfolding print_int print_text print_pointer
convert letter left_align width (int value) =
    if letter == b'c'
    then some (low_byte value ∷ [])
    else if letter == b'd' || letter == b'i'
    then some (print_int left_align width value)
    else none
convert letter left_align width (text s) =
    if letter == b's' then some (print_text left_align width s) else none
convert letter left_align width (pointer value) =
    if letter == b'p' then some (print_pointer value) else none

abbrev pub takes_argument : ℕ → Bool
takes_argument c = c == b'c' || c == b's' || c == b'd' || c == b'i' || c == b'p'

-- Where the loop stands in the format: at a plain character, behind a `%`, or behind the
-- modifiers read so far.
pub data Mode : Type 0 where
  plain : Mode
  percent : Mode
  modified : (left_align : Bool) (width : ℕ) → Mode

-- The `switch` on the letter of a conversion: what is printed, and the arguments left.
unfoldable pub finish :
    (left_align : Bool) (width letter : ℕ) → List Arg → Option (Text × Mode × List Arg)
unfolding convert
finish left_align width letter args =
    if letter == b'%'
    then some (b'%' ∷ [], plain, args)
    else if takes_argument letter
    then elim args [
      | [] ↦ none
      | a ∷ rest ↦ Option.map (λ out. (out, plain, rest)) (convert letter left_align width a)
    ]
    else some (b'%' ∷ b'?' ∷ [], plain, args)

-- A character behind the `-`, or behind a `%` with none: a digit of the width, a `short`, or the letter.
unfoldable pub modifier :
    (left_align : Bool) (width c : ℕ) → List Arg → Option (Text × Mode × List Arg)
unfolding finish
modifier left_align width c args =
    if leb b'1' c && leb c b'9'
    then some ([], modified left_align ((10 * width + (c - b'0')) % 2 ^ 16), args)
    else finish left_align width c args

-- One character of the format.
unfoldable pub step : Mode → (c : ℕ) → List Arg → Option (Text × Mode × List Arg)
unfolding modifier
step plain c args = if c == b'%' then some ([], percent, args) else some (c ∷ [], plain, args)
step percent c args =
    if c == b'-' then some ([], modified true 0, args) else modifier false 0 c args
step (modified left_align width) c args = modifier left_align width c args

-- The NUL of the format: behind a `%` it prints one.
abbrev pub at_end : Mode → Text
at_end plain = []
at_end _ = b'%' ∷ []

unfoldable pub printk_loop : Mode → Text → List Arg → Option Text
unfolding step
printk_loop m [] args = some (at_end m)
printk_loop m (c ∷ fmt) args = elim (step m c args) [
  | none ↦ none
  | some (out, m', args') ↦ Option.map (λ rest. out ++ rest) (printk_loop m' fmt args')
]

-- `printk`; `none` is an argument that is missing or of the wrong type, undefined in C.
unfoldable pub printk : Text → List Arg → Option Text
unfolding printk_loop
printk fmt args = printk_loop plain fmt args
