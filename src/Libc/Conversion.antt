-- ===== src/Libc/Conversion.antt =====
-- What `%d` of `printk` prints, read again.
use sistemas_operacionais.Base.{
  ℕ, zero, suc, ◌+◌, ◌/◌, ◌^◌, ◌≤◌, ◌<◌, ◌≡◌, refl, sym, ap, ◌∙◌, Bool, true, false, arith, ◌==◌,
  if◌then◌else◌, some, [], ◌∷◌, ◌++◌, length,
}
use sistemas_operacionais.Base.Int.{ℤ, pos, negsuc, pos_part, neg_part}
use sistemas_operacionais.Libc.{Text, spaces, pad, blanks, rounds, decimal, print_int}
use sistemas_operacionais.Libc.Printk.{int, convert}
use sistemas_operacionais.Libc.Decimal.{
  read, tens, tens-positive, digits_loop-step, digits_loop-read, length-digits_loop, Digits,
  digits_of,
}

abbrev negate : ℕ → ℤ
negate zero = pos 0
negate (suc n) = negsuc n

-- The number that a text shows: blanks, perhaps a sign, and digits.
pub scan : Text → ℤ
unfolding read
scan [] = pos 0
scan (c ∷ s) =
    let more = scan s in
    if c == b' ' then more else if c == b'-' then negate (read 0 s) else pos (read 0 (c ∷ s))

spaces-read : (w n : ℕ) → read n (spaces w) ≡ n
unfolding read
spaces-read zero n = refl
spaces-read (suc w) n = refl

spaces-scan : (w : ℕ) (s : Text) → scan (spaces w ++ s) ≡ scan s
unfolding scan
spaces-scan zero s = refl
spaces-scan (suc w) s = spaces-scan w s

append-empty : (s : Text) → s ++ [] ≡ s
append-empty [] = refl
append-empty (c ∷ s) = ap (λ t. c ∷ t) (append-empty s)

-- A text that shows `z` whatever comes behind it shows `z` padded.
pad-scan :
    (left_align : Bool) (w : ℕ) (s : Text) (z : ℤ)
    → ((rest : Text) → ((n : ℕ) → read n rest ≡ n) → scan (s ++ rest) ≡ z)
    → scan (pad left_align w s) ≡ z
unfolding pad
pad-scan true w s z h = h (spaces w) (spaces-read w)
pad-scan false w s z h = spaces-scan w s ∙ (ap scan (sym (append-empty s)) ∙ h [] (spaces-read 0))

length-spaces : (w : ℕ) → length (spaces w) ≡ w
length-spaces zero = refl
length-spaces (suc w) = ap suc (length-spaces w)

length-append : (s t : Text) → length (s ++ t) ≡ length s + length t
length-append [] t = omega arith
length-append (c ∷ s) t = omega (arith, length-append s t)

length-pad : (left_align : Bool) (w : ℕ) (s : Text) → length (pad left_align w s) ≡ length s + w
unfolding pad
length-pad true w s = omega (arith, length-append s (spaces w), length-spaces w)
length-pad false w s = omega (arith, length-append (spaces w) s, length-spaces w)

digit-scan : (q : ℕ) (s : Text) → scan ((b'0' + q) ∷ s) ≡ pos (read 0 ((b'0' + q) ∷ s))
unfolding scan
digit-scan q s =
    let blank : (b'0' + q == b' ') ≡ false = ground arith in
    let sign : (b'0' + q == b'-') ≡ false = ground arith in rw (scan, blank, sign) refl

sign-scan : (s : Text) → scan (b'-' ∷ s) ≡ negate (read 0 s)
unfolding scan
sign-scan s = refl

module _ (value : ℕ) (h : value < 2 ^ 31) where
  abbrev d : Digits value
  d = digits_of value h

  length-decimal : length (decimal value) ≡ suc d.exponent
  length-decimal = ap length d.printed ∙ length-digits_loop d.exponent rounds value d.small

  module _ (rest : Text) (ends : (n : ℕ) → read n rest ≡ n) where
    decimal-read : read 0 (decimal value ++ rest) ≡ value
    decimal-read =
        ap (λ s. read 0 (s ++ rest)) d.printed
        ∙ digits_loop-read rest ends d.exponent rounds 0 value d.small d.above
        ∙ omega arith

    decimal-scan : scan (decimal value ++ rest) ≡ pos value
    decimal-scan =
        let first =
          d.printed ∙ digits_loop-step 10 value (tens d.exponent) (tens-positive d.exponent) in
        ap (λ s. scan (s ++ rest)) first
        ∙ (digit-scan (value / tens d.exponent) _
            ∙ (ap (λ s. pos (read 0 (s ++ rest))) (sym first) ∙ ap pos decimal-read))

-- A width that a `short` holds is what the blanks and the decrements come to at least.
blanks-enough : (width n : ℕ) → width < 2 ^ 15 → width ≤ blanks width n + n
unfolding blanks
blanks-enough width n narrow = ground (arith, narrow)

print_int-pos :
    (left_align : Bool) (width v : ℕ) (h : v < 2 ^ 31)
    → print_int left_align width (pos v)
      ≡ pad left_align (blanks width (1 + (digits_of v h).exponent)) (decimal v)
unfolding print_int
print_int-pos left_align width v h =
    ap (λ r. pad left_align (blanks width (1 + r.1)) (decimal v)) (digits_of v h).divided

print_int-negsuc :
    (left_align : Bool) (width n : ℕ) (h : suc n < 2 ^ 31)
    → print_int left_align width (negsuc n)
      ≡ pad left_align (blanks width (2 + (digits_of (suc n) h).exponent)) (b'-' ∷ decimal (suc n))
unfolding print_int
print_int-negsuc left_align width n h =
    ap (λ r. pad left_align (blanks width (2 + r.1)) (b'-' ∷ decimal (suc n)))
      (digits_of (suc n) h).divided

print_int-scan :
    (left_align : Bool) (width : ℕ) (z : ℤ)
    → pos_part z + neg_part z < 2 ^ 31
    → width < 2 ^ 15
    → (scan (print_int left_align width z) ≡ z) × (width ≤ length (print_int left_align width z))
print_int-scan left_align width (pos v) h narrow =
    let lt : v < 2 ^ 31 = omega (arith, h) in
    let w : ℕ = blanks width (1 + (digits_of v lt).exponent) in
    rw (print_int-pos left_align width v lt) (
      pad-scan left_align w (decimal v) (pos v) (λ rest ends. decimal-scan v lt rest ends),
      omega (
        arith,
        length-pad left_align w (decimal v),
        length-decimal v lt,
        blanks-enough width (1 + (digits_of v lt).exponent) narrow,
      ),
    )
print_int-scan left_align width (negsuc n) h narrow =
    let lt : suc n < 2 ^ 31 = omega (arith, h) in
    let w : ℕ = blanks width (2 + (digits_of (suc n) lt).exponent) in
    rw (print_int-negsuc left_align width n lt) (
      pad-scan left_align w (b'-' ∷ decimal (suc n)) (negsuc n) (λ rest ends.
          sign-scan (decimal (suc n) ++ rest) ∙ ap negate (decimal-read (suc n) lt rest ends)),
      omega (
        arith,
        length-pad left_align w (b'-' ∷ decimal (suc n)),
        length-decimal (suc n) lt,
        blanks-enough width (2 + (digits_of (suc n) lt).exponent) narrow,
      ),
    )

-- With a width that a `short` holds, `%d` of an `int` above INT_MIN prints a text that shows that number, with a sign if it is
-- negative, and is as wide as the width asked for at least, however it is aligned.
pub convert-scan :
    (left_align : Bool) (width : ℕ) (z : ℤ)
    → pos_part z + neg_part z < 2 ^ 31
    → width < 2 ^ 15
    → (s : Text) × (convert b'd' left_align width (int z) ≡ some s)
      × (scan s ≡ z)
      × (width ≤ length s)
unfolding convert
convert-scan left_align width z h narrow =
    let (shows, wide) = print_int-scan left_align width z h narrow in
    (print_int left_align width z, refl, shows, wide)
