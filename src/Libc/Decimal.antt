-- ===== src/Libc/Decimal.antt =====
-- The decimal digits that `printk` prints, read again.
use native.Mathlib.Nat.{mod-lt, div-one, div-add-mod, div-lt_iff_lt-mul, mul-div_cancel}
use sistemas_operacionais.Base.{
  ℕ, zero, suc, ◌+◌, ◌-◌, ◌*◌, ◌/◌, ◌%◌, ◌^◌, ◌≤◌, ◌<◌, ◌≡◌, refl, ap, ◌∙◌, Bool, true, false, ◌&&◌,
  arith, ◌==◌, leb, ltb, if◌then◌else◌, inl, inr, Bool-cases, [], ◌∷◌, ◌++◌, length,
}
use sistemas_operacionais.Libc.{Text, divisor_loop, digits_loop, rounds, decimal}

abbrev pub is_digit : ℕ → Bool
is_digit c = leb b'0' c && leb c b'9'

-- The number that digits stand for, behind digits that stand for `n`, up to the first other
-- character.
unfoldable pub read : (n : ℕ) → Text → ℕ
read n [] = n
read n (c ∷ s) = let more = read (n * 10 + (c - b'0')) s in if is_digit c then more else n

pub tens : ℕ → ℕ
tens zero = 1
tens (suc d) = tens d * 10

pub tens-positive : (d : ℕ) → zero < tens d
unfolding tens
tens-positive zero = omega arith
tens-positive (suc d) = omega (arith, tens-positive d)

spread : (n q r t : ℕ) → (n * 10 + q) * t + r ≡ n * (t * 10) + (t * q + r)
spread n q r t = grind arith

digit-is_digit : (q : ℕ) → q ≤ 9 → is_digit (b'0' + q) ≡ true
digit-is_digit q h = ground arith

pub small-quotient : (value d : ℕ) → value < tens (suc d) → value / tens d ≤ 9
unfolding tens
small-quotient value d h =
    let lt : value / tens d < 10 = (div-lt_iff_lt-mul (tens-positive d)).1 (omega (arith, h)) in
    omega (arith, lt)

read-digit : (n q : ℕ) (s : Text) → q ≤ 9 → read n ((b'0' + q) ∷ s) ≡ read (n * 10 + q) s
unfolding read
read-digit n q s h =
    let back : b'0' + q - b'0' ≡ q = omega arith in rw (read, digit-is_digit q h, back) refl

digits_loop-end : (k value : ℕ) → digits_loop k value 0 ≡ []
unfolding digits_loop
digits_loop-end zero value = refl
digits_loop-end (suc k) value = refl

pub digits_loop-step :
    (k value divisor : ℕ)
    → zero < divisor
    → digits_loop (suc k) value divisor
      ≡ (b'0' + value / divisor) ∷ digits_loop k (value % divisor) (divisor / 10)
unfolding digits_loop
digits_loop-step k value divisor h =
    let ne : (divisor == 0) ≡ false = ground arith in rw (digits_loop, ne) refl

digits_loop-first :
    (k value : ℕ) → digits_loop (suc k) value (tens 0) ≡ (b'0' + value / tens 0) ∷ []
unfolding tens
digits_loop-first k value =
    digits_loop-step k value 1 (omega arith)
    ∙ ap (λ s. (b'0' + value / 1) ∷ s) (digits_loop-end k (value % 1))

digits_loop-tens :
    (k value d : ℕ)
    → digits_loop (suc k) value (tens (suc d))
      ≡ (b'0' + value / tens (suc d)) ∷ digits_loop k (value % tens (suc d)) (tens d)
unfolding tens
digits_loop-tens k value d =
    digits_loop-step k value (tens (suc d)) (tens-positive (suc d))
    ∙ ap (λ t. (b'0' + value / tens (suc d)) ∷ digits_loop k (value % tens (suc d)) t)
        (mul-div_cancel (tens d) (omega arith))

last : (n value : ℕ) → n * 10 + value / tens 0 ≡ n * tens 1 + value
unfolding tens
last n value = omega (arith, div-one value)

level :
    (n value d : ℕ)
    → n * (tens (suc d) * 10) + (tens (suc d) * (value / tens (suc d)) + value % tens (suc d))
      ≡ n * tens (suc (suc d)) + value
unfolding tens
level n value d = ap (λ z. n * tens (suc (suc d)) + z) (div-add-mod value (tens (suc d)))

-- Behind the digits stands a text that starts with none.
module _ (rest : Text) (ends : (n : ℕ) → read n rest ≡ n) where
  pub digits_loop-read :
      (d k n value : ℕ)
      → d < k
      → value < tens (suc d)
      → read n (digits_loop k value (tens d) ++ rest) ≡ n * tens (suc d) + value
  digits_loop-read d zero n value h v = absurd (omega (arith, h))
  digits_loop-read zero (suc k) n value h v =
      rw
        (
          digits_loop-first k value,
          read-digit n (value / tens 0) rest (small-quotient value 0 v),
          ends (n * 10 + value / tens 0),
        )
        (last n value)
  digits_loop-read (suc d) (suc k) n value h v =
      let t : ℕ = tens (suc d) in
      rw (digits_loop-tens k value d) (
        read-digit n (value / t) (digits_loop k (value % t) (tens d) ++ rest)
          (small-quotient value (suc d) v)
        ∙ (digits_loop-read d k (n * 10 + value / t) (value % t) (omega (arith, h))
              (mod-lt value (tens-positive (suc d)))
            ∙ (spread n (value / t) (value % t) t ∙ level n value d)))

pub length-digits_loop : (d k value : ℕ) → d < k → length (digits_loop k value (tens d)) ≡ suc d
length-digits_loop d zero value h = absurd (omega (arith, h))
length-digits_loop zero (suc k) value h = rw (digits_loop-first k value) refl
length-digits_loop (suc d) (suc k) value h =
    rw (digits_loop-tens k value d)
      (ap suc (length-digits_loop d k (value % tens (suc d)) (omega (arith, h))))

-- The divisor that `printk` finds, with the exponent in place of the digits.
record Divided (value d j : ℕ) (r : ℕ × ℕ) : Type 0 where
  exponent : ℕ
  found : r ≡ (tens exponent, exponent)
  small : exponent ≤ d + j
  above : value < tens (suc exponent)

at_first : (value d b : ℕ) → b ≡ d + 0 → value < tens (suc b) → value < tens (suc d)
at_first value d b e v = let same : b ≡ d = omega (arith, e) in rw (← same) v

ten_times : (value t : ℕ) → value < 10 * t → value < t * 10
ten_times value t h = omega (arith, h)

divisor_loop-more :
    (k value d : ℕ)
    → ltb 9 (value / tens d) ≡ true
    → divisor_loop (suc k) value (tens d) d ≡ divisor_loop k value (tens (suc d)) (suc d)
unfolding divisor_loop tens
divisor_loop-more k value d more =
    let next : d + 1 ≡ suc d = omega arith in rw (divisor_loop, more, next) refl

divisor_loop-Divided :
    (j k value d b : ℕ)
    → j ≤ k
    → b ≡ d + j
    → value < tens (suc b)
    → Divided value d j (divisor_loop k value (tens d) d)
unfolding divisor_loop tens
divisor_loop-Divided zero zero value d b h e v = record {
  exponent = d;
  found = refl;
  small = omega arith;
  above = at_first value d b e v;
}
divisor_loop-Divided (suc j) zero value d b h e v = absurd (omega (arith, h))
divisor_loop-Divided zero (suc k) value d b h e v =
    let low = small-quotient value d (at_first value d b e v) in
    let stop : ltb 9 (value / tens d) ≡ false = ground arith in
    record {
      exponent = d;
      found = rw (divisor_loop, stop) refl;
      small = omega arith;
      above = at_first value d b e v;
    }
divisor_loop-Divided (suc j) (suc k) value d b h e v = elim (Bool-cases (ltb 9 (value / tens d))) [
  | inl more ↦
      let m : Divided value (suc d) j (divisor_loop k value (tens (suc d)) (suc d)) =
        divisor_loop-Divided j k value (suc d) b (omega (arith, h)) (omega (arith, e)) v in
      record {
        exponent = m.exponent;
        found = divisor_loop-more k value d more ∙ m.found;
        small = omega (arith, m.small);
        above = m.above;
      }
  | inr stop ↦
      let low : value / tens d < 10 = ground arith in
      record {
        exponent = d;
        found = rw (divisor_loop, stop) refl;
        small = omega arith;
        above = ten_times value (tens d) ((div-lt_iff_lt-mul (tens-positive d)).0 low);
      }
]

-- The digits of a number below ten billion.
pub record Digits (value : ℕ) : Type 0 where
  pub exponent : ℕ
  pub divided : divisor_loop rounds value 1 0 ≡ (tens exponent, exponent)
  pub printed : decimal value ≡ digits_loop rounds value (tens exponent)
  pub small : exponent < rounds
  pub above : value < tens (suc exponent)

pub digits_of : (value : ℕ) → value < 2 ^ 31 → Digits value
unfolding tens decimal
digits_of value h =
    let m : Divided value 0 9 (divisor_loop rounds value (tens 0) 0) =
      divisor_loop-Divided 9 rounds value 0 9 (omega arith) refl (omega (arith, h)) in
    record {
      exponent = m.exponent;
      divided = m.found;
      printed = ap (λ r. digits_loop rounds value r.0) m.found;
      small = omega (arith, m.small);
      above = m.above;
    }
