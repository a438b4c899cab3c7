-- ===== src/Libc/Copy.antt =====
-- `mem_copy` copies exactly the bytes that it is asked to, where the loop does not overwrite what it
-- has not read.
use sistemas_operacionais.Base.{
  ℕ, zero, suc, ◌+◌, ◌-◌, ◌<◌, ◌≤◌, ◌≡◌, refl, ap, ◌∙◌, ◌≢◌, false, ◌&&◌, arith, ◌==◌, leb, ltb,
  ◌⊎◌, inl, inr, Bool-cases, differ,
}
use sistemas_operacionais.Base.Int.{pos}
use sistemas_operacionais.Buffer.{Bytes}
use sistemas_operacionais.Libc.{no_error, copy_loop, mem_copy}

-- The destination begins below the source, or behind its `n` bytes.
abbrev pub Forward : (orig dest n : ℕ) → Type 0
Forward orig dest n = (dest ≤ orig) ⊎ (orig + n ≤ dest)

not_written :
    (orig dest i n a : ℕ)
    → Forward orig dest (i + suc n)
    → dest + i < a
    → a < dest + (i + suc n)
    → (orig + (a - dest) == dest + i) ≡ false
not_written orig dest i n a (inl below) lo hi = ground (arith, below, lo, hi)
not_written orig dest i n a (inr behind) lo hi = ground (arith, behind, lo, hi)

Forward-next : (orig dest i n : ℕ) → Forward orig dest (i + suc n) → Forward orig dest (i + 1 + n)
Forward-next orig dest i n (inl below) = inl below
Forward-next orig dest i n (inr behind) = inr (omega (arith, behind))

Forward-zero : (orig dest n : ℕ) → Forward orig dest n → Forward orig dest (0 + n)
Forward-zero orig dest n (inl below) = inl below
Forward-zero orig dest n (inr behind) = inr (omega (arith, behind))

copy_loop-outside :
    (n i orig dest : ℕ) (m : Bytes) (a : ℕ)
    → (leb (dest + i) a && ltb a (dest + (i + n))) ≡ false
    → copy_loop n i orig dest m a ≡ m a
unfolding copy_loop
copy_loop-outside zero i orig dest m a out = refl
copy_loop-outside (suc n) i orig dest m a out =
    let here : (a == dest + i) ≡ false = ground (arith, out) in
    let rest : (leb (dest + (i + 1)) a && ltb a (dest + (i + 1 + n))) ≡ false =
      ground (arith, out) in
    copy_loop-outside n (i + 1) orig dest _ a rest ∙ rw here

copy_loop-inside :
    (n i orig dest : ℕ) (m : Bytes) (a : ℕ)
    → Forward orig dest (i + n)
    → dest + i ≤ a
    → a < dest + (i + n)
    → copy_loop n i orig dest m a ≡ m (orig + (a - dest))
unfolding copy_loop
copy_loop-inside zero i orig dest m a f lo hi = absurd (omega (arith, lo, hi))
copy_loop-inside (suc n) i orig dest m a f lo hi = elim (Bool-cases (a == dest + i)) [
  | inl here ↦
      let out : (leb (dest + (i + 1)) a && ltb a (dest + (i + 1 + n))) ≡ false =
        ground (arith, here) in
      let same : orig + i ≡ orig + (a - dest) = ground (arith, here) in
      copy_loop-outside n (i + 1) orig dest _ a out ∙ rw here (ap m same)
  | inr there ↦
      let lo' : dest + (i + 1) ≤ a = ground (arith, lo, there) in
      let kept : (orig + (a - dest) == dest + i) ≡ false =
        not_written orig dest i n a f (omega (arith, lo')) hi in
      copy_loop-inside n (i + 1) orig dest _ a (Forward-next orig dest i n f) lo'
        (omega (arith, hi))
      ∙ rw kept
]

mem_copy-run :
    (orig dest n : ℕ) (m : Bytes)
    → orig ≢ 0
    → dest ≢ 0
    → mem_copy orig dest (pos (suc n)) m ≡ (no_error, copy_loop (suc n) 0 orig dest m)
unfolding mem_copy
mem_copy-run orig dest n m o d =
    let some_bytes : (suc n == 0) ≡ false = ground arith in
    rw (mem_copy, differ orig 0 o, differ dest 0 d, some_bytes) refl

-- `mem_copy` of a positive number of bytes between two addresses, neither NULL, of one memory returns
-- no error where the destination begins at or below the source, or behind its last byte: then its
-- bytes are what the source's were, and no other byte changes.
pub mem_copy_lem :
    (orig dest n : ℕ) (m : Bytes)
    → orig ≢ 0
    → dest ≢ 0
    → Forward orig dest (suc n)
    → (m' : Bytes) × (mem_copy orig dest (pos (suc n)) m ≡ (no_error, m'))
      × ((i : ℕ) → i < suc n → m' (dest + i) ≡ m (orig + i))
      × ((a : ℕ) → (leb dest a && ltb a (dest + suc n)) ≡ false → m' a ≡ m a)
mem_copy_lem orig dest n m o d f = (
  copy_loop (suc n) 0 orig dest m,
  mem_copy-run orig dest n m o d,
  (λ i lt.
      copy_loop-inside (suc n) 0 orig dest m (dest + i) (Forward-zero orig dest (suc n) f)
        (omega arith) (omega (arith, lt))
      ∙ ap (λ z. m (orig + z)) (omega arith)),
  λ a out. copy_loop-outside (suc n) 0 orig dest m a (ground (arith, out)),
)
