-- ===== src/Buffer/Ring.antt =====
-- The circular buffer as a first-in first-out queue of messages of `item_size` bytes.
use mathlib.Core.Option
use native.Mathlib.Nat.{mod-add-mod, mod-eq_of_lt, mod-eq-sub-mod, mod-lt, add-zero}
use native.Mathlib.Decide.{dec_lt}
use sistemas_operacionais.Base.{
  ℕ, suc, ◌+◌, ◌-◌, ◌*◌, ◌%◌, ◌≤◌, ◌<◌, ◌≡◌, refl, sym, ap, ◌∙◌, ◌≢◌, true, false, ◌&&◌, some, List,
  [], ◌∷◌, ◌++◌, arith, ◌==◌, leb, ltb, differ, same, length, length-append,
}
use sistemas_operacionais.Buffer.{
  Bytes, memcpy, CircularBuffer, cb_noerror, cb_full_buffer, copy_in, after_end, add, copy_out,
}

-- The first `size` bytes at `from` are those of the message.
abbrev pub Reads : Bytes → (from size : ℕ) → Bytes → Type 0
Reads bytes from size m = (j : ℕ) → j < size → bytes (from + j) ≡ m j

-- From the slot `s` on, going round at `capacity`, lie the messages.
abbrev pub Window : Bytes → (size capacity s : ℕ) → List Bytes → Type 0
Window bytes size capacity s [] = Unit {0}
Window bytes size capacity s (m ∷ ms) =
    Reads bytes (s * size) size m × Window bytes size capacity ((s + 1) % capacity) ms

-- The buffer's fields and bytes stand for the messages, oldest first.
pub record IsRing (b : CircularBuffer) (bytes : Bytes) (ms : List Bytes) : Type 0 where
  pub owned : b.buffer ≡ some bytes
  pub start_in : b.start < b.max_capacity
  pub quant : b.item_quant ≡ length ms
  pub fits : b.item_quant ≤ b.max_capacity
  pub end_at : b.end ≡ (b.start + (b.item_quant - 1)) % b.max_capacity
  pub window : Window bytes b.item_size b.max_capacity b.start ms

module _ (dest : Bytes) (to : ℕ) (src : Bytes) (from n : ℕ) where
  pub memcpy-inside : (j : ℕ) → j < n → memcpy dest to src from n (to + j) ≡ src (from + j)
  unfolding memcpy
  memcpy-inside j h = let e : to + j - to ≡ j = omega arith in rw (inside, e)
    where
      inside : (leb to (to + j) && ltb (to + j) (to + n)) ≡ true
      inside = ground arith

  pub memcpy-outside : (a : ℕ) → ¬ ((to ≤ a) × (a < to + n)) → memcpy dest to src from n a ≡ dest a
  unfolding memcpy
  memcpy-outside a h = rw outside
    where
      outside : (leb to a && ltb a (to + n)) ≡ false
      outside = ground arith

-- Two slots share no byte.
slots_apart :
    (s i size j : ℕ)
    → s ≢ i
    → j < size
    → ¬ ((i * size ≤ s * size + j) × (s * size + j < i * size + size))
slots_apart s i size j ne h (lo, hi) = elim (dec_lt s i) [
  | yes lt ↦ grind arith
  | no ge ↦ grind arith
]

-- Fewer than `capacity` steps round the ring do not come back.
step-ne : (capacity s k : ℕ) → s < capacity → suc k < capacity → s ≢ (s + suc k) % capacity
step-ne capacity s k hs hk = elim (dec_lt (s + suc k) capacity) [
  | yes lt ↦ omega (arith, mod-eq_of_lt lt)
  | no ge ↦ omega (
    arith,
    mod-eq-sub-mod {n = s + suc k} {m = capacity} (omega arith),
    mod-eq_of_lt {n = s + suc k - capacity} {m = capacity} (omega arith),
  )
]

pub shift : (capacity s n : ℕ) → (s + suc n) % capacity ≡ ((s + 1) % capacity + n) % capacity
shift capacity s n = rw mod-add-mod (ap (λ k. k % capacity) (omega arith))

pub next : (capacity s n : ℕ) → ((s + n) % capacity + 1) % capacity ≡ (s + suc n) % capacity
next capacity s n = rw mod-add-mod (ap (λ k. k % capacity) (omega arith))

-- A message written behind a window extends it.
Window-write :
    (bytes : Bytes) (size capacity : ℕ) (x : Bytes) (ms : List Bytes) (s i : ℕ)
    → s < capacity
    → length ms < capacity
    → i ≡ (s + length ms) % capacity
    → Window bytes size capacity s ms
    → Window (memcpy bytes (i * size) x 0 size) size capacity s (ms ++ (x ∷ []))
Window-write bytes size capacity x [] s i hs hn e w =
    let e' : i ≡ s = e ∙ (rw (add-zero, mod-eq_of_lt hs)) in
    (λ j h. rw (← e') (memcpy-inside bytes (i * size) x 0 size j h ∙ ap x (omega arith)), tt)
Window-write bytes size capacity x (m ∷ ms) s i hs hn e w = (
  λ j h.
      memcpy-outside bytes (i * size) x 0 size (s * size + j)
        (slots_apart s i size j (λ c. step-ne capacity s (length ms) hs hn (c ∙ e)) h)
      ∙ w.0 j h,
  Window-write bytes size capacity x ms ((s + 1) % capacity) i (mod-lt (s + 1) (omega arith))
      (omega arith) (e ∙ shift capacity s (length ms)) w.1,
)

module _ (b : CircularBuffer) (bytes : Bytes) (owned : b.buffer ≡ some bytes) where
  copy_in-owned :
      (i : ℕ) (x : Bytes) → copy_in b i x ≡ some (memcpy bytes (i * b.item_size) x 0 b.item_size)
  unfolding copy_in
  copy_in-owned i x =
      ap (Option.map (λ (c : Bytes). memcpy c (i * b.item_size) x 0 b.item_size)) owned

  pub copy_out-owned :
      (dest : Bytes)
      → copy_out b dest ≡ some (memcpy dest 0 bytes (b.start * b.item_size) b.item_size)
  unfolding copy_out
  copy_out-owned dest =
      ap (Option.map (λ (c : Bytes). memcpy dest 0 c (b.start * b.item_size) b.item_size)) owned

-- With room left, `circular_buffer_add` returns CB_NOERROR, and the buffer holds the message
-- behind those it held.
pub add-IsRing :
    (b : CircularBuffer) (bytes : Bytes) (ms : List Bytes) (x : Bytes)
    → IsRing b bytes ms
    → length ms < b.max_capacity
    → (b' : CircularBuffer) × (bytes' : Bytes) × (add b x ≡ some (cb_noerror, b'))
      × IsRing b' bytes' (ms ++ (x ∷ []))
      × (b'.max_capacity ≡ b.max_capacity)
      × (b'.item_size ≡ b.item_size)
unfolding add
add-IsRing b bytes [] x r room = (
  record b { buffer = some written; item_quant = b.item_quant + 1 },
  written,
  rw (
    differ b.item_quant b.max_capacity (omega (arith, r.quant)),
    same b.item_quant 0 r.quant,
    copy_in-owned b bytes r.owned b.start x,
  ),
  record {
    owned = refl;
    start_in = r.start_in;
    quant = omega (arith, r.quant);
    fits = omega (arith, r.quant);
    end_at = r.end_at ∙ ap (λ n. (b.start + n) % b.max_capacity) (omega (arith, r.quant));
    window =
        Window-write bytes b.item_size b.max_capacity x [] b.start b.start r.start_in room
          (sym (rw (add-zero, mod-eq_of_lt r.start_in))) tt;
  },
  refl,
  refl,
)
  where
    written : Bytes
    written = memcpy bytes (b.start * b.item_size) x 0 b.item_size
add-IsRing b bytes (m ∷ ms) x r room = (
  record b { buffer = some written; end = after_end b; item_quant = b.item_quant + 1 },
  written,
  rw (
    differ b.item_quant b.max_capacity (omega (arith, r.quant)),
    differ b.item_quant 0 (omega (arith, r.quant)),
    copy_in-owned b bytes r.owned (after_end b) x,
  ),
  record {
    owned = refl;
    start_in = r.start_in;
    quant = omega (arith, r.quant, length-append ms (x ∷ []));
    fits = omega (arith, r.quant);
    end_at = at ∙ ap (λ n. (b.start + n) % b.max_capacity) (omega (arith, r.quant));
    window =
        Window-write bytes b.item_size b.max_capacity x (m ∷ ms) b.start (after_end b) r.start_in
          room at r.window;
  },
  refl,
  refl,
)
  where
    written : Bytes
    written = memcpy bytes (after_end b * b.item_size) x 0 b.item_size

    at : after_end b ≡ (b.start + length (m ∷ ms)) % b.max_capacity
    at =
        ap (λ n. (n + 1) % b.max_capacity) r.end_at
        ∙ next b.max_capacity b.start (b.item_quant - 1)
        ∙ ap (λ n. (b.start + n) % b.max_capacity) (omega (arith, r.quant))

-- A full buffer is left as it is, and CB_FULL_BUFFER returned.
pub add-full :
    (b : CircularBuffer) (bytes : Bytes) (ms : List Bytes) (x : Bytes)
    → IsRing b bytes ms
    → length ms ≡ b.max_capacity
    → add b x ≡ some (cb_full_buffer, b)
unfolding add
add-full b bytes ms x r full = rw full_test
  where
    full_test : (b.item_quant == b.max_capacity) ≡ true
    full_test = let e = r.quant in ground arith
