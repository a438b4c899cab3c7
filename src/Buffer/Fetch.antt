-- ===== src/Buffer/Fetch.antt =====
-- `circular_buffer_remove`: the oldest message goes to the caller.
use native.Mathlib.Nat.{mod-lt}
use sistemas_operacionais.Base.{
  refl, ℕ, suc, ◌+◌, ◌-◌, ◌*◌, ◌%◌, ◌≤◌, ◌<◌, ◌≡◌, ap, ◌∙◌, true, false, some, List, [], ◌∷◌, arith,
  ltb, length, differ, same,
}
use sistemas_operacionais.Buffer.{
  Bytes, memcpy, CircularBuffer, cb_noerror, cb_empty_buffer, remove,
}
use sistemas_operacionais.Buffer.Ring.{IsRing, memcpy-inside, memcpy-outside, copy_out-owned, shift}

copied : (dest src : Bytes) (from n j : ℕ) → j < n → memcpy dest 0 src from n j ≡ src (from + j)
copied dest src from n j h =
    ap (memcpy dest 0 src from n) (omega arith) ∙ memcpy-inside dest 0 src from n j h

not_below : (n : ℕ) → n ≡ 1 → ltb 1 n ≡ false
not_below n e = ground arith

below : (n k : ℕ) → n ≡ suc (suc k) → ltb 1 n ≡ true
below n k e = ground arith

-- `circular_buffer_remove` on a buffer that is not empty returns CB_NOERROR, copies the oldest
-- message to the caller's memory and nothing beyond it, and leaves the rest and the capacity.
pub remove-IsRing :
    (b : CircularBuffer) (bytes : Bytes) (m : Bytes) (ms : List Bytes) (dest : Bytes)
    → IsRing b bytes (m ∷ ms)
    → (dest' : Bytes) × (b' : CircularBuffer) × (remove b dest ≡ some (cb_noerror, dest', b'))
      × ((j : ℕ) → j < b.item_size → dest' j ≡ m j)
      × ((j : ℕ) → b.item_size ≤ j → dest' j ≡ dest j)
      × IsRing b' bytes ms
      × (b'.max_capacity ≡ b.max_capacity)
unfolding remove
remove-IsRing b bytes m [] dest r = (
  _,
  record b { item_quant = b.item_quant - 1 },
  rw (differ b.item_quant 0 (omega (arith, r.quant)), several, copy_out-owned b bytes r.owned dest),
  λ j h. copied dest bytes (b.start * b.item_size) b.item_size j h ∙ r.window.0 j h,
  λ j h.
      memcpy-outside dest 0 bytes (b.start * b.item_size) b.item_size j (λ c. omega (arith, c.1)),
  record {
    owned = r.owned;
    start_in = r.start_in;
    quant = omega (arith, r.quant);
    fits = omega (arith, r.fits);
    end_at = r.end_at ∙ ap (λ k. (b.start + k) % b.max_capacity) (omega (arith, r.quant));
    window = tt;
  },
  refl,
)
  where
    several : ltb 1 b.item_quant ≡ false
    several = not_below b.item_quant r.quant
remove-IsRing b bytes m (n ∷ ms) dest r = (
  _,
  record b { start = (b.start + 1) % b.max_capacity; item_quant = b.item_quant - 1 },
  rw (
    differ b.item_quant 0 (omega (arith, r.quant)),
    below b.item_quant (length ms) r.quant,
    copy_out-owned b bytes r.owned dest,
  ),
  λ j h. copied dest bytes (b.start * b.item_size) b.item_size j h ∙ r.window.0 j h,
  λ j h.
      memcpy-outside dest 0 bytes (b.start * b.item_size) b.item_size j (λ c. omega (arith, c.1)),
  record {
    owned = r.owned;
    start_in = mod-lt (b.start + 1) (omega (arith, r.start_in));
    quant = omega (arith, r.quant);
    fits = omega (arith, r.fits);
    end_at =
        r.end_at
        ∙ ap (λ k. (b.start + k) % b.max_capacity) (omega (arith, r.quant))
        ∙ shift b.max_capacity b.start (b.item_quant - 1 - 1);
    window = r.window.1;
  },
  refl,
)

-- An empty buffer and the caller's memory are left as they are, and CB_EMPTY_BUFFER returned.
pub remove-empty :
    (b : CircularBuffer) (bytes dest : Bytes)
    → IsRing b bytes []
    → remove b dest ≡ some (cb_empty_buffer, dest, b)
unfolding remove
remove-empty b bytes dest r = rw (same b.item_quant 0 r.quant)
