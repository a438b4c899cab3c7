-- ===== src/Buffer.antt =====
-- The circular buffer of kernel/mqueue.c, byte by byte: memory is a function from addresses (here
-- offsets into a block) to bytes, and `memcpy` is as in C. A NULL buffer or item is `none`.
pub mod Ring
pub mod Fetch
use mathlib.Core.Option
use sistemas_operacionais.Base.{
  ℕ, zero, suc, ◌+◌, ◌-◌, ◌*◌, ◌%◌, Bool, true, false, ◌&&◌, Option, none, some, ◌==◌, leb, ltb,
  if◌then◌else◌,
}
use sistemas_operacionais.Base.Int.{ℤ, pos, negsuc}

abbrev pub Bytes : Type 0
Bytes = ℕ → ℕ

-- `memcpy(dest + to, src + from, n)`
unfoldable pub memcpy : (dest : Bytes) (to : ℕ) (src : Bytes) (from n : ℕ) → Bytes
memcpy dest to src from n a = if leb to a && ltb a (to + n) then src (from + (a - to)) else dest a

-- `circular_buffer`; `buffer` is `none` once it is NULL.
pub record CircularBuffer : Type 0 where
  pub buffer : Option Bytes
  pub item_size : ℕ
  pub item_quant : ℕ
  pub max_capacity : ℕ
  pub start : ℕ
  pub end : ℕ

-- `enum cb_error`
pub data CbError : Type 0 where
  cb_noerror cb_error cb_full_buffer cb_empty_buffer : CbError

-- The enumerator as the `int` that the functions return.
unfoldable pub code : CbError → ℤ
code cb_noerror = pos 0
code cb_error = pos 1
code cb_full_buffer = pos 2
code cb_empty_buffer = pos 3

abbrev pub zero_buffer : CircularBuffer
zero_buffer = record {
  buffer = none;
  item_size = 0;
  item_quant = 0;
  max_capacity = 0;
  start = 0;
  end = 0;
}

-- `value <= 0`
abbrev pub not_positive : ℤ → Bool
not_positive (pos zero) = true
not_positive (pos (suc n)) = false
not_positive (negsuc n) = true

abbrev pub to_nat : ℤ → ℕ
to_nat (pos n) = n
to_nat (negsuc n) = 0

-- `circular_buffer_create`; the option is what `mem_alloc` returns.
unfoldable pub create : Option Bytes → (max_capacity item_size : ℤ) → CircularBuffer
create buff max_capacity item_size =
    if not_positive max_capacity
    then zero_buffer
    else if not_positive item_size
    then zero_buffer
    else elim buff [
      | none ↦ zero_buffer
      | some bytes ↦ record {
        buffer = some bytes;
        item_size = to_nat item_size;
        item_quant = 0;
        max_capacity = to_nat max_capacity;
        start = 0;
        end = 0;
      }
    ]

-- `circular_buffer_destroy`; `mem_free` of the block is outside this state.
unfoldable pub destroy : CircularBuffer → CircularBuffer
destroy b = record b { buffer = none }

-- The copy of an item to a slot; `none` is a write through NULL.
unfoldable pub copy_in : CircularBuffer → (slot : ℕ) → Bytes → Option Bytes
unfolding memcpy
copy_in b slot item =
    Option.map (λ bytes. memcpy bytes (slot * b.item_size) item 0 b.item_size) b.buffer

-- The index of the slot behind the last item.
abbrev pub after_end : CircularBuffer → ℕ
after_end b = (b.end + 1) % b.max_capacity

-- `circular_buffer_add`, at pointers that are not NULL.
unfoldable pub add : CircularBuffer → Bytes → Option (CbError × CircularBuffer)
add b item =
    if b.item_quant == b.max_capacity
    then some (cb_full_buffer, b)
    else if b.item_quant == 0
    then Option.map
        (λ bytes. (cb_noerror, record b { buffer = some bytes; item_quant = b.item_quant + 1 }))
        (copy_in b b.start item)
    else Option.map
        (λ bytes. (
          cb_noerror,
          record b { buffer = some bytes; end = after_end b; item_quant = b.item_quant + 1 },
        ))
        (copy_in b (after_end b) item)

-- The copy of the first item to the caller's memory; `none` is a read through NULL.
unfoldable pub copy_out : CircularBuffer → Bytes → Option Bytes
unfolding memcpy
copy_out b dest =
    Option.map (λ bytes. memcpy dest 0 bytes (b.start * b.item_size) b.item_size) b.buffer

-- `circular_buffer_remove`, at pointers that are not NULL: the code, the memory at `dest` and the
-- buffer.
unfoldable pub remove : CircularBuffer → Bytes → Option (CbError × Bytes × CircularBuffer)
remove b dest =
    if b.item_quant == 0
    then some (cb_empty_buffer, dest, b)
    else if ltb 1 b.item_quant
    then Option.map
        (λ out. (
          cb_noerror,
          out,
          record b { start = (b.start + 1) % b.max_capacity; item_quant = b.item_quant - 1 },
        ))
        (copy_out b dest)
    else Option.map (λ out. (cb_noerror, out, record b { item_quant = b.item_quant - 1 }))
        (copy_out b dest)
