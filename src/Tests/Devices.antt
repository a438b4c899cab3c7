-- ===== src/Tests/Devices.antt =====
-- The message ring, the disk and lib/libc.c at small inputs.
use mathlib.Core.Option
use sistemas_operacionais.Base.{
  ℕ, ◌≡◌, refl, [], ◌∷◌, arith, ◌⊎◌, ◌++◌, ◌+◌, ◌<◌, ◌≤◌, none, some, inl, leb, ltb, ◌&&◌, length,
  false, true,
}
use sistemas_operacionais.Base.Int.{pos, negsuc}
use sistemas_operacionais.Buffer.{Bytes, CircularBuffer, cb_noerror, add, remove}
use sistemas_operacionais.Buffer.Ring.{IsRing, add-IsRing}
use sistemas_operacionais.Buffer.Fetch.{remove-IsRing}
use sistemas_operacionais.Cpu.{Cpu, time_init}
use sistemas_operacionais.Disk
use sistemas_operacionais.Disk.{Disk, idle, reading, writing, request, complete, delay}
use sistemas_operacionais.Disk.Requests.{write-read, request_lem, Accepted, delay-bounds}
use sistemas_operacionais.Libc
use sistemas_operacionais.Libc.{Text, mem_copy}
use sistemas_operacionais.Libc.Copy.{mem_copy_lem}
use sistemas_operacionais.Libc.Printk.{Arg, int, convert, printk}
use sistemas_operacionais.Libc.Conversion.{scan, convert-scan}
use sistemas_operacionais.Libc.Format.{printk-width_zero}

-- Two slots of two bytes, the oldest message in the second.
abbrev stored : Bytes
stored a = 10 + a

abbrev message : Bytes
message j = 12 + j

abbrev next_message : Bytes
next_message j = 70 + j

abbrev one_message : CircularBuffer
one_message = record {
  buffer = some stored;
  item_size = 2;
  item_quant = 1;
  max_capacity = 2;
  start = 1;
  end = 1;
}

one_message-IsRing : IsRing one_message stored (message ∷ [])
one_message-IsRing = record {
  owned = refl;
  start_in = omega arith;
  quant = refl;
  fits = omega arith;
  end_at = refl;
  window = (λ j h. omega arith, tt);
}

add-IsRing_example :
    (b' : CircularBuffer) × (bytes' : Bytes) × (add one_message next_message
      ≡ some (cb_noerror, b'))
    × IsRing b' bytes' ((message ∷ []) ++ (next_message ∷ []))
    × (b'.max_capacity ≡ 2)
    × (b'.item_size ≡ 2)
add-IsRing_example =
    add-IsRing one_message stored (message ∷ []) next_message one_message-IsRing (omega arith)

remove-IsRing_example :
    (dest' : Bytes) × (b' : CircularBuffer) × (remove one_message next_message
      ≡ some (cb_noerror, dest', b'))
    × ((j : ℕ) → j < 2 → dest' j ≡ message j)
    × ((j : ℕ) → 2 ≤ j → dest' j ≡ next_message j)
    × IsRing b' stored []
    × (b'.max_capacity ≡ 2)
remove-IsRing_example = remove-IsRing one_message stored message [] next_message one_message-IsRing

-- A disk of 16 blocks at its first block.
abbrev small_disk : Disk
small_disk = record {
  status = idle;
  image = λ _. 0;
  numblocks = 16;
  blocksize = 64;
  buffer = 0;
  prev_block = 0;
  next_block = 3;
  delay_lo = 30;
  delay_hi = 300;
  time_ms = 0;
}

write-read_example :
    (w v : Disk) × (m'' : Bytes) × (z : Disk) × (request writing 7 (pos 5) 100 small_disk
      ≡ (Disk.no_error, w))
    × (complete stored w ≡ some (stored, v))
    × ((request reading 9 (pos 5) 900 v).0 ≡ Disk.no_error)
    × (complete message (request reading 9 (pos 5) 900 v).1 ≡ some (m'', z))
    × ((i : ℕ) → i < 64 → m'' (900 + i) ≡ stored (100 + i))
    × ((a : ℕ) → ¬ ((900 ≤ a) × (a < 900 + 64)) → m'' a ≡ message a)
    × (z.status ≡ idle)
write-read_example =
    write-read small_disk 5 7 9 100 900 stored message refl (omega arith) (omega arith)
      (omega arith)

request_lem_example :
    (request reading 7 (pos 16) 100 small_disk ≡ (Disk.error, small_disk))
    ⊎ Accepted reading 7 (pos 16) 100 small_disk
request_lem_example = request_lem reading 7 (pos 16) 100 small_disk

delay-bounds_example : (30 ≤ delay 269 small_disk) × (delay 269 small_disk ≤ 325)
delay-bounds_example =
    delay-bounds 269 small_disk refl refl (omega arith) (omega arith) (omega arith)

mem_copy_lem_example :
    (m' : Bytes) × (mem_copy 7 5 (pos 3) stored ≡ (Libc.no_error, m'))
    × ((i : ℕ) → i < 3 → m' (5 + i) ≡ stored (7 + i))
    × ((a : ℕ) → (leb 5 a && ltb a (5 + 3)) ≡ false → m' a ≡ stored a)
mem_copy_lem_example = mem_copy_lem 7 5 2 stored (omega arith) (omega arith) (inl (omega arith))

-- Where the destination begins inside the source the first byte is copied over and over.
smeared : (mem_copy 5 6 (pos 2) stored).1 7 ≡ stored 5
unfolding mem_copy
smeared = refl

printk-width_zero_example :
    printk (b'%' ∷ b'1' ∷ b'0' ∷ b'd' ∷ []) (Arg.int (pos 7) ∷ [])
    ≡ Option.map (λ rest. b'%' ∷ b'?' ∷ rest) (printk (b'd' ∷ []) (Arg.int (pos 7) ∷ []))
printk-width_zero_example =
    printk-width_zero b'1' (b'd' ∷ []) (Arg.int (pos 7) ∷ []) (omega arith) (omega arith)

convert-scan_example :
    (s : Text) × (convert b'd' true 6 (int (negsuc 119)) ≡ some s)
    × (scan s ≡ negsuc 119)
    × (6 ≤ length s)
convert-scan_example = convert-scan true 6 (negsuc 119) (omega arith) (omega arith)

-- The timer's signal has its handler, and expires each millisecond.
abbrev idle_cpu : Cpu
idle_cpu = record { handler = λ _. none; timer = none }

time_init-armed :
    (c : Cpu) × (time_init 34 64 500 idle_cpu ≡ some c)
    × (c.handler 35 ≡ some 500)
    × (c.timer ≡ some (record { signal = 35; value = 1000000; interval = 1000000 }))
unfolding time_init
time_init-armed = (_, refl, refl, refl)
