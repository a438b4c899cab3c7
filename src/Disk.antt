-- ===== src/Disk.antt =====
-- hardware/disk.c: the simulated disk as a machine that one command at a time drives. What the
-- file holds, the timer and the random delay are the host's; an operation that is under way ends
-- when the host's signal comes (`complete`).
pub mod Requests
use sistemas_operacionais.Base.{
  ℕ, ◌+◌, ◌-◌, ◌*◌, ◌/◌, ◌%◌, Bool, true, false, Option, none, some, ◌==◌, leb, if◌then◌else◌,
}
use sistemas_operacionais.Base.Int.{ℤ, pos, negsuc}
use sistemas_operacionais.Buffer.{Bytes, memcpy}

-- `DISK_STATUS_…`
pub data DiskStatus : Type 0 where
  unknown idle reading writing : DiskStatus

-- The value of a status as the `int` that the disk returns.
unfoldable pub status_code : DiskStatus → ℤ
status_code unknown = pos 0
status_code idle = pos 1
status_code reading = pos 2
status_code writing = pos 3

-- `DISK_CMD_…`
pub data Command : Type 0 where
  init read write get_status disk_size block_size delay_min delay_max : Command

-- `struct disk_t`: the image that the file descriptor stands for, and the memory at `buffer`.
pub record Disk : Type 0 where
  pub status : DiskStatus
  pub image : Bytes
  pub numblocks : ℕ
  pub blocksize : ℕ
  pub buffer : ℕ
  pub prev_block : ℕ
  pub next_block : ℕ
  pub delay_lo : ℕ
  pub delay_hi : ℕ
  pub time_ms : ℕ  -- what the timer was last set to

abbrev pub error : ℤ
error = negsuc 0

abbrev pub no_error : ℤ
no_error = pos 0

abbrev pub is_unknown : DiskStatus → Bool
is_unknown unknown = true
is_unknown _ = false

abbrev pub is_idle : DiskStatus → Bool
is_idle idle = true
is_idle _ = false

-- `abs(a - b)`
abbrev pub distance : ℕ → ℕ → ℕ
distance a b = (a - b) + (b - a)

-- `disk_settimer`: the delay in milliseconds, for a number from `random()`, where the product fits an
-- `int`: with the file's delays for any disk of fewer than 2 ^ 31 / 270 blocks.
unfoldable pub delay : (random : ℕ) → Disk → ℕ
delay random d =
    distance d.next_block d.prev_block * (d.delay_hi - d.delay_lo) / d.numblocks
    + d.delay_lo
    + random % (d.delay_hi - d.delay_lo) / 10

-- `disk_init`, on an image of `bytes` bytes that opens; the block size and the delays are those
-- of the file's macros.
unfoldable pub start : (image : Bytes) (bytes : ℕ) → Disk → ℤ × Disk
start image bytes d =
    if is_unknown d.status
    then (
      no_error,
      record d {
        status = idle;
        next_block = 0;
        prev_block = 0;
        image = image;
        blocksize = 64;
        numblocks = bytes / 64;
        delay_lo = 30;
        delay_hi = 300;
      },
    )
    else (error, d)

-- The answer to a question, ERROR before the disk is initialised.
unfoldable pub answer : Disk → ℕ → ℤ × Disk
answer d n = if is_unknown d.status then (error, d) else (pos n, d)

-- `block < 0 || block >= disk.numblocks`
unfoldable pub outside : ℤ → ℕ → Bool
outside (negsuc n) numblocks = true
outside (pos n) numblocks = leb numblocks n

abbrev pub block_of : ℤ → ℕ
block_of (pos n) = n
block_of (negsuc n) = 0

-- `DISK_CMD_READ` and `DISK_CMD_WRITE`
unfoldable pub request : (next : DiskStatus) (random : ℕ) (block : ℤ) (buffer : ℕ) → Disk → ℤ × Disk
unfolding outside delay
request next random block buffer d =
    if is_idle d.status
    then (if buffer == 0
        then (error, d)
        else if outside block d.numblocks
        then (error, d)
        else (let d1 : Disk = record d {
          buffer = buffer;
          next_block = block_of block;
          status = next;
        } in
            (no_error, record d1 { time_ms = delay random d1 })))
    else (error, d)

-- `hw_disk_cmd`. For `init` the image named by `buffer`, and its size, are the host's.
unfoldable pub command :
    (image : Bytes) (bytes random : ℕ) → Command → (block : ℤ) (buffer : ℕ) → Disk → ℤ × Disk
unfolding start answer request status_code
command image bytes random init block buffer d = start image bytes d
command image bytes random read block buffer d = request reading random block buffer d
command image bytes random write block buffer d = request writing random block buffer d
command image bytes random get_status block buffer d = (status_code d.status, d)
command image bytes random disk_size block buffer d = answer d d.numblocks
command image bytes random block_size block buffer d = answer d d.blocksize
command image bytes random delay_min block buffer d = answer d d.delay_lo
command image bytes random delay_max block buffer d = answer d d.delay_hi

-- `disk_sighandle` up to the interrupt that it raises, on the memory at all addresses; `none` is
-- the abort at a status with no operation under way.
unfoldable pub complete : (memory : Bytes) → Disk → Option (Bytes × Disk)
unfolding memcpy
complete memory d =
    let at : ℕ = d.next_block * d.blocksize in
    let d1 : Disk = record d { prev_block = d.next_block; status = idle } in
    elim d.status [
      | reading ↦ some (memcpy memory d.buffer d.image at d.blocksize, d1)
      | writing ↦ some (memory, record d1 { image = memcpy d.image at memory d.buffer d.blocksize })
      | _ ↦ none
    ]
