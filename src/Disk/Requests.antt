-- ===== src/Disk/Requests.antt =====
-- Requests to the disk and their ends.
use native.Mathlib.Nat.{div-lt_iff_lt-mul}
use sistemas_operacionais.Base.{
  ◌^◌, ℕ, ◌+◌, ◌*◌, ◌/◌, ◌≤◌, ◌<◌, ◌≡◌, refl, ap, ◌∙◌, ◌≢◌, Bool, true, false, arith, ◌==◌, leb,
  if◌then◌else◌, ◌⊎◌, inl, inr, differ, some, Bool-cases,
}
use sistemas_operacionais.Base.Int.{ℤ, pos, negsuc}
use sistemas_operacionais.Buffer.{Bytes, memcpy}
use sistemas_operacionais.Buffer.Ring.{memcpy-inside, memcpy-outside}
use sistemas_operacionais.Disk.{
  DiskStatus, unknown, idle, reading, writing, Disk, error, no_error, is_idle, outside, request,
  complete, delay, distance,
}

-- The disk with an accepted request under way.
abbrev pub busy : DiskStatus → (random n buffer : ℕ) → Disk → Disk
busy next random n buffer d =
    let d1 : Disk = record d { buffer = buffer; next_block = n; status = next } in
    record d1 { time_ms = delay random d1 }

pub request-busy :
    (next : DiskStatus) (random n buffer : ℕ) (d : Disk)
    → d.status ≡ idle
    → buffer ≢ 0
    → n < d.numblocks
    → request next random (pos n) buffer d ≡ (no_error, busy next random n buffer d)
unfolding request outside
request-busy next random n buffer d e ne h =
    let inside : leb d.numblocks n ≡ false = ground arith in
    rw (request, e, differ buffer 0 ne, inside)

-- The idle disk after the operation.
abbrev pub rested : Disk → Disk
rested d = record d { prev_block = d.next_block; status = idle }

-- What a written block holds, and then a block read.
abbrev pub after_write : Bytes → Disk → Disk
after_write memory d = record (rested d) {
  image = memcpy d.image (d.next_block * d.blocksize) memory d.buffer d.blocksize;
}

pub complete-write :
    (memory : Bytes) (random n buffer : ℕ) (d : Disk)
    → complete memory (busy writing random n buffer d)
      ≡ some (memory, after_write memory (busy writing random n buffer d))
unfolding complete
complete-write memory random n buffer d = refl

pub complete-read :
    (memory : Bytes) (random n buffer : ℕ) (d : Disk)
    → complete memory (busy reading random n buffer d)
      ≡ some (
        memcpy memory buffer d.image (n * d.blocksize) d.blocksize,
        rested (busy reading random n buffer d),
      )
unfolding complete
complete-read memory random n buffer d = refl

-- A block that is written from the buffer `b` and then read into the buffer `c` arrives there as
-- it was in memory when the write ended, whatever memory is later; no other byte of memory
-- changes, and the disk is idle again.
pub write-read :
    (d : Disk) (n r s b c : ℕ) (m m' : Bytes)
    → d.status ≡ idle
    → n < d.numblocks
    → b ≢ 0
    → c ≢ 0
    → (w v : Disk) × (m'' : Bytes) × (z : Disk) × (request writing r (pos n) b d ≡ (no_error, w))
      × (complete m w ≡ some (m, v))
      × ((request reading s (pos n) c v).0 ≡ no_error)
      × (complete m' (request reading s (pos n) c v).1 ≡ some (m'', z))
      × ((i : ℕ) → i < d.blocksize → m'' (c + i) ≡ m (b + i))
      × ((a : ℕ) → ¬ ((c ≤ a) × (a < c + d.blocksize)) → m'' a ≡ m' a)
      × (z.status ≡ idle)
write-read d n r s b c m m' e h nb nc =
    let w : Disk = busy writing r n b d in
    let v : Disk = after_write m w in
    let again = request-busy reading s n c v refl nc h in
    (
      w,
      v,
      memcpy m' c v.image (n * d.blocksize) d.blocksize,
      rested (busy reading s n c v),
      request-busy writing r n b d e nb h,
      complete-write m r n b d,
      ap (λ p. p.0) again,
      ap (λ p. complete m' p.1) again ∙ complete-read m' s n c v,
      λ i lt.
          memcpy-inside m' c v.image (n * d.blocksize) d.blocksize i lt
          ∙ memcpy-inside d.image (n * d.blocksize) m b d.blocksize i lt,
      λ a out. memcpy-outside m' c v.image (n * d.blocksize) d.blocksize a out,
      refl,
    )

if-same {ℓ} : {A : Type ℓ} (b : Bool) (x : A) → (if b then x else x) ≡ x
if-same true x = refl
if-same false x = refl

is_idle_lem : (s : DiskStatus) → (is_idle s ≡ false) ⊎ (s ≡ idle)
is_idle_lem unknown = inl refl
is_idle_lem idle = inr refl
is_idle_lem reading = inl refl
is_idle_lem writing = inl refl

-- What an accepted request has, and does.
pub record Accepted (next : DiskStatus) (random : ℕ) (block : ℤ) (buffer : ℕ) (d : Disk)
    : Type 0 where
  pub number : ℕ
  pub block_number : block ≡ pos number
  pub was_idle : d.status ≡ idle
  pub buffer_given : buffer ≢ 0
  pub in_range : number < d.numblocks
  pub accepted : request next random block buffer d ≡ (no_error, busy next random number buffer d)

-- A request is an error that changes nothing, or the disk was idle, the buffer is not NULL, the
-- block is from zero to below the number of blocks, and the operation is under way on that block.
pub request_lem :
    (next : DiskStatus) (random : ℕ) (block : ℤ) (buffer : ℕ) (d : Disk)
    → (request next random block buffer d ≡ (error, d)) ⊎ Accepted next random block buffer d
unfolding request outside
request_lem next random (negsuc n) buffer d =
    inl (rw (request, if-same (buffer == 0)) (if-same (is_idle d.status) (error, d)))
request_lem next random (pos n) buffer d = elim (is_idle_lem d.status) [
  | inl not_idle ↦ inl (rw (request, not_idle))
  | inr e ↦ elim (Bool-cases (buffer == 0)) [
    | inl none ↦ inl (rw (request, e, none))
    | inr given ↦ elim (Bool-cases (leb d.numblocks n)) [
      | inl out ↦ inl (rw (request, e, given, out))
      | inr inside ↦
          let ne : buffer ≢ 0 = λ h. ground arith in
          let lt : n < d.numblocks = ground arith in
          inr (record {
            number = n;
            block_number = refl;
            was_idle = e;
            buffer_given = ne;
            in_range = lt;
            accepted = request-busy next random n buffer d e ne lt;
          })
    ]
  ]
]

-- With the file's delays, both blocks below the number of blocks, and so few blocks that the product
-- of the distance and the span of the delays fits an `int`, the delay of an operation is
-- from 30 to 325 milliseconds.
pub delay-bounds :
    (random : ℕ) (d : Disk)
    → d.delay_lo ≡ 30
    → d.delay_hi ≡ 300
    → d.next_block < d.numblocks
    → d.prev_block < d.numblocks
    → d.numblocks * 270 < 2 ^ 31
    → (30 ≤ delay random d) × (delay random d ≤ 325)
unfolding delay
delay-bounds random d lo hi next prev fits =
    let far : distance d.next_block d.prev_block < d.numblocks = omega arith in
    let some_block : 0 < d.numblocks = omega arith in
    let below : distance d.next_block d.prev_block * 270 < 270 * d.numblocks = omega arith in
    let seek : distance d.next_block d.prev_block * 270 / d.numblocks < 270 =
      (div-lt_iff_lt-mul {k = d.numblocks} some_block).1 below in
    rw (lo, hi) (omega arith, omega arith)
