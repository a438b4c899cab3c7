-- ===== src/Block/Transfers.antt =====
-- What the disk does for a request that the disk manager hands to it.
use sistemas_operacionais.Base.{
  ℕ, ◌+◌, ◌*◌, ◌<◌, ◌≤◌, ◌≡◌, refl, ap, ◌∙◌, ◌≢◌, some, List, ◌∷◌, [], same,
}
use sistemas_operacionais.Base.Int.{pos}
use sistemas_operacionais.Queue.View.{view}
use sistemas_operacionais.Kernel.{Ptr}
use sistemas_operacionais.Buffer.{Bytes, memcpy}
use sistemas_operacionais.Buffer.Ring.{memcpy-inside, memcpy-outside}
use sistemas_operacionais.Disk.{
  Disk, idle, reading, writing, read, write, command, no_error, complete,
}
use sistemas_operacionais.Disk.Requests.{
  busy, rested, after_write, request-busy, complete-read, complete-write,
}
use sistemas_operacionais.Block.{Request, Manager, submit, round, serves, result}
use sistemas_operacionais.Block.Requests.{round-idle}

-- The disk takes a request of either kind.
submit-read :
    (random n : ℕ) (r : Request) (d : Disk)
    → r.type ≡ read
    → r.block ≡ pos n
    → d.status ≡ idle
    → r.buffer ≢ 0
    → n < d.numblocks
    → submit random r d ≡ (no_error, busy reading random n r.buffer d)
unfolding submit command
submit-read random n r d t b e ne h = rw (t, b) (request-busy reading random n r.buffer d e ne h)

submit-write :
    (random n : ℕ) (r : Request) (d : Disk)
    → r.type ≡ write
    → r.block ≡ pos n
    → d.status ≡ idle
    → r.buffer ≢ 0
    → n < d.numblocks
    → submit random r d ≡ (no_error, busy writing random n r.buffer d)
unfolding submit command
submit-write random n r d t b e ne h = rw (t, b) (request-busy writing random n r.buffer d e ne h)

-- A round at an idle disk whose first request the disk takes as `d`.
record Taken (random : ℕ) (s : Manager) (p : Ptr) (d : Disk) : Type 0 where
  after : Manager
  is_round : round random s ≡ serves p after
  value : result p after ≡ no_error
  disk : after.disk ≡ d

taken :
    (random : ℕ) (s : Manager) (p : Ptr) (rest : List Ptr) (d : Disk)
    → s.disk.status ≡ idle
    → s.requests ≡ view [] (p ∷ rest)
    → submit random (s.request p) s.disk ≡ (no_error, d)
    → Taken random s p d
unfolding result
taken random s p rest d e q t = record {
  after = _;
  is_round = round-idle random s p rest e q;
  value = rw (result, same p p) (ap (λ z. z.0) t);
  disk = ap (λ z. z.1) t;
}

module _ (random n : ℕ) (s : Manager) (p : Ptr) (rest : List Ptr) (m : Bytes)
    (e : s.disk.status ≡ idle) (q : s.requests ≡ view [] (p ∷ rest))
    (b : (s.request p).block ≡ pos n) (ne : (s.request p).buffer ≢ 0)
    (h : n < s.disk.numblocks) where
  -- A read at the head of the queue with a block of the disk and a buffer: the round submits it
  -- with no error, and at the end of the operation the buffer holds the block's bytes, the rest of
  -- memory and the disk's bytes are as they were, and the disk is idle again.
  pub round-reads :
      (s.request p).type ≡ read
      → (s' : Manager) × (m' : Bytes) × (d : Disk) × (round random s ≡ serves p s')
        × (result p s' ≡ no_error)
        × (complete m s'.disk ≡ some (m', d))
        × ((i : ℕ)
            → i < s.disk.blocksize
            → m' ((s.request p).buffer + i) ≡ s.disk.image (n * s.disk.blocksize + i))
        × ((a : ℕ)
            → ¬ (((s.request p).buffer ≤ a) × (a < (s.request p).buffer + s.disk.blocksize))
            → m' a ≡ m a)
        × (d.image ≡ s.disk.image)
        × (d.status ≡ idle)
  round-reads t =
      let c : ℕ = (s.request p).buffer in
      let d : Disk = busy reading random n c s.disk in
      let k : Taken random s p d =
        taken random s p rest d e q (submit-read random n (s.request p) s.disk t b e ne h) in
      (
        k.after,
        memcpy m c s.disk.image (n * s.disk.blocksize) s.disk.blocksize,
        rested d,
        k.is_round,
        k.value,
        ap (complete m) k.disk ∙ complete-read m random n c s.disk,
        λ i lt. memcpy-inside m c s.disk.image (n * s.disk.blocksize) s.disk.blocksize i lt,
        λ a out. memcpy-outside m c s.disk.image (n * s.disk.blocksize) s.disk.blocksize a out,
        refl,
        refl,
      )

  -- A write at the head of the queue with a block of the disk and a buffer: the round submits it
  -- with no error, and at the end of the operation the disk's block holds the buffer's bytes of
  -- that time, memory and the disk's other bytes are as they were, and the disk is idle again.
  pub round-writes :
      (s.request p).type ≡ write
      → (s' : Manager) × (d : Disk) × (round random s ≡ serves p s')
        × (result p s' ≡ no_error)
        × (complete m s'.disk ≡ some (m, d))
        × ((i : ℕ)
            → i < s.disk.blocksize
            → d.image (n * s.disk.blocksize + i) ≡ m ((s.request p).buffer + i))
        × ((a : ℕ)
            → ¬ ((n * s.disk.blocksize ≤ a) × (a < n * s.disk.blocksize + s.disk.blocksize))
            → d.image a ≡ s.disk.image a)
        × (d.status ≡ idle)
  round-writes t =
      let c : ℕ = (s.request p).buffer in
      let d : Disk = busy writing random n c s.disk in
      let k : Taken random s p d =
        taken random s p rest d e q (submit-write random n (s.request p) s.disk t b e ne h) in
      (
        k.after,
        after_write m d,
        k.is_round,
        k.value,
        ap (complete m) k.disk ∙ complete-write m random n c s.disk,
        λ i lt. memcpy-inside s.disk.image (n * s.disk.blocksize) m c s.disk.blocksize i lt,
        λ a out. memcpy-outside s.disk.image (n * s.disk.blocksize) m c s.disk.blocksize a out,
        refl,
      )
