-- ===== src/Memory/Relink.antt =====
-- One step of `mem_free`'s merging: the headers that it reads and writes.
use sistemas_operacionais.Base.{
  ℕ, ◌+◌, ◌%◌, ◌^◌, ◌≤◌, ◌≡◌, refl, ◌≢◌, true, false, arith, some, List, [], ◌∷◌, inl, inr, ◌⊎◌,
  differ,
}
use sistemas_operacionais.Memory.{
  Ptr, null, Header, Cells, Heap, Run, ok, write, load, set_prev, merge_next, add_u64, sub_u64,
}
use sistemas_operacionais.Memory.Split.{write_self, write-away}
use sistemas_operacionais.Memory.Tiling.{Tile, next_of, Tiled, write-before, tail-frame, Took}

pub load-some : (c : Cells) (p : Ptr) (b : Header) → p ≢ null → c p ≡ some b → load c p ≡ ok b
unfolding load
load-some c p b ne at = rw (load, differ p null ne, at) refl

-- `if (p) p->prev = q`, on the list from `p` on.
pub record Relinked (c : Cells) (p q : Ptr) (ts : List Tile) : Type 0 where
  pub cells : Cells
  pub is_run : set_prev c p q ≡ ok cells
  pub tiled : Tiled cells p ts
  pub below : (x : Ptr) → (p ≡ null) ⊎ (x + 32 ≤ p) → cells x ≡ c x

pub relink : (c : Cells) (p q : Ptr) (ts : List Tile) → Tiled c p ts → Relinked c p q ts
unfolding Tiled set_prev
relink c p q [] e = record { cells = c; is_run = rw e refl; tiled = e; below = λ x h. refl }
relink c p q (t ∷ ts) (ne, id, prev, at, rest) = record {
  cells =
      write c p
        (record { id = id; size = t.size; is_used = t.used; next = next_of p t.size ts; prev = q });
  is_run = rw (set_prev, differ p null ne, load-some c p _ ne at) refl;
  tiled = (
    ne,
    id,
    q,
    write_self c p _,
    tail-frame c _ p (p + 32) t.size ts (omega arith) (λ x far. write-away c p _ x far) rest,
  );
  below =
      λ x h. elim h [ inl null_here ↦ absurd (ne null_here) | inr far ↦ write-before c p _ x far ];
}

-- A merge that succeeds; the block at `p` keeps its `prev`.
pub record Merged (run : Run Heap) (m : Heap) (p prev : Ptr) (before after : List Tile)
    : Type 0 where
  pub heap : Heap
  pub is_run : run ≡ ok heap
  pub took : Took m heap p before after
  pub header : Header
  pub at : heap.cell p ≡ some header
  pub same_prev : header.prev ≡ prev
  pub unused : header.is_used ≡ false

abbrev pub at_size : (id : ℕ) (prev : Ptr) (size : ℕ) (next : Ptr) → Header
at_size id prev size next = record {
  id = id;
  size = size;
  is_used = false;
  next = next;
  prev = prev;
}

pub merge_next-last :
    (m : Heap) (p : Ptr) (b : Header)
    → p ≢ null
    → m.cell p ≡ some b
    → b.next ≡ null
    → merge_next m p ≡ ok m
unfolding merge_next
merge_next-last m p b ne at e = rw (merge_next, load-some m.cell p b ne at, e) refl

pub merge_next-used :
    (m : Heap) (p : Ptr) (b n : Header)
    → p ≢ null
    → m.cell p ≡ some b
    → b.next ≢ null
    → m.cell b.next ≡ some n
    → n.is_used ≡ true
    → merge_next m p ≡ ok m
unfolding merge_next
merge_next-used m p b n ne at ne' at' e =
    rw
      (
        merge_next,
        load-some m.cell p b ne at,
        differ b.next null ne',
        load-some m.cell b.next n ne' at',
        e,
      )
      refl

-- The heap after a merge that leaves these cells.
abbrev pub joined : Heap → Cells → Heap
joined m c = record m {
  cell = c;
  available_bytes = add_u64 m.available_bytes 32;
  allocated_bytes = sub_u64 m.allocated_bytes 32;
}

pub merge_next-joins :
    (m : Heap) (p : Ptr) (b n : Header) (c : Cells)
    → p ≢ null
    → m.cell p ≡ some b
    → b.next ≢ null
    → m.cell b.next ≡ some n
    → n.is_used ≡ false
    → set_prev
        (write m.cell p (record b { size = (b.size + (32 + n.size)) % 2 ^ 32; next = n.next }))
        n.next
        p
      ≡ ok c
    → merge_next m p ≡ ok (joined m c)
unfolding merge_next
merge_next-joins m p b n c ne at ne' at' e s =
    rw
      (
        merge_next,
        load-some m.cell p b ne at,
        differ b.next null ne',
        load-some m.cell b.next n ne' at',
        e,
        s,
      )
      refl
