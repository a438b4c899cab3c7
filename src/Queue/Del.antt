-- ===== src/Queue/Del.antt =====
-- `queue_del`: the first node with the item leaves the chain.
use sistemas_operacionais.Base.{
  ℕ, zero, suc, ◌-◌, ◌<◌, ◌≡◌, sym, ◌∙◌, ◌≢◌, Bool, true, false, some, [], ◌∷◌, ◌++◌, arith, ◌==◌,
  if◌then◌else◌, length, Bool-cases, ==_iff, inl, inr,
}
use sistemas_operacionais.Queue.Store.{Ptr, null, Item, Node, Store, ok}
use sistemas_operacionais.Queue.{Queue, no_error, error, skip, unlink, del_loop}
use sistemas_operacionais.Queue.Steps.{load-ok, set_next-ok, free-ok, not_null, write-other}
use sistemas_operacionais.Queue.View.{any}
use sistemas_operacionais.Queue.Cut.{cut_store}
use sistemas_operacionais.Queue.Chain.{Cells, head_ptr, last_ptr, Chain, last_content, head-ne}

-- The test by which `queue_del` looks for an item.
abbrev pub holds : Item → Ptr × Item → Bool
holds x c = c.1 == x

pub skip-run :
    (h : Store) (it p : Ptr) (n : Node)
    → p ≢ null
    → h p ≡ some n
    → skip it p h ≡ ok (if it == p then n.next else it) h
unfolding skip
skip-run h it p n ne e = elim (Bool-cases (it == p)) [
  | inl same ↦ rw (same, (==_iff it p).0 same, load-ok h ne e)
  | inr other ↦ rw other
]

-- The fields after the node at `d` has left the chain between `p` and `r`.
abbrev cut_fields : Queue → (p d r : Ptr) → Queue
cut_fields q p d r = record q {
  iterator = if q.iterator == d then r else q.iterator;
  last = if d == q.last then p else q.last;
  size = q.size - 1;
}

unlink-run :
    (h : Store) (q : Queue) (p d : Ptr) {n m : Node}
    → p ≢ null
    → d ≢ null
    → p ≢ d
    → h p ≡ some n
    → h d ≡ some m
    → unlink q p d h ≡ ok (no_error, cut_fields q p d m.next) (cut_store h p n.content d m.next)
unfolding unlink
unlink-run h q p d {m} pn dn ne ep ed = rw (
  skip-run h q.iterator d m dn ed,
  load-ok h dn ed,
  set_next-ok h pn ep m.next,
  free-ok _ dn (write-other h p _ d (λ e. ne (sym e)) ∙ ed),
)

module _ (h : Store) (q : Queue) (x : Item) where
  -- The loop with the item further on: it unlinks the first node that holds it.
  pub del_loop-hit :
      (k : ℕ) (c : Ptr × Item) (ys : Cells) (d : Ptr × Item) (zs : Cells)
      → Chain h ((c ∷ ys) ++ (d ∷ zs))
      → any (holds x) ys ≡ false
      → holds x d ≡ true
      → length ys < k
      → del_loop k q x c.0 h
        ≡ ok
            (no_error, cut_fields q (last_ptr (c ∷ ys)) d.0 (head_ptr zs))
            (cut_store h (last_ptr (c ∷ ys)) (last_content (c ∷ ys)) d.0 (head_ptr zs))
  unfolding del_loop
  del_loop-hit zero c ys d zs l missed hit fuel = absurd (omega arith)
  del_loop-hit (suc k) (p, c) [] (dp, dc) zs l missed hit fuel =
      rw (load-ok h l.0 l.1, not_null h l.3.0 l.3.1, load-ok h l.3.0 l.3.1, hit)
        (unlink-run h q p dp l.0 l.3.0 (head-ne p dp dc zs l.2) l.1 l.3.1)
  del_loop-hit (suc k) (p, c) ((p2, c2) ∷ ys) d zs l missed hit fuel =
      rw (load-ok h l.0 l.1, not_null h l.3.0 l.3.1, load-ok h l.3.0 l.3.1, miss)
        (del_loop-hit k (p2, c2) ys d zs l.3 (ground arith) hit (omega arith))
    where
      miss : (c2 == x) ≡ false
      miss = ground arith

  -- The loop with the item nowhere further on.
  pub del_loop-miss :
      (k : ℕ) (c : Ptr × Item) (ys : Cells)
      → Chain h (c ∷ ys)
      → any (holds x) ys ≡ false
      → length ys < k
      → del_loop k q x c.0 h ≡ ok (error, q) h
  unfolding del_loop
  del_loop-miss zero c ys l missed fuel = absurd (omega arith)
  del_loop-miss (suc k) (p, c) [] l missed fuel = rw (load-ok h l.0 l.1)
  del_loop-miss (suc k) (p, c) ((p2, c2) ∷ ys) l missed fuel =
      rw (load-ok h l.0 l.1, not_null h l.3.0 l.3.1, load-ok h l.3.0 l.3.1, miss)
        (del_loop-miss k (p2, c2) ys l.3 (ground arith) (omega arith))
    where
      miss : (c2 == x) ≡ false
      miss = ground arith
