-- ===== src/Queue/Steps.antt =====
-- What a single read or write of a node does.
use sistemas_operacionais.Base.{◌≡◌, ◌≢◌, false, Option, none, some, arith, ◌==◌}
use sistemas_operacionais.Queue.Store.{
  Ptr, null, Node, node, Store, write, ok, load, set_next, free,
}

module _ (h : Store) {p : Ptr} {n : Node} (ne : p ≢ null) (e : h p ≡ some n) where
  pub not_null : (p == null) ≡ false
  not_null = ground arith

  pub load-ok : load p h ≡ ok n h
  unfolding load
  load-ok = rw (not_null, e)

  pub set_next-ok : (q : Ptr) → set_next p q h ≡ ok tt (write h p (some (node q n.content)))
  unfolding set_next
  set_next-ok q = rw load-ok

  pub free-ok : free p h ≡ ok tt (write h p none)
  unfolding free
  free-ok = rw load-ok

pub write_self : (h : Store) (p : Ptr) (n : Option Node) → write h p n p ≡ n
unfolding write
write_self h p n = ground arith

pub write-other : (h : Store) (p : Ptr) (n : Option Node) (a : Ptr) → a ≢ p → write h p n a ≡ h a
unfolding write
write-other h p n a ne = ground arith
