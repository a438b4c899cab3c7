-- ===== src/Dispatcher/Sleepers.antt =====
-- The dispatcher's walk over the sleeping queue.
use sistemas_operacionais.Base.{
  ℕ, zero, suc, ◌+◌, ◌≤◌, ◌<◌, ◌≡◌, refl, sym, ap, ◌∙◌, ◌≢◌, Bool, true, false, not, arith, ◌==◌,
  inl, inr, Bool-cases, differ, ==_iff, length, if◌then◌else◌,
}
use sistemas_operacionais.Base.Int.{pos, ltb_ℤ}
use sistemas_operacionais.Queue.View
use sistemas_operacionais.Queue.View.{View, items, view}
use sistemas_operacionais.Queue.Members.{mem, items-advance, mem-remove}
use sistemas_operacionais.Kernel.{
  Ptr, null, task_kernel, Kernel, Place, at_ready, at_suspended, at_sleeping, at_finished, queue_of,
}
use sistemas_operacionais.Task.{systime}
use sistemas_operacionais.Dispatcher.{
  awake, sleepers_loop, wake_sleepers, done, Outcome, task_of, queue_next, queue_head, queue_size,
}
use sistemas_operacionais.Dispatcher.Consistent.{IsConsistent}
use sistemas_operacionais.Dispatcher.Wake.{roused, awake-keeps}
use sistemas_operacionais.Dispatcher.Present.{Stays, roused-Stays}
use sistemas_operacionais.Dispatcher.WakeLoop.{remove-after, advance-after, current_lem}

-- The task's time has come.
abbrev pub due : Ptr → Kernel → Bool
due p k = not (ltb_ℤ (pos (systime k)) (k.tcb p).wake_up_time)

-- What the walk does to the kernel at most: it wakes tasks of the sleeping queue that are due.
pub record Wakes (k k' : Kernel) : Type 0 where
  pub consistent : IsConsistent k'
  pub same_clock : k'.clock ≡ k.clock
  pub same_current : k'.current ≡ k.current
  pub same_time : (p : Ptr) → (k'.tcb p).wake_up_time ≡ (k.tcb p).wake_up_time
  pub not_early :
      (p : Ptr)
      → mem p (items k.sleeping_queue) ≡ true
      → due p k ≡ false
      → mem p (items k'.sleeping_queue) ≡ true
  pub stays : Stays k k'
  pub others :
      (p : Ptr)
      → mem p (items k.sleeping_queue) ≡ false
      → (mem p (items k'.sleeping_queue) ≡ false) × (k'.tcb p ≡ k.tcb p)

Wakes-refl : (k : Kernel) → IsConsistent k → Wakes k k
Wakes-refl k ok = record {
  consistent = ok;
  same_clock = refl;
  same_current = refl;
  same_time = λ p. refl;
  not_early = λ p i early. i;
  stays = λ p i. i;
  others = λ p out. (out, refl);
}

due-same : (p : Ptr) (k k' : Kernel) → Wakes k k' → due p k' ≡ due p k
unfolding systime
due-same p k k' w = rw (w.same_clock, w.same_time p) refl

pub Wakes-trans : (k k1 k2 : Kernel) → Wakes k k1 → Wakes k1 k2 → Wakes k k2
Wakes-trans k k1 k2 w v = record {
  consistent = v.consistent;
  same_clock = v.same_clock ∙ w.same_clock;
  same_current = v.same_current ∙ w.same_current;
  same_time = λ p. v.same_time p ∙ w.same_time p;
  not_early = λ p i early. v.not_early p (w.not_early p i early) (due-same p k k1 w ∙ early);
  stays = λ p i. v.stays p (w.stays p i);
  others = λ p out.
      let (out1, e1) = w.others p out in let (out2, e2) = v.others p out1 in (out2, e2 ∙ e1);
}

-- The iterator of the sleeping queue moves.
abbrev pub turned : View Ptr → Kernel → Kernel
turned v k = record k { sleeping_queue = v }

turned-items :
    (q : Place) (v : View Ptr) (k : Kernel)
    → items v ≡ items k.sleeping_queue
    → items (queue_of q (turned v k)) ≡ items (queue_of q k)
turned-items at_ready v k e = refl
turned-items at_suspended v k e = refl
turned-items at_sleeping v k e = e
turned-items at_finished v k e = refl

pub turned-Wakes :
    (v : View Ptr) (k : Kernel)
    → items v ≡ items k.sleeping_queue
    → IsConsistent k
    → Wakes k (turned v k)
turned-Wakes v k e ok = record {
  consistent = record {
    member = λ q p i. ok.member q p (ap (mem p) (sym (turned-items q v k e)) ∙ i);
    distinct = λ q. rw (turned-items q v k e) (ok.distinct q);
    outside = λ q. ap (mem task_kernel) (turned-items q v k e) ∙ ok.outside q;
    runs = ok.runs;
    alive = ok.alive;
    handler = ok.handler;
    awake = ok.awake;
    rests = ok.rests;
  };
  same_clock = refl;
  same_current = refl;
  same_time = λ p. refl;
  not_early = λ p i early. ap (mem p) e ∙ i;
  stays = λ p i. rw e i;
  others = λ p out. (ap (mem p) e ∙ out, refl);
}

pub roused-Wakes :
    (p : Ptr) (k : Kernel)
    → IsConsistent k
    → p ≢ null
    → mem p (items k.sleeping_queue) ≡ true
    → due p k ≡ true
    → Wakes k (roused true p k)
roused-Wakes p k ok ne i over = record {
  consistent = (awake-keeps true p k ok ne (ok.member at_sleeping p i).0 i).1;
  same_clock = refl;
  same_current = refl;
  same_time = λ r. elim (Bool-cases (r == p)) [
    | inl here ↦ let e : r ≡ p = (==_iff r p).0 here in rw (here, e) refl
    | inr there ↦ rw there refl
  ];
  not_early = λ r j early. elim (Bool-cases (r == p)) [
    | inl here ↦ absurd (
        let e : r ≡ p = (==_iff r p).0 here in
        let both : true ≡ false = sym over ∙ (ap (λ x. due x k) (sym e) ∙ early) in cc)
    | inr there ↦ mem-remove p k.sleeping_queue (ok.distinct at_sleeping) r ∙ rw (j, there) refl
  ];
  stays = roused-Stays true p k;
  others = λ r out. elim (Bool-cases (r == p)) [
    | inl here ↦ absurd (
        let e : r ≡ p = (==_iff r p).0 here in
        let both : true ≡ false =
          sym i ∙ (ap (λ x. mem x (items k.sleeping_queue)) (sym e) ∙ out) in
        cc)
    | inr there ↦
        (mem-remove p k.sleeping_queue (ok.distinct at_sleeping) r ∙ rw out refl, rw there refl)
  ];
}

-- A step of the walk.
abbrev pub look : Ptr → Kernel → Outcome
look p k = if ltb_ℤ (pos (systime k)) (k.tcb p).wake_up_time then done k else awake p k

record Looked (k : Kernel) (o : Outcome) : Type 0 where
  after : Kernel
  is_done : o ≡ done after
  wakes : Wakes k after
  fewer : length after.sleeping_queue.after ≤ length k.sleeping_queue.after

look-Looked :
    (p : Ptr) (k : Kernel)
    → IsConsistent k
    → p ≢ null
    → mem p (items k.sleeping_queue) ≡ true
    → Looked k (look p k)
look-Looked p k ok ne i = elim (Bool-cases (ltb_ℤ (pos (systime k)) (k.tcb p).wake_up_time)) [
  | inl early ↦ record {
    after = k;
    is_done = rw early refl;
    wakes = Wakes-refl k ok;
    fewer = omega arith;
  }
  | inr over ↦ record {
    after = roused true p k;
    is_done = rw over (awake-keeps true p k ok ne (ok.member at_sleeping p i).0 i).0;
    wakes = roused-Wakes p k ok ne i (rw over refl);
    fewer = remove-after p k.sleeping_queue;
  }
]

pub sleepers_loop-step :
    (fuel : ℕ) (aux : Ptr) (k k1 : Kernel)
    → aux ≢ null
    → look aux k ≡ done k1
    → sleepers_loop (suc fuel) aux k
      ≡ sleepers_loop fuel
          (task_of (View.current (View.advance k1.sleeping_queue)))
          (turned (View.advance k1.sleeping_queue) k1)
unfolding sleepers_loop queue_next
sleepers_loop-step fuel aux k k1 ne e = rw (sleepers_loop, differ aux null ne, e) refl

-- The walk ends.
pub record Walked (k : Kernel) (o : Outcome) : Type 0 where
  pub last : Kernel
  pub ends : o ≡ done last
  pub wakes : Wakes k last

Walked-null :
    (fuel : ℕ) (aux : Ptr) (k : Kernel)
    → IsConsistent k
    → aux ≡ null
    → Walked k (sleepers_loop (suc fuel) aux k)
unfolding sleepers_loop
Walked-null fuel aux k ok e = record {
  last = k;
  ends = rw (sleepers_loop, e) refl;
  wakes = Wakes-refl k ok;
}

pub sleepers_loop-Walked :
    (fuel : ℕ) (k : Kernel)
    → length k.sleeping_queue.after < fuel
    → IsConsistent k
    → Walked k (sleepers_loop fuel (task_of (View.current k.sleeping_queue)) k)
sleepers_loop-Walked zero k enough ok = absurd (omega (arith, enough))
sleepers_loop-Walked (suc fuel) k enough ok = elim (current_lem k.sleeping_queue) [
  | inl none ↦ Walked-null fuel _ k ok none
  | inr (i, some_left) ↦
      let aux : Ptr = task_of (View.current k.sleeping_queue) in
      elim (Bool-cases (aux == null)) [
        | inl none ↦ Walked-null fuel aux k ok ((==_iff aux null).0 none)
        | inr some_task ↦
            let ne : aux ≢ null = λ e. ground arith in
            let l : Looked k (look aux k) = look-Looked aux k ok ne i in
            let v : View Ptr = View.advance l.after.sleeping_queue in
            let t =
              turned-Wakes v l.after (items-advance l.after.sleeping_queue) l.wakes.consistent in
            let rest : Walked (turned v l.after)
                (sleepers_loop fuel (task_of (View.current v)) (turned v l.after)) =
              sleepers_loop-Walked fuel (turned v l.after)
                (omega (arith, enough, some_left, l.fewer, advance-after l.after.sleeping_queue))
                t.consistent in
            record {
              last = rest.last;
              ends = sleepers_loop-step fuel aux k l.after ne l.is_done ∙ rest.ends;
              wakes = Wakes-trans _ _ _ (Wakes-trans _ _ _ l.wakes t) rest.wakes;
            }
      ]
]

-- The walk of the dispatcher over the sleeping queue of a consistent kernel ends with no failed
-- assertion, and leaves the kernel consistent: a task whose time has not come stays in the
-- sleeping queue, a task that was not in it is not touched, and the clock and the task that has
-- the processor are the same.
pub wake_sleepers-keeps :
    (k : Kernel) → IsConsistent k → (k' : Kernel) × (wake_sleepers k ≡ done k') × Wakes k k'
unfolding wake_sleepers queue_head queue_size View.rewind View.count
wake_sleepers-keeps k ok =
    let v : View Ptr = View.rewind k.sleeping_queue in
    let t = turned-Wakes v k refl ok in
    let w =
      sleepers_loop-Walked (length (items k.sleeping_queue) + 1) (turned v k) (omega arith)
        t.consistent in
    (w.last, w.ends, Wakes-trans _ _ _ t w.wakes)
