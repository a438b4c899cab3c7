-- ===== src/Tests/Scheduling.antt =====
-- The scheduler on two ready tasks.
use sistemas_operacionais.Base.{◌≡◌, refl, some, [], ◌∷◌}
use sistemas_operacionais.Base.Int.{pos, negsuc}
use sistemas_operacionais.Queue.View.{view}
use sistemas_operacionais.Kernel.{Ptr, Kernel, boot, put, zero_tcb}
use sistemas_operacionais.Scheduler.{consider, select_loop, scheduler}
use sistemas_operacionais.Scheduler.Pass.{Picked, scheduler-Picked}

abbrev two_ready : Kernel
two_ready = record (boot 0) {
  tcb =
      put (put (boot 0).tcb 10 (record zero_tcb { id = 1; dynamic_priority = pos 4 })) 20
        (record zero_tcb { id = 2; static_priority = pos 1; dynamic_priority = negsuc 2 });
  ready_queue = view (10 ∷ []) (20 ∷ []);
}

scheduler-Picked_example :
    (t : Ptr) × ((scheduler two_ready).0 ≡ some t)
    × Picked two_ready (scheduler two_ready).1 (10 ∷ 20 ∷ []) t
scheduler-Picked_example = scheduler-Picked two_ready 10 (20 ∷ []) refl (refl, (refl, tt))

scheduler-run :
    ((scheduler two_ready).0 ≡ some 20)
    × (((scheduler two_ready).1.tcb 10).dynamic_priority ≡ pos 3)
    × (((scheduler two_ready).1.tcb 20).dynamic_priority ≡ pos 1)
unfolding scheduler select_loop consider
scheduler-run = (refl, refl, refl)
