-- ===== src/Tests/Drain.antt =====
-- include/SKL/ABIX/Interface/Lease.h: a thread takes a lease, gives it back, and the module drains.
use abix.Prelude.{refl, arith, List, [], ◌∷◌}
use abix.Interface.Lease.{
  ModuleControl, active, add_lease, sub_lease, begin_unload, begin_unload_state, Thread, outside,
  enter, count, grant, release, unload, Steps, stay, next,
}
use abix.Interface.Lease.Draining.{Released, drained-Released}

abbrev running : ModuleControl
running = record { state = active; leases = 0 }

abbrev alone : Thread → List Thread
alone t = t ∷ []

-- The lease is taken and released, and then the module drains.
used :
    Steps (running, alone outside) ((begin_unload (sub_lease (add_lease running))).1, alone outside)
unfolding add_lease
used = next _ _ _ (enter running [] [] refl) (
    next _ _ _ (count running [] []) (
      next _ _ _ (grant (add_lease running) [] [] refl) (
        next _ _ _ (release (add_lease running) [] [])
          (next _ _ _ (unload (sub_lease (add_lease running)) (alone outside)) (stay _)))))

drained-Released_example : Released (alone outside)
drained-Released_example =
    drained-Released running (alone outside)
      ((begin_unload (sub_lease (add_lease running))).1, alone outside)
      ((begin_unload (sub_lease (add_lease running))).1, alone outside) (refl, omega arith) used
      (unfold add_lease sub_lease begin_unload begin_unload_state in refl)
      (unfold add_lease sub_lease begin_unload in refl) (stay _)
