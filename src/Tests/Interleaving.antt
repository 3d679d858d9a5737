-- ===== src/Tests/Interleaving.antt =====
-- The handler and the worker side by side at concrete inputs.
use auto_repair.Common.{suc, ◌≤◌, true, [], ◌∷◌, ◌≡◌, refl}
use auto_repair.Controller.{contains, delete}
use auto_repair.Controller.Interleaving.{
  System, Step, Steps, no_step, then_step, start, times, waiting, polling, sees_late, adds_item,
  marks_item, takes_item, repairs, forgets_mark,
}
use auto_repair.Controller.Interleaving.Counting.{Steps-once}

-- The worker takes the node and repairs it while the handler still polls it, and deletes the mark.
abbrev polled_and_repaired : System
polled_and_repaired = record {
  enqueue_map = [];
  added = "k8s-worker2" ∷ [];
  cleared = "k8s-worker2" ∷ [];
  handler = polling "k8s-worker2";
  worker = waiting;
}

interleaved : Steps start polled_and_repaired
unfolding contains delete
interleaved =
    then_step
      (then_step
        (then_step
          (then_step
            (then_step (then_step no_step (sees_late "k8s-worker2" refl refl))
              (adds_item "k8s-worker2" refl))
            (takes_item "k8s-worker2" refl refl))
          (marks_item "k8s-worker2" refl))
        (repairs "k8s-worker2" refl))
      (forgets_mark "k8s-worker2" refl)

Steps-once_example :
    (times "k8s-worker2" polled_and_repaired.added
      ≤ suc (times "k8s-worker2" polled_and_repaired.cleared))
    × ((r : System)
        → Step polled_and_repaired r
        → contains polled_and_repaired.enqueue_map "k8s-worker2" ≡ true
        → times "k8s-worker2" r.added ≡ times "k8s-worker2" polled_and_repaired.added)
Steps-once_example = Steps-once "k8s-worker2" interleaved
