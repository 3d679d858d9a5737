-- ===== src/Tests/Evicting.antt =====
-- An eviction that the server refuses until its deadline.
use auto_repair.Common.{◌∷◌, ◌≡◌, false, [], refl, arith}
use auto_repair.Env.{Env}
use auto_repair.Calls.{Ends}
use auto_repair.Eviction.{cordon_worker_node_and_delete_pod}
use auto_repair.Calls.{slept}
use auto_repair.Eviction.Deleting.{deleted, cordon_worker_node_and_delete_pod-Ends}
use auto_repair.Tests.World.{world, pod_of}

-- The clock shows exactly how long the program has slept.
abbrev stopwatch : Env
stopwatch = record world { time_now = slept }

cordon_worker_node_and_delete_pod-Ends_example :
    Ends
      (cordon_worker_node_and_delete_pod world "k8s-worker2" [])
      (λ _ u. deleted u ≡ ("default", "web") ∷ [])
cordon_worker_node_and_delete_pod-Ends_example =
    cordon_worker_node_and_delete_pod-Ends world "k8s-worker2" (pod_of "k8s-worker2" false ∷ []) []
      refl ((λ here alone. ground arith), tt)
