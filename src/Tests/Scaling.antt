-- ===== src/Tests/Scaling.antt =====
-- The theorems on the portal and the scaler at concrete inputs, and runs of both.
use mathlib.Core.Path.{subst}
use auto_repair.Common.{
  String, Bool, true, false, List, [], ◌∷◌, ◌≡◌, ◌↔◌, ◌⊎◌, inl, inr, refl, arith, eq_iff, All,
}
use auto_repair.Kube.{Pod}
use auto_repair.Env.{Env, Trace, done, list_clusters, unfinished, out_of_range, ClusterItem}
use auto_repair.Calls.{naps, posts, Ends, Ensures, CrashesWith}
use auto_repair.Portal.{
  list_url, up_request, perform_scale_up, check_status_cluster, itoa, get_domain_api_conform_env,
}
use auto_repair.Portal.Laws.{Succeeded, HasError, check_status_cluster_lem}
use auto_repair.Scaler.{
  scale_up, scale_down, wait_scale_down, check_worker_node_can_be_scale_down, scale_up_successful,
  scale_up_not_needed,
}
use auto_repair.Scaler.Laws.{ScaledUp, ScaledDown, scale_up-posts, scale_down-posts}
use auto_repair.Scaler.Removable.{
  MayGo, IsOrphan, check_worker_node_can_be_scale_down_lem,
  check_worker_node_can_be_scale_down_orphan,
}
use auto_repair.Scaler.Waiting.{
  Answers, RecoversBy, StaysBusy, scale_up_ends, wait_scale_down_never_ends,
}
use auto_repair.Tests.World.{
  world, world_with, access, target, item_of, busy_then_done, broken, pod_of, orphan,
}

itoa_runs : itoa 1024 ≡ "1024"
unfolding itoa
itoa_runs = refl

domain_runs : get_domain_api_conform_env "https://portal/api/cb" ≡ "https://portal"
unfolding get_domain_api_conform_env
domain_runs = refl

scale_up_runs :
    Ends
      (scale_up world 1 access 1 [])
      (λ r u. (r.0 ≡ scale_up_successful) × (posts u ≡ up_request target 1 ∷ []))
unfolding scale_up check_status_cluster perform_scale_up
scale_up_runs = (refl, refl)

abbrev items : List ClusterItem
items = item_of "SCALING" ∷ item_of "SUCCEEDED" ∷ []

check_status_cluster_lem_example :
    (b : Bool) × (check_status_cluster world target []
      ≡ done b (list_clusters (list_url target) "t" ∷ []))
    × ((b ≡ true) ↔ Succeeded "c1" (item_of "SUCCEEDED" ∷ []))
check_status_cluster_lem_example =
    check_status_cluster_lem world target [] (item_of "SUCCEEDED" ∷ []) refl

scale_up-posts_example : Ensures (scale_up world 1 access 1 []) (ScaledUp access 1 [])
scale_up-posts_example = scale_up-posts world 1 access [] 1

scale_down-posts_example :
    Ensures (scale_down world 1 access "k8s-worker2" []) (ScaledDown access "k8s-worker2" [])
scale_down-posts_example = scale_down-posts world 1 access [] "k8s-worker2"

abbrev slow : Env
slow = world_with [] busy_then_done (λ _. broken)

slow-Answers : Answers slow target
slow-Answers t = (item_of (busy_then_done (naps t)) ∷ [], refl)

slow_recovers : RecoversBy slow target 2
slow_recovers t items h e =
    let one : item_of (busy_then_done (naps t)) ∷ [] ≡ items = ground arith in
    let now : busy_then_done (naps t) ≡ "SUCCEEDED" = ground arith in
    subst (Succeeded "c1") one (inr (refl, now, tt))

scale_up_ends_example :
    Ends
      (scale_up slow 3 access 1 [])
      (λ r u. (r.0 ≡ scale_up_successful) ⊎ (r.0 ≡ scale_up_not_needed))
scale_up_ends_example =
    scale_up_ends slow access 1 2 3 [] slow-Answers slow_recovers (omega arith) (omega arith)

-- A worker with two pods, of which the second keeps data in an EmptyDir.
abbrev two_pods : List Pod
two_pods = pod_of "k8s-worker1" true ∷ pod_of "k8s-worker2" true ∷ []

abbrev crowded : Env
crowded = world_with two_pods (λ _. "SUCCEEDED") (λ _. broken)

has_owner : (node : String) (local : Bool) → ¬ IsOrphan "k8s-worker2" (pod_of node local)
has_owner node local (here, alone) = ground arith

check_worker_node_can_be_scale_down_lem_example :
    Ends
      (check_worker_node_can_be_scale_down crowded "k8s-worker2" [])
      (λ c u. (c ≡ true) ↔ All (MayGo (λ _ _. 2) "k8s-worker2") two_pods)
check_worker_node_can_be_scale_down_lem_example =
    check_worker_node_can_be_scale_down_lem crowded (λ _ _. 2) (λ _ _ _. refl) "k8s-worker2"
      two_pods [] refl (has_owner "k8s-worker1" true, (has_owner "k8s-worker2" true, tt))

abbrev with_orphan : Env
with_orphan = world_with (pod_of "k8s-worker2" false ∷ orphan ∷ []) (λ _. "SUCCEEDED") (λ _. broken)

check_worker_node_can_be_scale_down_orphan_example :
    CrashesWith out_of_range (check_worker_node_can_be_scale_down with_orphan "k8s-worker2" [])
check_worker_node_can_be_scale_down_orphan_example =
    check_worker_node_can_be_scale_down_orphan with_orphan "k8s-worker2"
      (pod_of "k8s-worker2" false ∷ orphan ∷ []) [] refl (inr (inl (refl, refl)))

abbrev stuck : Env
stuck = world_with [] (λ _. "SCALING") (λ _. broken)

stuck-Answers : Answers stuck target
stuck-Answers t = (item_of "SCALING" ∷ [], refl)

never-Succeeded : ¬ Succeeded "c1" (item_of "SCALING" ∷ [])
never-Succeeded h = ground (arith, eq_iff "SCALING" "SUCCEEDED")

never_error : ¬ HasError "c1" (item_of "SCALING" ∷ [])
never_error h = ground (arith, eq_iff "SCALING" "ERROR")

stuck_busy : StaysBusy stuck target
stuck_busy t items e =
    let one : item_of "SCALING" ∷ [] ≡ items = ground arith in
    (
      subst (λ xs. ¬ Succeeded "c1" xs) one never-Succeeded,
      subst (λ xs. ¬ HasError "c1" xs) one never_error,
    )

wait_scale_down_never_ends_example :
    (u : Trace) × (wait_scale_down stuck target ("k8s-worker2" ∷ []) 101 [] ≡ unfinished u)
wait_scale_down_never_ends_example =
    wait_scale_down_never_ends stuck target ("k8s-worker2" ∷ []) 101 [] stuck-Answers stuck_busy
