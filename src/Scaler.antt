-- ===== src/Scaler.antt =====
-- scaler/ScaleUp.go and scaler/ScaleDown.go: scale the cluster through the portal and wait.
pub mod Laws
pub mod Removable
pub mod Waiting
pub mod Removing
pub mod Settled
pub mod Costs
use auto_repair.Common.{
  ℕ, zero, suc, ◌*◌, ◌+◌, String, Bool, true, false, Option, none, some, List, [], ◌∷◌,
  if◌then◌else◌, ◌==◌, ltb, not, str_eq,
}
use auto_repair.Kube.{Pod, OwnerReference, Volume}
use auto_repair.Env.{
  Env, Io, pure, crash, no_fuel, ask, tell, ◌>>=◌, ◌>>◌, test◌then◌else◌, sleep, list_pods,
  get_replica_set, fatal, out_of_range, second,
}
use auto_repair.Errors.{AutorepairError}
use auto_repair.Portal.{
  Target, Access, target_of, check_status_cluster, check_error_status_cluster, perform_scale_up,
  perform_scale_down,
}

-- `ScaleUpResult` of processors/status/scale_up_status_processor.go
pub data ScaleUpResult : Type 0 where
  scale_up_successful scale_up_error scale_up_no_options_available : ScaleUpResult
  scale_up_not_needed scale_up_not_tried scale_up_in_cooldown : ScaleUpResult

-- `ScaleDownResult` of processors/status/scale_down_status_processor.go
pub data ScaleDownResult : Type 0 where
  scale_down_error scale_down_no_unneeded scale_down_no_node_deleted : ScaleDownResult
  scale_down_node_delete_started scale_down_not_tried scale_down_in_cooldown : ScaleDownResult
  scale_down_in_progress : ScaleDownResult

-- The inner loop after a second request: wait until the cluster has succeeded.
pub wait_succeeded : Env → Target → ℕ → Io (Unit {0})
wait_succeeded env x zero = no_fuel
wait_succeeded env x (suc fuel) = do
  tell (sleep (30 * second))
  ok ← check_status_cluster env x
  let again = wait_succeeded env x fuel
  test ok then pure tt else again

-- The outer loop of `ScaleUp`.
pub wait_scale_up : Env → Target → ℕ → ℕ → Io (Unit {0})
unfolding wait_succeeded
wait_scale_up env x n zero = no_fuel
wait_scale_up env x n (suc fuel) = do
  tell (sleep (30 * second))
  is_succeeded_status ← check_status_cluster env x
  let again = wait_scale_up env x n fuel
  test is_succeeded_status then pure tt else do
    is_error_status ← check_error_status_cluster env x
    test is_error_status then (do perform_scale_up env x n; wait_succeeded env x fuel) else again

-- `ScaleUp`. The nodes that it is given are only counted for the log.
unfoldable pub scale_up : Env → ℕ → Access → ℕ → Io (ScaleUpResult × Option AutorepairError)
unfolding wait_scale_up
scale_up env fuel a n = do
  let x = target_of a
  ok ← check_status_cluster env x
  test ok
      then (do
        perform_scale_up env x n
        wait_scale_up env x n fuel
        pure (scale_up_successful, none))
      -- the log line asks once more
      else (do check_status_cluster env x; pure (scale_up_not_needed, none))

volumes_loop : List Volume → Bool → Bool
volumes_loop [] can_be_remove = can_be_remove
volumes_loop (v ∷ vs) can_be_remove = volumes_loop vs (if v.empty_dir then false else can_be_remove)

-- The body of the test on a pod of the node: a pod without an owner is an index out of range.
owner_check : Env → Pod → List OwnerReference → Bool → Io Bool
unfolding volumes_loop
owner_check env p [] can_be_remove = crash out_of_range
owner_check env p (o ∷ os) can_be_remove =
    test str_eq o.kind "DaemonSet" then pure can_be_remove else (do
      r ← ask (get_replica_set p.namespace o.name) (λ t. env.replicas t p.namespace o.name)
      pure (volumes_loop p.volumes (if r == 1 then false else can_be_remove)))

visit : Env → String → Pod → Bool → Io Bool
unfolding owner_check
visit env worker p can_be_remove =
    test str_eq p.node_name worker
    then owner_check env p p.owner_references can_be_remove
    else pure can_be_remove

pods_loop : Env → String → List Pod → Bool → Io Bool
unfolding visit
pods_loop env worker [] can_be_remove = pure can_be_remove
pods_loop env worker (p ∷ ps) can_be_remove = do
  b ← visit env worker p can_be_remove
  pods_loop env worker ps b

abbrev pub pods_or_exit : Option (List Pod) → Io (List Pod)
pods_or_exit none = crash fatal
pods_or_exit (some ps) = pure ps

unfoldable pub check_worker_node_can_be_scale_down : Env → String → Io Bool
unfolding pods_loop
check_worker_node_can_be_scale_down env worker = do
  reply ← ask list_pods env.pods
  ps ← pods_or_exit reply
  pods_loop env worker ps true

-- The outer loop of `ScaleDown`; `count` is declared in its body, so each round starts it at 0.
unfoldable pub wait_scale_down : Env → Target → List String → ℕ → Io (Unit {0})
unfolding wait_succeeded
wait_scale_down env x names zero = no_fuel
wait_scale_down env x names (suc fuel) = do
  let start : ℕ = 0
  tell (sleep (30 * second))
  is_succeeded_status ← check_status_cluster env x
  let count = start + 1
  let again = wait_scale_down env x names fuel
  test is_succeeded_status then pure tt else test ltb 100 count then pure tt else do
    is_error_status ← check_error_status_cluster env x
    test is_error_status
        then (do perform_scale_down env x names; wait_succeeded env x fuel)
        else again

unfoldable pub scale_down :
    Env → ℕ → Access → String → Io (ScaleDownResult × Option AutorepairError)
unfolding wait_scale_down check_worker_node_can_be_scale_down
scale_down env fuel a worker = do
  let x = target_of a
  removable ← check_worker_node_can_be_scale_down env worker
  test not removable then pure (scale_down_no_unneeded, none) else do
    ok ← check_status_cluster env x
    test ok
        then (do
          perform_scale_down env x (worker ∷ [])
          wait_scale_down env x (worker ∷ []) fuel
          pure (scale_down_node_delete_started, none))
        else pure (scale_down_no_unneeded, none)
