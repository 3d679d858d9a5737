-- ===== src/Core/Scaling.antt =====
-- core/scale_up.go and core/scale_down.go: the core's own copies of `ScaleUp` and `ScaleDown`, which
-- no code calls, and core/util.go's check of a worker. The loops are those of scaler/, word for word.
use auto_repair.Common.{
  ℕ, suc, String, Bool, not, Option, none, List, [], ◌∷◌, ◌≡◌, refl, if◌then◌else◌, ◌==◌,
  contains_text, length,
}
use auto_repair.Kube.{Node}
use auto_repair.Env.{Env, Io, Trace, done, pure, ◌>>=◌, ◌>>◌, test◌then◌else◌}
use auto_repair.Calls.{Ensures}
use auto_repair.Errors.{AutorepairError}
use auto_repair.Portal.{
  Access, target_of, check_status_cluster, perform_scale_up, perform_scale_down,
}
use auto_repair.Scaler.{
  ScaleUpResult, scale_up_successful, scale_up_not_needed, ScaleDownResult, scale_down_no_unneeded,
  scale_down_node_delete_started, wait_scale_up, wait_scale_down,
  check_worker_node_can_be_scale_down,
}
use auto_repair.Scaler.Laws.{ScaledUp, scale_up-posts}

-- `checkWorkerNodeCanBeRemove` of core/util.go and `checkWorkerNodeCanBeScaleDown` of
-- core/scale_down.go
unfoldable pub check_worker_node_can_be_remove : Env → String → Io Bool
check_worker_node_can_be_remove = check_worker_node_can_be_scale_down

unfoldable pub number_worker_node : List Node → ℕ
number_worker_node [] = 0
number_worker_node (n ∷ ns) =
    let rest = number_worker_node ns in if contains_text n.name "worker" then suc rest else rest

-- The number that is asked for is overwritten by the number of workers.
unfoldable pub scale_up :
    Env → ℕ → List Node → Access → ℕ → Io (ScaleUpResult × Option AutorepairError)
unfolding number_worker_node
scale_up env fuel nodes a number_node_scale_up = do
  let x = target_of a
  let n = number_worker_node nodes
  ok ← check_status_cluster env x
  test ok
      then (do
        perform_scale_up env x n
        wait_scale_up env x n fuel
        pure (scale_up_successful, none))
      -- the log line asks once more
      else (do check_status_cluster env x; pure (scale_up_not_needed, none))

-- What follows the return for want of candidates: the worker's name is empty, and so is the list of
-- workers to remove.
unfoldable pub scale_down_worker :
    Env → ℕ → Access → String → List String → Io (ScaleDownResult × Option AutorepairError)
unfolding check_worker_node_can_be_remove
scale_down_worker env fuel a worker names = do
  let x = target_of a
  first ← check_worker_node_can_be_remove env worker
  test not first then pure (scale_down_no_unneeded, none) else do
    second_look ← check_worker_node_can_be_remove env worker
    test not second_look then pure (scale_down_no_unneeded, none) else do
      ok ← check_status_cluster env x
      test ok
          then (do
            perform_scale_down env x names
            wait_scale_down env x names fuel
            pure (scale_down_node_delete_started, none))
          else pure (scale_down_no_unneeded, none)

unfoldable pub scale_down : Env → ℕ → Access → Io (ScaleDownResult × Option AutorepairError)
unfolding scale_down_worker
scale_down env fuel a = do
  let candidate_names : List String = []
  test length candidate_names == 0
      then pure (scale_down_no_unneeded, none)
      else scale_down_worker env fuel a "" []

-- Whenever the core's `ScaleUp` returns, it has posted, once or twice, a request for as many workers as
-- there are already, or nothing: the number that it was asked for plays no part. The core's
-- `ScaleDown` returns at once that nothing is to be removed, without a call.
pub core_scaling_lem :
    (env : Env) (fuel : ℕ) (nodes : List Node) (a : Access) (n : ℕ) (t : Trace)
    → Ensures (scale_up env fuel nodes a n t) (ScaledUp a (number_worker_node nodes) t)
      × (scale_down env fuel a t ≡ done (scale_down_no_unneeded, none) t)
unfolding scale_up auto_repair.Scaler.scale_up scale_down
core_scaling_lem env fuel nodes a n t =
    (scale_up-posts env fuel a t (number_worker_node nodes), refl)
