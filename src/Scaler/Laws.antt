-- ===== src/Scaler/Laws.antt =====
-- What scaling up and down posts to the portal.
use auto_repair.Common.{ℕ, zero, suc, String, Option, none, List, [], ◌∷◌, ◌≡◌, ◌⊎◌, arith, Bool}
use auto_repair.Env.{Env, Trace, done}
use auto_repair.Errors.{AutorepairError}
use auto_repair.Calls.{posts, IsCalm, Ensures, Ensures-intro}
use auto_repair.Portal.{Target, Access, target_of, up_request, down_request}
use auto_repair.Portal.Laws.{
  check_status_cluster-trace, check_error_status_cluster-trace, perform_scale_up-posts,
  perform_scale_down-posts,
}
use auto_repair.Kube.{Pod, OwnerReference}
use auto_repair.Scaler.{
  wait_succeeded, wait_scale_up, wait_scale_down, scale_up, scale_down, ScaleUpResult,
  scale_up_successful, scale_up_not_needed, ScaleDownResult, scale_down_no_unneeded,
  scale_down_node_delete_started, owner_check, visit, pods_loop,
  check_worker_node_can_be_scale_down,
}

module _ (env : Env) (x : Target) where
  wait_succeeded-posts :
      (fuel : ℕ) (t : Trace) {r : Unit {0}} {u : Trace}
      → wait_succeeded env x fuel t ≡ done r u
      → posts u ≡ posts t
  unfolding wait_succeeded
  wait_succeeded-posts zero t h = ground arith
  wait_succeeded-posts (suc fuel) t h =
      grind (arith, check_status_cluster-trace env x, wait_succeeded-posts fuel)

  wait_scale_up-posts :
      (n : ℕ) (fuel : ℕ) (t : Trace) {r : Unit {0}} {u : Trace}
      → wait_scale_up env x n fuel t ≡ done r u
      → (posts u ≡ posts t) ⊎ (posts u ≡ up_request x n ∷ posts t)
  unfolding wait_scale_up
  wait_scale_up-posts n zero t h = ground arith
  wait_scale_up-posts n (suc fuel) t h = grind (
    arith,
    check_status_cluster-trace env x,
    check_error_status_cluster-trace env x,
    perform_scale_up-posts env x,
    wait_succeeded-posts fuel,
    wait_scale_up-posts n fuel,
  )

  wait_scale_down-posts :
      (names : List String) (fuel : ℕ) (t : Trace) {r : Unit {0}} {u : Trace}
      → wait_scale_down env x names fuel t ≡ done r u
      → (posts u ≡ posts t) ⊎ (posts u ≡ down_request x names ∷ posts t)
  unfolding wait_scale_down
  wait_scale_down-posts names zero t h = ground arith
  wait_scale_down-posts names (suc fuel) t h = grind (
    arith,
    check_status_cluster-trace env x,
    check_error_status_cluster-trace env x,
    perform_scale_down-posts env x,
    wait_succeeded-posts fuel,
    wait_scale_down-posts names fuel,
  )

owner_check-IsCalm :
    (env : Env) (p : Pod) (os : List OwnerReference) (b : Bool) (t : Trace) {c : Bool} {u : Trace}
    → owner_check env p os b t ≡ done c u
    → IsCalm t u
unfolding owner_check
owner_check-IsCalm env p [] b t h = ground arith
owner_check-IsCalm env p (o ∷ os) b t h = ground arith

visit-IsCalm :
    (env : Env) (worker : String) (p : Pod) (b : Bool) (t : Trace) {c : Bool} {u : Trace}
    → visit env worker p b t ≡ done c u
    → IsCalm t u
unfolding visit
visit-IsCalm env worker p b t h = ground (arith, owner_check-IsCalm env p p.owner_references b t)

pods_loop-IsCalm :
    (env : Env) (worker : String) (ps : List Pod) (b : Bool) (t : Trace) {c : Bool} {u : Trace}
    → pods_loop env worker ps b t ≡ done c u
    → IsCalm t u
unfolding pods_loop
pods_loop-IsCalm env worker [] b t h = ground arith
pods_loop-IsCalm env worker (p ∷ ps) b t h =
    grind (arith, visit-IsCalm env worker, pods_loop-IsCalm env worker ps)

pub check_worker_node_can_be_scale_down-IsCalm :
    (env : Env) (worker : String) (t : Trace) {c : Bool} {u : Trace}
    → check_worker_node_can_be_scale_down env worker t ≡ done c u
    → IsCalm t u
unfolding check_worker_node_can_be_scale_down
check_worker_node_can_be_scale_down-IsCalm env worker t h =
    grind (arith, pods_loop-IsCalm env worker)

pub check_worker_node_can_be_scale_down-posts :
    (env : Env) (worker : String) (t : Trace) {c : Bool} {u : Trace}
    → check_worker_node_can_be_scale_down env worker t ≡ done c u
    → posts u ≡ posts t
check_worker_node_can_be_scale_down-posts env worker t h =
    (check_worker_node_can_be_scale_down-IsCalm env worker t h).1

-- What a run of `ScaleUp` from `t` to `u` has done.
abbrev pub ScaledUp : Access → ℕ → Trace → ScaleUpResult × Option AutorepairError → Trace → Type 0
ScaledUp a n t r u =
    let b = up_request (target_of a) n in
    (r.1 ≡ none)
    × ((r.0 ≡ scale_up_successful) × ((posts u ≡ b ∷ posts t) ⊎ (posts u ≡ b ∷ b ∷ posts t))
        ⊎ (r.0 ≡ scale_up_not_needed) × (posts u ≡ posts t))

-- What a run of `ScaleDown` from `t` to `u` has done.
abbrev pub ScaledDown :
    Access → String → Trace → ScaleDownResult × Option AutorepairError → Trace → Type 0
ScaledDown a worker t r u =
    let b = down_request (target_of a) (worker ∷ []) in
    (r.1 ≡ none)
    × ((r.0 ≡ scale_down_node_delete_started)
          × ((posts u ≡ b ∷ posts t) ⊎ (posts u ≡ b ∷ b ∷ posts t))
        ⊎ (r.0 ≡ scale_down_no_unneeded) × (posts u ≡ posts t))

module _ (env : Env) (fuel : ℕ) (a : Access) (t : Trace) where
  scale_up-ScaledUp :
      (n : ℕ) (r : ScaleUpResult × Option AutorepairError) (u : Trace)
      → scale_up env fuel a n t ≡ done r u
      → ScaledUp a n t r u
  unfolding scale_up
  scale_up-ScaledUp n r u h = grind (
    arith,
    check_status_cluster-trace env (target_of a),
    perform_scale_up-posts env (target_of a),
    wait_scale_up-posts env (target_of a) n fuel,
  )

  scale_down-ScaledDown :
      (worker : String) (r : ScaleDownResult × Option AutorepairError) (u : Trace)
      → scale_down env fuel a worker t ≡ done r u
      → ScaledDown a worker t r u
  unfolding scale_down
  scale_down-ScaledDown worker r u h = grind (
    arith,
    check_worker_node_can_be_scale_down-posts env worker,
    check_status_cluster-trace env (target_of a),
    perform_scale_down-posts env (target_of a),
    wait_scale_down-posts env (target_of a) (worker ∷ []) fuel,
  )

  -- Whenever `ScaleUp` returns, its error is nil. Either it reports success and has posted its
  -- request once or twice, or it reports that no scaling was needed and has posted nothing.
  pub scale_up-posts : (n : ℕ) → Ensures (scale_up env fuel a n t) (ScaledUp a n t)
  scale_up-posts n = Ensures-intro _ _ (scale_up-ScaledUp n)

  -- Whenever `ScaleDown` returns, its error is nil. Either it reports that a deletion was started
  -- and has posted a request to remove the one worker, once or twice, or it reports that there was
  -- nothing to remove and has posted nothing.
  pub scale_down-posts :
      (worker : String) → Ensures (scale_down env fuel a worker t) (ScaledDown a worker t)
  scale_down-posts worker = Ensures-intro _ _ (scale_down-ScaledDown worker)
