-- ===== src/Scaler/Settled.antt =====
-- Scaling while the portal says that the cluster has succeeded: one request, and no second one.
use auto_repair.Common.{ℕ, zero, suc, ◌≤◌, ◌<◌, String, none, true, List, [], ◌∷◌, ◌≡◌, arith, ◌*◌}
use auto_repair.Env.{Env, Trace, done, list_clusters, sleep, second}
use auto_repair.Calls.{posts, naps, IsCalm, Ends, Ends-bind, Ends-with, Ensures-intro}
use auto_repair.Portal.{
  Target, Access, target_of, list_url, check_status_cluster, up_request, down_request,
}
use auto_repair.Portal.Laws.{
  check_status_cluster_lem, perform_scale_up-posts, perform_scale_down-posts,
}
use auto_repair.Scaler.{
  wait_scale_up, wait_scale_down, scale_up, scale_down, scale_up_successful,
  scale_down_node_delete_started, check_worker_node_can_be_scale_down,
}
use auto_repair.Scaler.Laws.{check_worker_node_can_be_scale_down-IsCalm}
use auto_repair.Scaler.Waiting.{Answers, RecoversBy, perform_scale_up_returns}
use auto_repair.Scaler.Removing.{Replies, perform_scale_down_returns}

module _ (env : Env) (x : Target) (answers : Answers env x) (k : ℕ)
    (recovers : RecoversBy env x k) where
  check_settled :
      (t : Trace)
      → k ≤ naps t
      → check_status_cluster env x t ≡ done true (list_clusters (list_url x) x.access_token ∷ t)
  check_settled t late =
      let (items, e) = answers t in
      let (b, run, iff) = check_status_cluster_lem env x t items e in
      let yes_settled : b ≡ true = iff.1 (recovers t items late e) in rw yes_settled at run

  -- The waiting ends in its first round.
  wait_scale_up_settled :
      (n fuel : ℕ) (t : Trace)
      → 0 < fuel
      → k ≤ naps t
      → Ends (wait_scale_up env x n fuel t) (λ _ u. (posts u ≡ posts t) × (naps t ≤ naps u))
  unfolding wait_scale_up
  wait_scale_up_settled n zero t h late = absurd (omega arith)
  wait_scale_up_settled n (suc fuel) t h late =
      ground (arith, check_settled (sleep (30 * second) ∷ t) (omega arith))

  wait_scale_down_settled :
      (names : List String) (fuel : ℕ) (t : Trace)
      → 0 < fuel
      → k ≤ naps t
      → Ends (wait_scale_down env x names fuel t) (λ _ u. (posts u ≡ posts t) × (naps t ≤ naps u))
  unfolding wait_scale_down
  wait_scale_down_settled names zero t h late = absurd (omega arith)
  wait_scale_down_settled names (suc fuel) t h late =
      ground (arith, check_settled (sleep (30 * second) ∷ t) (omega arith))

module _ (env : Env) (a : Access) (answers : Answers env (target_of a)) (k fuel : ℕ)
    (recovers : RecoversBy env (target_of a) k) (some_fuel : 0 < fuel) where
  pub scale_up_settled :
      (n : ℕ) (t : Trace)
      → k ≤ naps t
      → Ends (scale_up env fuel a n t) (λ r u.
        (r ≡ (scale_up_successful, none))
        × (posts u ≡ up_request (target_of a) n ∷ posts t)
        × (naps t ≤ naps u))
  unfolding scale_up
  scale_up_settled n t late =
      let x = target_of a in
      let settled = check_settled env x answers k recovers t late in
      let u = list_clusters (list_url x) x.access_token ∷ t in
      let (o, w, run, same) = perform_scale_up_returns env x answers k recovers n u in
      let asked = perform_scale_up-posts env x u n run in
      ground (arith, wait_scale_up_settled env x answers k recovers n fuel w some_fuel)

  pub scale_down_settled :
      (worker : String) (t : Trace)
      → Replies env
      → Ends (check_worker_node_can_be_scale_down env worker t) (λ b _. b ≡ true)
      → k ≤ naps t
      → Ends (scale_down env fuel a worker t) (λ r u.
        (r ≡ (scale_down_node_delete_started, none))
        × (posts u ≡ down_request (target_of a) (worker ∷ []) ∷ posts t)
        × (naps t ≤ naps u))
  unfolding scale_down
  scale_down_settled worker t replies removable late =
      let x = target_of a in
      Ends-bind (check_worker_node_can_be_scale_down env worker) _ t _ _
        (Ends-with (check_worker_node_can_be_scale_down env worker t) _ (λ _ u. IsCalm t u)
          removable
          (Ensures-intro _ _
            λ b u run. check_worker_node_can_be_scale_down-IsCalm env worker t run))
        λ b u (yes_go, (quiet, same)).
          let settled = check_settled env x answers k recovers u (omega arith) in
          let v = list_clusters (list_url x) x.access_token ∷ u in
          let (o, w, run, awake) =
            perform_scale_down_returns env x answers replies k recovers (worker ∷ []) v in
          let asked = perform_scale_down-posts env x v (worker ∷ []) run in
          rw yes_go (
            ground (
              arith,
              wait_scale_down_settled env x answers k recovers (worker ∷ []) fuel w some_fuel,
            ))
