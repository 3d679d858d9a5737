-- ===== src/Scaler/Removing.antt =====
-- That `ScaleDown` ends where the portal recovers.
use auto_repair.Common.{ℕ, zero, suc, ◌+◌, ◌≤◌, ◌<◌, String, true, List, [], ◌∷◌, ◌≡◌, arith, ◌*◌}
use auto_repair.Env.{Env, Trace, done, answered, sleep, second, ScaleBodyRequest}
use auto_repair.Calls.{naps, Ends, Ends-run, Ends-bind}
use auto_repair.Portal.{Target, Access, target_of, perform_scale_down, scale_url, down_request}
use auto_repair.Scaler.{wait_scale_down, scale_down, check_worker_node_can_be_scale_down}
use auto_repair.Scaler.Waiting.{
  Answers, RecoversBy, check_recovered, check_error_returns, wait_succeeded_ends,
}

-- The portal answers every request to scale.
abbrev pub Replies : Env → Type 0
Replies env =
    (t : Trace) (url token : String) (body : ScaleBodyRequest)
    → (text : String) × (env.scale_reply t url token body ≡ answered text)

module _ (env : Env) (x : Target) (answers : Answers env x) (replies : Replies env) (k : ℕ)
    (recovers : RecoversBy env x k) (names : List String) where
  perform_scale_down_ends :
      (t : Trace) → Ends (perform_scale_down env x names t) (λ _ u. naps u ≡ naps t)
  unfolding perform_scale_down
  perform_scale_down_ends t =
      let (text, e) = replies t (scale_url x) x.access_token (down_request x names) in
      ground (arith, e)

  pub perform_scale_down_returns :
      (t : Trace)
      → (r : Unit {0}) × (u : Trace) × (perform_scale_down env x names t ≡ done r u)
        × (naps u ≡ naps t)
  perform_scale_down_returns t =
      Ends-run (perform_scale_down env x names t) (λ _ u. naps u ≡ naps t)
        (perform_scale_down_ends t)

  wait_scale_down_ends :
      (fuel : ℕ) (t : Trace)
      → 0 < fuel
      → k ≤ naps t + fuel
      → Ends (wait_scale_down env x names fuel t) (λ _ _. Unit {0})
  unfolding wait_scale_down
  wait_scale_down_ends zero t h g = absurd (omega arith)
  wait_scale_down_ends (suc zero) t h g =
      let (b, u, e, s, done_by) =
        check_recovered env x answers k recovers (sleep (30 * second) ∷ t) in
      ground arith
  wait_scale_down_ends (suc (suc fuel)) t h g =
      let (b, u, e, s, done_by) =
        check_recovered env x answers k recovers (sleep (30 * second) ∷ t) in
      let (c, v, f, r) = check_error_returns env x answers k recovers u in
      let (o, w, i, j) = perform_scale_down_returns v in
      ground (
        arith,
        wait_scale_down_ends (suc fuel) v,
        wait_succeeded_ends env x answers k recovers (suc fuel) w,
      )

-- If the pods of the worker may go, the portal answers, and it says that the cluster has succeeded
-- once the program has slept k times, then with k rounds of fuel `ScaleDown` returns.
pub scale_down_ends :
    (env : Env) (a : Access) (worker : String) (k fuel : ℕ) (t : Trace)
    → Answers env (target_of a)
    → Replies env
    → RecoversBy env (target_of a) k
    → ((t : Trace) → Ends (check_worker_node_can_be_scale_down env worker t) (λ b _. b ≡ true))
    → 0 < fuel
    → k ≤ fuel
    → Ends (scale_down env fuel a worker t) (λ _ _. Unit {0})
unfolding scale_down
scale_down_ends env a worker k fuel t answers replies recovers removable h g =
    let x = target_of a in
    Ends-bind (check_worker_node_can_be_scale_down env worker) _ t _ _ (removable t) λ b u yes_go.
      let (c, v, e, s, _) = check_recovered env x answers k recovers u in
      let (o, w, i, j) =
        perform_scale_down_returns env x answers replies k recovers (worker ∷ []) v in
      rw yes_go
        (ground (arith, wait_scale_down_ends env x answers replies k recovers (worker ∷ []) fuel w))
