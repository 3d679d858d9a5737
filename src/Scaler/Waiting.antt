-- ===== src/Scaler/Waiting.antt =====
-- How the polling loops of scaler/ScaleUp.go and scaler/ScaleDown.go end, or do not.
use auto_repair.Common.{
  ℕ, zero, suc, ◌+◌, ◌≤◌, ◌<◌, String, Bool, true, Option, List, ◌∷◌, ◌≡◌, ◌⊎◌, arith, refl, ◌*◌,
}
use auto_repair.Env.{
  Env, Trace, done, unfinished, answered, ClusterItem, sleep, second, list_clusters,
}
use auto_repair.Calls.{naps, Ends, Ends-run}
use auto_repair.Portal.{
  Target, Access, target_of, list_url, perform_scale_up, check_status_cluster,
  check_error_status_cluster,
}
use auto_repair.Portal.Laws.{
  Succeeded, HasError, check_status_cluster_lem, check_error_status_cluster_lem,
  perform_scale_up_ends,
}
use auto_repair.Scaler.{
  wait_succeeded, wait_scale_up, wait_scale_down, scale_up, scale_up_successful,
  scale_up_not_needed,
}

-- The portal answers every request for the list of clusters.
abbrev pub Answers : Env → Target → Type 0
Answers env x =
    (t : Trace)
    → (items : List ClusterItem) × (env.clusters t (list_url x) x.access_token ≡ answered items)

-- After the program has slept k times, the portal says that the cluster has succeeded.
abbrev pub RecoversBy : Env → Target → ℕ → Type 0
RecoversBy env x k =
    (t : Trace) (items : List ClusterItem)
    → k ≤ naps t
    → env.clusters t (list_url x) x.access_token ≡ answered items
    → Succeeded x.cluster_id_portal items

module _ (env : Env) (x : Target) (answers : Answers env x) (k : ℕ)
    (recovers : RecoversBy env x k) where
  pub check_recovered :
      (t : Trace)
      → (b : Bool) × (u : Trace) × (check_status_cluster env x t ≡ done b u)
        × (naps u ≡ naps t)
        × (k ≤ naps t → b ≡ true)
  check_recovered t =
      let (items, e) = answers t in
      let (b, run, iff) = check_status_cluster_lem env x t items e in
      (b, _, run, refl, λ h. iff.1 (recovers t items h e))

  pub check_error_returns :
      (t : Trace)
      → (b : Bool) × (u : Trace) × (check_error_status_cluster env x t ≡ done b u)
        × (naps u ≡ naps t)
  check_error_returns t =
      let (items, e) = answers t in
      let (b, run, iff) = check_error_status_cluster_lem env x t items e in (b, _, run, refl)

  pub wait_succeeded_ends :
      (fuel : ℕ) (t : Trace)
      → 0 < fuel
      → k ≤ naps t + fuel
      → Ends (wait_succeeded env x fuel t) (λ _ _. Unit {0})
  unfolding wait_succeeded
  wait_succeeded_ends zero t h g = absurd (omega arith)
  wait_succeeded_ends (suc zero) t h g =
      let (b, u, e, n, done_by) = check_recovered (sleep (30 * second) ∷ t) in ground arith
  wait_succeeded_ends (suc (suc fuel)) t h g =
      let (b, u, e, n, done_by) = check_recovered (sleep (30 * second) ∷ t) in
      ground (arith, wait_succeeded_ends (suc fuel) u)

  pub perform_scale_up_returns :
      (n : ℕ) (t : Trace)
      → (r : String × Option String) × (u : Trace) × (perform_scale_up env x n t ≡ done r u)
        × (naps u ≡ naps t)
  perform_scale_up_returns n t =
      Ends-run (perform_scale_up env x n t) (λ _ u. naps u ≡ naps t)
        (perform_scale_up_ends env x t n)

  wait_scale_up_ends :
      (n fuel : ℕ) (t : Trace)
      → 0 < fuel
      → k ≤ naps t + fuel
      → Ends (wait_scale_up env x n fuel t) (λ _ _. Unit {0})
  unfolding wait_scale_up
  wait_scale_up_ends n zero t h g = absurd (omega arith)
  wait_scale_up_ends n (suc zero) t h g =
      let (b, u, e, s, done_by) = check_recovered (sleep (30 * second) ∷ t) in ground arith
  wait_scale_up_ends n (suc (suc fuel)) t h g =
      let (b, u, e, s, done_by) = check_recovered (sleep (30 * second) ∷ t) in
      let (c, v, f, r) = check_error_returns u in
      let (o, w, i, j) = perform_scale_up_returns n v in
      ground (arith, wait_scale_up_ends n (suc fuel) v, wait_succeeded_ends (suc fuel) w)

-- If the portal always answers, and says that the cluster has succeeded once the program has slept k
-- times, then with some fuel, and at least k rounds of it less the pauses made before, `ScaleUp`
-- returns and reports success or that no scaling was needed.
pub scale_up_ends :
    (env : Env) (a : Access) (n k fuel : ℕ) (t : Trace)
    → Answers env (target_of a)
    → RecoversBy env (target_of a) k
    → 0 < fuel
    → k ≤ naps t + fuel
    → Ends
        (scale_up env fuel a n t)
        (λ (r, e) u. (r ≡ scale_up_successful) ⊎ (r ≡ scale_up_not_needed))
unfolding scale_up
scale_up_ends env a n k fuel t answers recovers h g =
    let x = target_of a in
    let (b, u, e, s, _) = check_recovered env x answers k recovers t in
    let (c, v, f, s', _) = check_recovered env x answers k recovers u in
    let (o, w, i, s'') = perform_scale_up_returns env x answers k recovers n u in
    ground (arith, wait_scale_up_ends env x answers k recovers n fuel w)

-- The cluster that never succeeds and never fails: every answer of the portal says so.
abbrev pub StaysBusy : Env → Target → Type 0
StaysBusy env x =
    (t : Trace) (items : List ClusterItem)
    → env.clusters t (list_url x) x.access_token ≡ answered items
    → ¬ Succeeded x.cluster_id_portal items × ¬ HasError x.cluster_id_portal items

-- If the portal always answers, and never says that the cluster has succeeded or has an error, then
-- the loop of `ScaleDown` uses up any fuel: its limit of 100 rounds is never met.
pub wait_scale_down_never_ends :
    (env : Env) (x : Target) (names : List String) (fuel : ℕ) (t : Trace)
    → Answers env x
    → StaysBusy env x
    → (u : Trace) × (wait_scale_down env x names fuel t ≡ unfinished u)
unfolding wait_scale_down
wait_scale_down_never_ends env x names zero t answers busy = (t, refl)
wait_scale_down_never_ends env x names (suc fuel) t answers busy =
    let (items, e) = answers (sleep (30 * second) ∷ t) in
    let (b, run, iff) = check_status_cluster_lem env x (sleep (30 * second) ∷ t) items e in
    let u = list_clusters (list_url x) x.access_token ∷ sleep (30 * second) ∷ t in
    let (items', e') = answers u in
    let (c, run', iff') = check_error_status_cluster_lem env x u items' e' in
    let (v, rest) =
      wait_scale_down_never_ends env x names fuel (list_clusters (list_url x) x.access_token ∷ u)
        answers busy in
    (v, ground (arith, (busy _ items e).0, (busy u items' e').1))
