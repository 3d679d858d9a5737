-- ===== src/Portal/Laws.antt =====
-- The calls of the portal: what they read, what they post, how they fail.
use auto_repair.Common.{
  ℕ, String, Bool, true, false, Option, List, [], ◌∷◌, ◌≡◌, ◌≢◌, ◌↔◌, ◌⊎◌, arith, eq_iff, Any, All,
}
use auto_repair.Env.{Env, Trace, done, list_clusters, ClusterItem, answered}
use auto_repair.Calls.{posts, naps, Ends, Ensures}
use auto_repair.Portal.{
  Target, list_url, status_loop, error_loop, check_status_cluster, get_id_cluster,
  check_error_status_cluster, perform_scale_up, perform_scale_down, up_request, down_request,
}

-- The last word of the items on a cluster, SCALING or SUCCEEDED, is SUCCEEDED.
abbrev pub Succeeded : String → List ClusterItem → Type 0
Succeeded k [] = ⊥
Succeeded k (c ∷ cs) =
    Succeeded k cs
    ⊎ (c.cluster_id ≡ k)
      × (c.status ≡ "SUCCEEDED")
      × All (λ (d : ClusterItem). d.cluster_id ≡ k → d.status ≢ "SCALING") cs

abbrev pub HasError : String → List ClusterItem → Type 0
HasError k = Any (λ (c : ClusterItem). (c.cluster_id ≡ k) × (c.status ≡ "ERROR"))

abbrev NoScaling : String → List ClusterItem → Type 0
NoScaling k = All (λ (d : ClusterItem). d.cluster_id ≡ k → d.status ≢ "SCALING")

succeeded_not_scaling : ◌≢◌ {A = String} "SUCCEEDED" "SCALING"
succeeded_not_scaling = ground (arith, eq_iff "SUCCEEDED" "SCALING")

status_loop_iff :
    (k : String) (cs : List ClusterItem) (b : Bool)
    → (status_loop k cs b ≡ true) ↔ (Succeeded k cs ⊎ (b ≡ true) × NoScaling k cs)
unfolding status_loop
status_loop_iff k [] b = ground arith
status_loop_iff k (c ∷ cs) b = ground (
  arith,
  succeeded_not_scaling,
  eq_iff c.cluster_id k,
  eq_iff c.status "SCALING",
  eq_iff c.status "SUCCEEDED",
  status_loop_iff k cs true,
  status_loop_iff k cs false,
)

error_loop_iff :
    (k : String) (cs : List ClusterItem) (b : Bool)
    → (error_loop k cs b ≡ true) ↔ (HasError k cs ⊎ (b ≡ true))
unfolding error_loop
error_loop_iff k [] b = ground arith
error_loop_iff k (c ∷ cs) b = ground (
  arith,
  eq_iff c.cluster_id k,
  eq_iff c.status "ERROR",
  error_loop_iff k cs true,
  error_loop_iff k cs false,
)

module _ (env : Env) (x : Target) (t : Trace) where
  -- If the portal answers with items, the check makes that one request and returns true exactly
  -- when the last of the cluster's items that says SCALING or SUCCEEDED says SUCCEEDED.
  pub check_status_cluster_lem :
      (items : List ClusterItem)
      → env.clusters t (list_url x) x.access_token ≡ answered items
      → (b : Bool) × (check_status_cluster env x t
          ≡ done b (list_clusters (list_url x) x.access_token ∷ t))
        × ((b ≡ true) ↔ Succeeded x.cluster_id_portal items)
  unfolding check_status_cluster
  check_status_cluster_lem items h = (
    status_loop x.cluster_id_portal items false,
    ground arith,
    ground (arith, status_loop_iff x.cluster_id_portal items false),
  )

  -- If the portal answers with items, the check makes that one request and returns true exactly
  -- when some item of the cluster says ERROR.
  pub check_error_status_cluster_lem :
      (items : List ClusterItem)
      → env.clusters t (list_url x) x.access_token ≡ answered items
      → (b : Bool) × (check_error_status_cluster env x t
          ≡ done b (list_clusters (list_url x) x.access_token ∷ t))
        × ((b ≡ true) ↔ HasError x.cluster_id_portal items)
  unfolding check_error_status_cluster
  check_error_status_cluster_lem items h = (
    error_loop x.cluster_id_portal items false,
    ground arith,
    ground (arith, error_loop_iff x.cluster_id_portal items false),
  )

  pub check_status_cluster-trace :
      {b : Bool} {u : Trace}
      → check_status_cluster env x t ≡ done b u
      → u ≡ list_clusters (list_url x) x.access_token ∷ t
  unfolding check_status_cluster
  check_status_cluster-trace h = ground arith

  pub check_error_status_cluster-trace :
      {b : Bool} {u : Trace}
      → check_error_status_cluster env x t ≡ done b u
      → u ≡ list_clusters (list_url x) x.access_token ∷ t
  unfolding check_error_status_cluster
  check_error_status_cluster-trace h = ground arith

  pub perform_scale_up-posts :
      (n : ℕ) {r : String × Option String} {u : Trace}
      → perform_scale_up env x n t ≡ done r u
      → posts u ≡ up_request x n ∷ posts t
  unfolding perform_scale_up
  perform_scale_up-posts n h = ground arith

  pub perform_scale_down-posts :
      (names : List String) {r : Unit {0}} {u : Trace}
      → perform_scale_down env x names t ≡ done r u
      → posts u ≡ down_request x names ∷ posts t
  unfolding perform_scale_down
  perform_scale_down-posts names h = ground arith

  -- A request to scale up always returns: its errors are values.
  pub perform_scale_up_ends : (n : ℕ) → Ends (perform_scale_up env x n t) (λ _ u. naps u ≡ naps t)
  unfolding perform_scale_up
  perform_scale_up_ends n = ground arith

  pub get_id_cluster-posts : Ensures (get_id_cluster env x t) (λ _ u. posts u ≡ posts t)
  unfolding get_id_cluster
  get_id_cluster-posts = ground arith
