-- ===== src/Registry/History.antt =====
-- The dates of the conditions over a history of statuses.
use auto_repair.Common.{ℕ, List, [], ◌∷◌, ◌≡◌, refl, ap, if◌then◌else◌, str_eq}
use auto_repair.Status.{
  ClusterAutoscalerStatus, ClusterAutoscalerCondition, build_health_status_clusterwide,
  build_scale_up_status_clusterwide, build_scale_down_status_clusterwide, transition_time,
  update_last_transition, update_last_transition_single_list,
}
use auto_repair.Registry.{Float, ClusterStateRegistry, empty_status, is_cluster_healthy, get_status}

module _ {W : Type 0} ⦃f : Float W⦄ where
  -- The registry's fields at each call of `GetStatus`, newest first, can be any; only the last
  -- status is what the call before has left.
  unfoldable pub last_status_of : List (ClusterStateRegistry W) → ClusterAutoscalerStatus
  unfolding get_status
  last_status_of [] = empty_status
  last_status_of (r ∷ rs) =
      (get_status (record r { last_status = last_status_of rs })).1.last_status

  -- The three conditions that describe a registry, before they are dated.
  abbrev pub health_of : ClusterStateRegistry W → ClusterAutoscalerCondition
  health_of r = build_health_status_clusterwide (is_cluster_healthy r) r.total_readiness

  abbrev pub scale_up_of : ClusterStateRegistry W → ClusterAutoscalerCondition
  scale_up_of r = build_scale_up_status_clusterwide [] r.total_readiness

  abbrev pub scale_down_of : ClusterStateRegistry W → ClusterAutoscalerCondition
  scale_down_of r =
      build_scale_down_status_clusterwide r.candidates_for_scale_down r.last_scale_down_update_time

  -- When the newest status of a condition began: the probe time of the oldest call in the unbroken
  -- run of calls with that status.
  abbrev pub since :
      (ClusterStateRegistry W → ClusterAutoscalerCondition)
      → ClusterStateRegistry W
      → List (ClusterStateRegistry W)
      → ℕ
  since condition r [] = (condition r).last_probe_time
  since condition r (q ∷ qs) =
      let earlier = since condition q qs in
      if str_eq (condition r).status (condition q).status
      then earlier
      else (condition r).last_probe_time

  abbrev pub dated :
      (ClusterStateRegistry W → ClusterAutoscalerCondition)
      → ClusterStateRegistry W
      → List (ClusterStateRegistry W)
      → ClusterAutoscalerCondition
  dated condition r rs = record (condition r) { last_transition_time = since condition r rs }

  -- After any calls of `GetStatus`, whatever changed between them, the cluster-wide conditions
  -- describe the registry of the last call, and the transition of each is dated by the oldest call
  -- in the unbroken run of calls up to the last one that gave this condition the same status.
  pub last_status_of-since :
      (r : ClusterStateRegistry W) (rs : List (ClusterStateRegistry W))
      → (last_status_of (r ∷ rs)).clusterwide_conditions
        ≡ dated health_of r rs ∷ dated scale_up_of r rs ∷ dated scale_down_of r rs ∷ []
  unfolding last_status_of update_last_transition transition_time build_health_status_clusterwide
      build_scale_up_status_clusterwide build_scale_down_status_clusterwide
  last_status_of-since r [] = refl
  last_status_of-since r (q ∷ qs) =
      ap
        (λ olds.
          update_last_transition_single_list olds
            (health_of r ∷ scale_up_of r ∷ scale_down_of r ∷ []))
        (last_status_of-since q qs)
