-- ===== src/Registry/Readable.antt =====
-- The text that shows the status of a registry.
use auto_repair.Common.{ℕ, String, ◌<>◌, List, [], ◌∷◌, ◌≡◌, refl}
use auto_repair.Status.{
  update_last_transition, build_health_status_clusterwide, build_scale_up_status_clusterwide,
  build_scale_down_status_clusterwide,
}
use auto_repair.StatusText.{condition_lines, add_lines, get_conditions_string, get_readable_string}
use auto_repair.Registry.{Float, ClusterStateRegistry, get_status}
use auto_repair.Registry.History.{
  last_status_of, dated, health_of, scale_up_of, scale_down_of, last_status_of-since,
}

module _ {W : Type 0} ⦃f : Float W⦄ (show_time : ℕ → String) where
  no_node_groups :
      (r : ClusterStateRegistry W) (rs : List (ClusterStateRegistry W))
      → (last_status_of (r ∷ rs)).node_group_statuses ≡ []
  unfolding last_status_of get_status update_last_transition
  no_node_groups r rs = refl

  -- After any calls of `GetStatus`, the readable text of the status has the lines on the health, on
  -- scaling up and on scaling down, each once and in this order, with the dates of their transitions
  -- by the history of the calls, and nothing else.
  pub get_readable_string-last_status_of :
      (r : ClusterStateRegistry W) (rs : List (ClusterStateRegistry W))
      → get_readable_string show_time (last_status_of (r ∷ rs))
        ≡ "Cluster-wide:\n"
          <> ((condition_lines show_time "  " (dated health_of r rs)
                <> (condition_lines show_time "  " (dated scale_up_of r rs)
                    <> (condition_lines show_time "  " (dated scale_down_of r rs) <> "")))
              <> "")
  unfolding get_readable_string get_conditions_string add_lines build_health_status_clusterwide
      build_scale_up_status_clusterwide build_scale_down_status_clusterwide
  get_readable_string-last_status_of r rs = rw (last_status_of-since r rs, no_node_groups r rs) refl
