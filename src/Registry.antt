-- ===== src/Registry.antt =====
-- clusterstate/clusterstate.go: the registry of the cluster's state. Its types are in State.
mod State
pub mod Health
pub mod History
pub mod Unregistered
pub mod Readable
pub use State.*
use auto_repair.Common.{
  ℕ, zero, suc, String, Bool, true, false, not, ◌&&◌, ◌||◌, Option, none, some, List, [], ◌∷◌, map,
  if◌then◌else◌, str_eq, length, lookup, assign,
}
use auto_repair.Common.Int.{ℤ, pos, ◌+ℤ◌, ◌-ℤ◌, ltb_ℤ, eqb_ℤ}
use auto_repair.Kube.{Node}
use auto_repair.Status.{
  Readiness, AcceptableRange, ClusterAutoscalerStatus, update_last_transition,
  build_health_status_clusterwide, build_scale_up_status_clusterwide,
  build_scale_down_status_clusterwide,
}

abbrev pub empty_status : ClusterAutoscalerStatus
empty_status = record { node_group_statuses = []; clusterwide_conditions = [] }

-- The zero value of `Readiness`.
abbrev pub no_readiness : Readiness
no_readiness = record {
  ready = pos 0;
  unready = pos 0;
  deleted = pos 0;
  not_started = pos 0;
  registered = pos 0;
  long_unregistered = pos 0;
  unregistered = pos 0;
  time = 0;
}

-- The loop of `updateUnregisteredNodes`, from the nodes known before and the map built so far.
unfoldable pub gather :
    List (String × UnregisteredNode)
    → List UnregisteredNode
    → List (String × UnregisteredNode)
    → List (String × UnregisteredNode)
unfolding lookup assign
gather known [] result = result
gather known (u ∷ us) result = elim (lookup u.node.name known) [
  | some prev ↦ gather known us (assign u.node.name prev result)
  | none ↦ gather known us (assign u.node.name u result)
]

-- A loop that copies a map, key by key.
unfoldable pub copy_map : {A : Type 0} → List (String × A) → List (String × A) → List (String × A)
unfolding assign
copy_map [] result = result
copy_map ((k, v) ∷ m) result = copy_map m (assign k v result)

module _ {W : Type 0} where
  unfoldable pub new_cluster_state_registry : ClusterStateRegistryConfig W → ClusterStateRegistry W
  new_cluster_state_registry config = record {
    config = config;
    scale_up_requests = [];
    scale_down_requests = [];
    nodes = [];
    per_node_group_readiness = [];
    total_readiness = no_readiness;
    acceptable_ranges = [];
    incorrect_node_group_sizes = [];
    unregistered_nodes = [];
    candidates_for_scale_down = [];
    last_status = empty_status;
    last_scale_down_update_time = 0;
    scale_up_failures = [];
    interrupted = false;
  }

  -- `Stop`: to close a channel that is closed panics, which is the `none`.
  unfoldable pub stop : ClusterStateRegistry W → Option (ClusterStateRegistry W)
  stop csr = if csr.interrupted then none else some (record csr { interrupted = true })

  -- The sizes of a node group as provisioned and as targeted, if they are known: the last result
  -- of the method is the Option. Its test for an empty map of ranges has the result of a missing
  -- range.
  unfoldable pub get_provisioned_and_target_sizes_for_node_group :
      String → ClusterStateRegistry W → Option (ℤ × ℤ)
  unfolding lookup
  get_provisioned_and_target_sizes_for_node_group name csr =
      elim (lookup name csr.acceptable_ranges) [
        | none ↦ none
        | some acceptable ↦ elim (lookup name csr.per_node_group_readiness) [
          | none ↦ some (pos 0, acceptable.current_target)
          | some r ↦ some (r.registered -ℤ r.not_started, acceptable.current_target)
        ]
      ]

  unfoldable pub are_there_upcoming_nodes_in_node_group : String → ClusterStateRegistry W → Bool
  unfolding get_provisioned_and_target_sizes_for_node_group
  are_there_upcoming_nodes_in_node_group name csr =
      elim (get_provisioned_and_target_sizes_for_node_group name csr) [
        | none ↦ false
        | some (provisioned, target) ↦ ltb_ℤ provisioned target
      ]

  unfoldable pub is_node_group_at_target_size : String → ClusterStateRegistry W → Bool
  unfolding get_provisioned_and_target_sizes_for_node_group
  is_node_group_at_target_size name csr =
      elim (get_provisioned_and_target_sizes_for_node_group name csr) [
        | none ↦ false
        | some (provisioned, target) ↦ eqb_ℤ target provisioned
      ]

  unfoldable pub is_node_group_scaling_up : String → ClusterStateRegistry W → Bool
  unfolding are_there_upcoming_nodes_in_node_group lookup
  is_node_group_scaling_up name csr =
      are_there_upcoming_nodes_in_node_group name csr
      && elim (lookup name csr.scale_up_requests) [ none ↦ false | some request ↦ true ]

  unfoldable pub update_unregistered_nodes :
      List UnregisteredNode → ClusterStateRegistry W → ClusterStateRegistry W
  unfolding gather
  update_unregistered_nodes unregistered csr = record csr {
    unregistered_nodes = gather csr.unregistered_nodes unregistered [];
  }

  -- In the order of the model's map; Go's has none.
  unfoldable pub get_unregistered_nodes : ClusterStateRegistry W → List UnregisteredNode
  get_unregistered_nodes csr = map (λ e. e.1) csr.unregistered_nodes

  unfoldable pub get_cluster_readiness : ClusterStateRegistry W → Readiness
  get_cluster_readiness csr = csr.total_readiness

  unfoldable pub get_incorrect_node_group_size :
      String → ClusterStateRegistry W → Option IncorrectNodeGroupSize
  unfolding lookup
  get_incorrect_node_group_size name csr = lookup name csr.incorrect_node_group_sizes

  unfoldable pub clear_scale_up_failures : ClusterStateRegistry W → ClusterStateRegistry W
  clear_scale_up_failures csr = record csr { scale_up_failures = [] }

  unfoldable pub periodic_cleanup : ClusterStateRegistry W → ClusterStateRegistry W
  unfolding clear_scale_up_failures
  periodic_cleanup csr = clear_scale_up_failures csr

  unfoldable pub get_scale_up_failures :
      ClusterStateRegistry W → List (String × List ScaleUpFailure)
  unfolding copy_map
  get_scale_up_failures csr = copy_map csr.scale_up_failures []

module _ {W : Type 0} ⦃f : Float W⦄ where
  -- What is tolerated: a count, and above it a percentage of a number of nodes.
  unfoldable pub too_many : ClusterStateRegistryConfig W → ℤ → ℤ → Bool
  too_many config unready total =
      ltb_ℤ config.ok_total_unready_count unready
      && f.gt (f.of_int unready)
          (f.mul (f.div config.max_total_unready_percentage f.hundred) (f.of_int total))

  unfoldable pub is_cluster_healthy : ClusterStateRegistry W → Bool
  unfolding too_many
  is_cluster_healthy csr =
      not (too_many csr.config csr.total_readiness.unready (pos (length csr.nodes)))

  unfoldable pub is_node_group_healthy : String → ClusterStateRegistry W → Bool
  unfolding too_many lookup
  is_node_group_healthy name csr = elim (lookup name csr.acceptable_ranges) [
    | none ↦ false
    | some acceptable ↦ elim (lookup name csr.per_node_group_readiness) [
      | none ↦
          eqb_ℤ acceptable.current_target (pos 0)
          || (eqb_ℤ acceptable.min_nodes (pos 0) && ltb_ℤ (pos 0) acceptable.current_target)
      | some r ↦
          let unjustified_unready =
            if ltb_ℤ r.ready acceptable.min_nodes then acceptable.min_nodes -ℤ r.ready else pos 0 in
          not (too_many csr.config unjustified_unready (r.ready +ℤ r.unready +ℤ r.not_started))
    ]
  ]

  -- The status, which the registry keeps as its last one.
  unfoldable pub get_status :
      ClusterStateRegistry W → ClusterAutoscalerStatus × ClusterStateRegistry W
  unfolding is_cluster_healthy update_last_transition
  get_status csr =
      let result : ClusterAutoscalerStatus = record {
        node_group_statuses = [];
        clusterwide_conditions =
            build_health_status_clusterwide (is_cluster_healthy csr) csr.total_readiness
            ∷ build_scale_up_status_clusterwide [] csr.total_readiness
            ∷ build_scale_down_status_clusterwide csr.candidates_for_scale_down
                csr.last_scale_down_update_time
            ∷ [];
      } in
      let dated = update_last_transition csr.last_status result in
      (dated, record csr { last_status = dated })
