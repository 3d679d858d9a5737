-- ===== src/Registry/State.antt =====
-- clusterstate/clusterstate.go: the types of the registry. A float64 is a parameter: the registry
-- uses no more of it than the operations of `Float`.
use auto_repair.Common.{ℕ, String, Bool, List}
use auto_repair.Common.Int.{ℤ}
use auto_repair.Kube.{Node}
use auto_repair.Status.{Readiness, AcceptableRange, ClusterAutoscalerStatus}

-- All that the registry does with a float64: the conversion of an int, the constant 100.0, and
-- `/`, `*` and `>`.
pub record Float {ℓ} (W : Type ℓ) : Type ℓ where
  pub of_int : ℤ → W
  pub hundred : W
  pub div : W → W → W
  pub mul : W → W → W
  pub gt : W → W → Bool

pub record ScaleUpRequest : Type 0 where
  pub time : ℕ
  pub expected_add_time : ℕ
  pub increase : ℤ

pub record ScaleDownRequest : Type 0 where
  pub time : ℕ
  pub expected_delete_time : ℕ

pub record IncorrectNodeGroupSize : Type 0 where
  pub expected_size : ℤ
  pub current_size : ℤ
  pub first_observed : ℕ

pub record UnregisteredNode : Type 0 where
  pub node : Node
  pub unregistered_since : ℕ

pub record ScaleUpFailure : Type 0 where
  pub time : ℕ

module _ (W : Type 0) where
  pub record ClusterStateRegistryConfig : Type 0 where
    pub max_total_unready_percentage : W
    pub ok_total_unready_count : ℤ
    pub max_node_provision_time : ℕ

  -- The log recorder, which no method reads, is left out. Of the channel `interrupt` there is
  -- whether it has been closed.
  pub record ClusterStateRegistry : Type 0 where
    pub config : ClusterStateRegistryConfig
    pub scale_up_requests : List (String × ScaleUpRequest)
    pub scale_down_requests : List ScaleDownRequest
    pub nodes : List Node
    pub per_node_group_readiness : List (String × Readiness)
    pub total_readiness : Readiness
    pub acceptable_ranges : List (String × AcceptableRange)
    pub incorrect_node_group_sizes : List (String × IncorrectNodeGroupSize)
    pub unregistered_nodes : List (String × UnregisteredNode)
    pub candidates_for_scale_down : List (String × List String)
    pub last_status : ClusterAutoscalerStatus
    pub last_scale_down_update_time : ℕ
    pub scale_up_failures : List (String × List ScaleUpFailure)
    pub interrupted : Bool
