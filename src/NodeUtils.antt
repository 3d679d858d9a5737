-- ===== src/NodeUtils.antt =====
-- utils.go and core/utils/utils.go: the helpers on nodes and pods, and computeBelowMax of
-- scaler/ScaleUp.go.
use auto_repair.Common.{
  ℕ, String, Bool, true, false, not, ◌&&◌, ◌||◌, Option, none, some, List, [], ◌∷◌, ltb,
  if◌then◌else◌, str_eq, lookup, keep, ◌⊎◌, inl, inr,
}
use auto_repair.Common.Int.{ℤ, pos, ◌-ℤ◌, ltb_ℤ}
use auto_repair.Kube.{
  Node, NodeCondition, Pod, PodCondition, ConditionType, node_ready, disk_pressure,
  network_unavailable, other_type, ConditionStatus, cond_true, cond_false, cond_unknown,
  other_status,
}
use auto_repair.Env.{Env, Io, pure, ask, ◌>>=◌, read_clock}

-- `corev1.Affinity`: of each pointer, how many terms are required during scheduling.
pub record Affinity : Type 0 where
  pub pod_affinity : Option ℕ
  pub pod_anti_affinity : Option ℕ

unfoldable pub is_virtual_node : Node → Bool
unfolding lookup
is_virtual_node node = elim (lookup "type" node.labels) [
  | none ↦ false
  | some v ↦ str_eq v "virtual-kubelet"
]

abbrev pub requires : Option ℕ → Bool
requires none = false
requires (some terms) = ltb 0 terms

unfoldable pub has_hard_inter_pod_affinity : Option Affinity → Bool
has_hard_inter_pod_affinity none = false
has_hard_inter_pod_affinity (some affinity) =
    requires affinity.pod_affinity || requires affinity.pod_anti_affinity

unfoldable pub get_node_resource : Node → String → ℤ
unfolding lookup
get_node_resource node resource = elim (lookup resource node.capacity) [
  | none ↦ pos 0
  | some value ↦ if ltb_ℤ value (pos 0) then pos 0 else value
]

unfoldable pub get_node_cores_and_memory : Node → ℤ × ℤ
unfolding get_node_resource
get_node_cores_and_memory node = (get_node_resource node "cpu", get_node_resource node "memory")

-- The loop over the pods.
unfoldable pub oldest_of : List Pod → ℕ → ℕ
oldest_of [] oldest = oldest
oldest_of (pod ∷ pods) oldest =
    oldest_of pods (if ltb pod.creation_timestamp oldest then pod.creation_timestamp else oldest)

unfoldable pub get_oldest_create_time : Env → List Pod → Io ℕ
unfolding oldest_of
get_oldest_create_time env pods = do now ← ask read_clock env.time_now; pure (oldest_of pods now)

-- The texts that the types and the statuses of conditions are in Go.
abbrev pub type_text : ConditionType → String
type_text node_ready = "Ready"
type_text disk_pressure = "DiskPressure"
type_text network_unavailable = "NetworkUnavailable"
type_text (other_type s) = s

abbrev pub status_text : ConditionStatus → String
status_text cond_true = "True"
status_text cond_false = "False"
status_text cond_unknown = "Unknown"
status_text (other_status s) = s

unfoldable pub get_node_condition_status : List NodeCondition → ConditionType → ConditionStatus
get_node_condition_status [] type = cond_unknown
get_node_condition_status (c ∷ cs) type =
    let rest = get_node_condition_status cs type in
    if str_eq (type_text c.type) (type_text type) then c.status else rest

-- By the conditions of the old and of the new node: without any on one side, the status has changed.
unfoldable pub status_changed : List NodeCondition → List NodeCondition → Bool
unfolding get_node_condition_status
status_changed [] news = true
status_changed (c ∷ olds) [] = true
status_changed (c ∷ olds) (d ∷ news) =
    let old_ready = get_node_condition_status (c ∷ olds) node_ready in
    let new_ready = get_node_condition_status (d ∷ news) node_ready in
    not (
      str_eq (status_text old_ready) (status_text new_ready)
      || str_eq (status_text new_ready) "True")

unfoldable pub is_node_status_changed : Node → Node → Bool
unfolding status_changed
is_node_status_changed old_node new_node = status_changed old_node.conditions new_node.conditions

unfoldable pub compute_below_max : ℤ → ℤ → ℤ
compute_below_max total max = if ltb_ℤ total max then max -ℤ total else pos 0

-- `UnschedulablePodLister.List` of utils/kubernetes/listers.go: an error, or the pods that the cache
-- has and that could not be scheduled. `GetPodCondition` of the client library is a parameter.
module _ (get_pod_condition : Pod → String → Option PodCondition) where
  unfoldable pub is_unschedulable : Pod → Bool
  is_unschedulable pod = elim (get_pod_condition pod "PodScheduled") [
    | none ↦ false
    | some c ↦ str_eq (status_text c.status) "False" && str_eq c.reason "Unschedulable"
  ]

  unfoldable pub unschedulable_pods : String ⊎ List Pod → String ⊎ List Pod
  unfolding is_unschedulable
  unschedulable_pods (inl e) = inl e
  unschedulable_pods (inr all_pods) = inr (keep is_unschedulable all_pods)
