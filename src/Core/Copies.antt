-- ===== src/Core/Copies.antt =====
-- core/scale_down.go and core/scale_up.go: what they have word for word in common with
-- scaler/ScaleDown.go and scaler/ScaleUp.go.
use auto_repair.Common.{ℕ, String, Bool, Option, List}
use auto_repair.Common.Int.{ℤ}
use auto_repair.Kube.{Node, Pod}
use auto_repair.Env.{Env, Io}
use auto_repair.Errors.{AutorepairError}
use auto_repair.Eviction.{Poll, PodEvictionResult}
use auto_repair.Eviction
use auto_repair.Scaler
use auto_repair.NodeUtils
use auto_repair.Tracker

abbrev pub NodeDeletionTracker : Type 0 → Type 0
NodeDeletionTracker A = Tracker.NodeDeletionTracker A

module _ {A : Type 0} where
  abbrev pub new_node_deletion_tracker : NodeDeletionTracker A
  new_node_deletion_tracker = Tracker.new_node_deletion_tracker

  abbrev pub is_non_empty_node_delete_in_progress : NodeDeletionTracker A → Bool
  is_non_empty_node_delete_in_progress = Tracker.is_non_empty_node_delete_in_progress

  abbrev pub set_non_empty_node_delete_in_progress :
      Bool → NodeDeletionTracker A → NodeDeletionTracker A
  set_non_empty_node_delete_in_progress = Tracker.set_non_empty_node_delete_in_progress

  abbrev pub start_deletion : String → NodeDeletionTracker A → NodeDeletionTracker A
  start_deletion = Tracker.start_deletion

  abbrev pub end_deletion : String → NodeDeletionTracker A → NodeDeletionTracker A
  end_deletion = Tracker.end_deletion

  abbrev pub get_deletions_in_progress : String → NodeDeletionTracker A → ℕ
  get_deletions_in_progress = Tracker.get_deletions_in_progress

  abbrev pub add_node_delete_result : String → A → NodeDeletionTracker A → NodeDeletionTracker A
  add_node_delete_result = Tracker.add_node_delete_result

  abbrev pub get_and_clear_node_delete_results :
      NodeDeletionTracker A → List (String × A) × NodeDeletionTracker A
  get_and_clear_node_delete_results = Tracker.get_and_clear_node_delete_results

abbrev pub evict_pod : Env → ℕ → Pod → Bool → ℤ → ℕ → ℕ → Io PodEvictionResult
evict_pod = Eviction.evict_pod

abbrev pub wait_for_delay_deletion : Poll → Env → Node → ℕ → Io (Option AutorepairError)
wait_for_delay_deletion = Eviction.wait_for_delay_deletion

abbrev pub has_delay_deletion_annotation : Node → Bool
has_delay_deletion_annotation = Eviction.has_delay_deletion_annotation

abbrev pub has_no_scale_down_annotation : Node → Bool
has_no_scale_down_annotation = Eviction.has_no_scale_down_annotation

abbrev pub cordon_worker_node_and_delete_pod : Env → String → Io (Unit {0})
cordon_worker_node_and_delete_pod = Eviction.cordon_worker_node_and_delete_pod

abbrev pub compute_below_max : ℤ → ℤ → ℤ
compute_below_max = NodeUtils.compute_below_max

abbrev pub check_worker_node_can_be_scale_down : Env → String → Io Bool
check_worker_node_can_be_scale_down = Scaler.check_worker_node_can_be_scale_down
