-- ===== src/Processors.antt =====
-- processors/processors.go, and the statuses and processors of
-- processors/status/scale_up_status_processor.go and processors/status/scale_down_status_processor.go;
-- the results that the scaler returns are in Scaler.antt and Eviction.antt.
use auto_repair.Common.{String, Bool, true, false, Option, none, some, List}
use auto_repair.Kube.{Node, Pod}
use auto_repair.Env.{Io, pure, crash, ◌>>◌, nil_pointer}
use auto_repair.Errors.{AutorepairError}
use auto_repair.Scaler.{
  ScaleUpResult, scale_up_successful, scale_up_error, scale_up_no_options_available,
  scale_up_not_needed, scale_up_not_tried, scale_up_in_cooldown, ScaleDownResult,
}
use auto_repair.Eviction.{PodEvictionResult}
use auto_repair.Tracker.{NodeDeletionTracker}
use auto_repair.Builder.{AutorepairingContext}

-- What the one method of the interface `Reasons` returns.
abbrev pub Reasons : Type 0
Reasons = List String

pub record NoScaleUpInfo : Type 0 where
  pub pod : Pod
  pub rejected_node_groups : List (String × Reasons)
  pub skipped_node_groups : List (String × Reasons)

pub record ScaleUpStatus : Type 0 where
  pub result : ScaleUpResult
  pub scale_up_error : Option AutorepairError
  pub pods_triggered_scale_up : List Pod
  pub pods_remain_unschedulable : List NoScaleUpInfo
  pub pods_await_evaluation : List Pod

-- `s.Result == ScaleUpSuccessful`
abbrev is_successful : ScaleUpResult → Bool
is_successful r = elim r [
  | scale_up_successful ↦ true
  | scale_up_error ↦ false
  | scale_up_no_options_available ↦ false
  | scale_up_not_needed ↦ false
  | scale_up_not_tried ↦ false
  | scale_up_in_cooldown ↦ false
]

unfoldable pub was_successful : ScaleUpStatus → Bool
was_successful s = is_successful s.result

pub record ScaleDownNode : Type 0 where
  pub node : Node

pub record ScaleDownStatus : Type 0 where
  pub result : ScaleDownResult
  pub scaled_down_nodes : List ScaleDownNode

pub data NodeDeleteResultType : Type 0 where
  node_delete_ok node_delete_error_failed_to_mark_to_be_deleted : NodeDeleteResultType
  node_delete_error_failed_to_evict_pods : NodeDeleteResultType
  node_delete_error_failed_to_delete : NodeDeleteResultType

-- An error is its text here.
pub record NodeDeleteResult : Type 0 where
  pub err : Option String
  pub result_type : NodeDeleteResultType
  pub pod_eviction_results : List (String × PodEvictionResult)

-- The tracker of deletions with the results that the program keeps in it.
abbrev pub DeletionTracker : Type 0
DeletionTracker = NodeDeletionTracker NodeDeleteResult

-- The interfaces. The client that `Process` also takes is part of the world.
pub record ScaleUpStatusProcessor : Type 0 where
  pub process : AutorepairingContext → ScaleUpStatus → Io (Unit {0})
  pub clean_up : Io (Unit {0})

pub record ScaleDownStatusProcessor : Type 0 where
  pub process : AutorepairingContext → ScaleDownStatus → Io (Unit {0})
  pub clean_up : Io (Unit {0})

-- The two methods of `NoOpScaleUpStatusProcessor`, which lacks the client among the arguments of
-- `Process` and so is no processor of the interface.
unfoldable pub no_op_process : AutorepairingContext → ScaleUpStatus → Io (Unit {0})
no_op_process context status = pure tt

unfoldable pub no_op_clean_up : Io (Unit {0})
no_op_clean_up = pure tt

unfoldable pub no_op_scale_down_status_processor : ScaleDownStatusProcessor
no_op_scale_down_status_processor = record { process = λ _ _. pure tt; clean_up = pure tt }

-- An interface may be nil.
pub record AutoscalingProcessors : Type 0 where
  pub scale_up_status_processor : Option ScaleUpStatusProcessor
  pub scale_down_status_processor : Option ScaleDownStatusProcessor

unfoldable pub default_processors : AutoscalingProcessors
default_processors = record { scale_up_status_processor = none; scale_down_status_processor = none }

abbrev clean_up_of : Option (Io (Unit {0})) → Io (Unit {0})
clean_up_of none = crash nil_pointer
clean_up_of (some m) = m

abbrev up_clean_up : Option ScaleUpStatusProcessor → Option (Io (Unit {0}))
up_clean_up none = none
up_clean_up (some p) = some p.clean_up

abbrev down_clean_up : Option ScaleDownStatusProcessor → Option (Io (Unit {0}))
down_clean_up none = none
down_clean_up (some p) = some p.clean_up

-- `CleanUp` of the processors
unfoldable pub clean_up_all : AutoscalingProcessors → Io (Unit {0})
clean_up_all ap = do
  clean_up_of (up_clean_up ap.scale_up_status_processor)
  clean_up_of (down_clean_up ap.scale_down_status_processor)
