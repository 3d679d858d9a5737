-- ===== src/Skipping.antt =====
-- scaler/ScaleUp.go: what keeps a scaling up from being tried, and its status after an error.
pub mod Laws
use auto_repair.Common.{String, ◌<>◌, Bool, false, Option, some, List, [], ◌∷◌}
use auto_repair.Errors.{AutorepairError}
use auto_repair.Scaler.{scale_up_error}
use auto_repair.Processors.{ScaleUpStatus}

pub record ScaleUpLimitsCheckResult : Type 0 where
  pub exceeded : Bool
  pub exceeded_resources : List String

unfoldable pub scale_up_limits_not_exceeded : ScaleUpLimitsCheckResult
scale_up_limits_not_exceeded = record { exceeded = false; exceeded_resources = [] }

pub record SkippedReasons : Type 0 where
  pub message : List String

-- The method `Reasons`.
unfoldable pub reasons : SkippedReasons → List String
reasons sr = sr.message

abbrev pub backoff_reason : SkippedReasons
backoff_reason = record { message = "in backoff after failed scale-up" ∷ [] }

abbrev pub max_limit_reached_reason : SkippedReasons
max_limit_reached_reason = record { message = "max node group size reached" ∷ [] }

abbrev pub not_ready_reason : SkippedReasons
not_ready_reason = record { message = "not ready for scale-up" ∷ [] }

-- `strings.Join(resources, ", ")`
abbrev pub join : List String → String
join [] = ""
join (r ∷ []) = r
join (r ∷ s ∷ rs) = r <> ", " <> join (s ∷ rs)

unfoldable pub max_resource_limit_reached : List String → SkippedReasons
max_resource_limit_reached resources = record {
  message = ("max cluster " <> join resources <> " limit reached") ∷ [];
}

-- `scaleUpError`, which writes to the status that it gets and returns it.
unfoldable pub fail_scale_up : ScaleUpStatus → AutorepairError → ScaleUpStatus × AutorepairError
fail_scale_up s err = (record s { scale_up_error = some err; result = scale_up_error }, err)
