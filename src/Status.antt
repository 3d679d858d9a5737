-- ===== src/Status.antt =====
-- clusterstate/api: the status of the cluster and its text, and the functions of
-- clusterstate/clusterstate.go that build conditions and date their transitions.
use auto_repair.Common.{
  ℕ, suc, ◌+◌, String, ◌<>◌, Bool, ◌&&◌, Option, none, some, List, [], ◌∷◌, map, if◌then◌else◌,
  str_eq, ltb, any, length,
}
use auto_repair.Common.Int.{ℤ, pos, negsuc}
use auto_repair.Portal.{itoa}

-- `ClusterAutoscalerCondition` of clusterstate/api/types.go; its types and statuses are texts.
pub record ClusterAutoscalerCondition : Type 0 where
  pub type : String
  pub status : String
  pub message : String
  pub reason : String
  pub last_probe_time : ℕ
  pub last_transition_time : ℕ

pub record NodeGroupStatus : Type 0 where
  pub conditions : List ClusterAutoscalerCondition

pub record ClusterAutoscalerStatus : Type 0 where
  pub node_group_statuses : List NodeGroupStatus
  pub clusterwide_conditions : List ClusterAutoscalerCondition

-- `Readiness` of clusterstate/clusterstate.go
pub record Readiness : Type 0 where
  pub ready : ℤ
  pub unready : ℤ
  pub deleted : ℤ
  pub not_started : ℤ
  pub registered : ℤ
  pub long_unregistered : ℤ
  pub unregistered : ℤ
  pub time : ℕ

-- `AcceptableRange` of clusterstate/clusterstate.go
pub record AcceptableRange : Type 0 where
  pub min_nodes : ℤ
  pub max_nodes : ℤ
  pub current_target : ℤ

-- The verb %d of package fmt.
abbrev pub print_int : ℤ → String
print_int (pos n) = itoa n
print_int (negsuc n) = "-" <> itoa (suc n)

-- A condition as the builders leave it: without a reason, and not dated yet.
abbrev condition_of : String → String → String → ℕ → ClusterAutoscalerCondition
condition_of type status message probed = record {
  type = type;
  status = status;
  message = message;
  reason = "";
  last_probe_time = probed;
  last_transition_time = 0;
}

-- What the health messages of a node group and of the cluster have in common.
unfoldable counts_message : Readiness → String
counts_message r =
    "ready="
    <> (print_int r.ready
        <> (" unready="
            <> (print_int r.unready
                <> (" notStarted="
                    <> (print_int r.not_started
                        <> (" longNotStarted=0 registered="
                            <> (print_int r.registered
                                <> (" longUnregistered=" <> print_int r.long_unregistered))))))))

unfoldable pub build_health_status_node_group :
    Bool → Readiness → AcceptableRange → ℤ → ℤ → ClusterAutoscalerCondition
unfolding counts_message
build_health_status_node_group is_ready readiness acceptable min_size max_size =
    condition_of "Health" (if is_ready then "Healthy" else "Unhealthy")
      (counts_message readiness
        <> (" cloudProviderTarget="
            <> (print_int acceptable.current_target
                <> (" (minSize="
                    <> (print_int min_size <> (", maxSize=" <> (print_int max_size <> ")")))))))
      readiness.time

unfoldable pub build_scale_up_status_node_group :
    Bool → Bool → Readiness → AcceptableRange → ClusterAutoscalerCondition
build_scale_up_status_node_group is_scale_up_in_progress is_safe_to_scale_up readiness acceptable =
    condition_of "ScaleUp"
      (if is_scale_up_in_progress
        then "InProgress"
        else if is_safe_to_scale_up
        then "NoActivity"
        else "Backoff")
      ("ready="
        <> (print_int readiness.ready
            <> (" cloudProviderTarget=" <> (print_int acceptable.current_target))))
      readiness.time

unfoldable pub build_scale_down_status_node_group : List String → ℕ → ClusterAutoscalerCondition
build_scale_down_status_node_group candidates last_probed =
    condition_of "ScaleDown"
      (if ltb 0 (length candidates) then "CandidatesPresent" else "NoCandidates")
      ("candidates=" <> itoa (length candidates)) last_probed

unfoldable pub build_health_status_clusterwide : Bool → Readiness → ClusterAutoscalerCondition
unfolding counts_message
build_health_status_clusterwide is_ready readiness =
    condition_of "Health" (if is_ready then "Healthy" else "Unhealthy") (counts_message readiness)
      readiness.time

-- Whether a condition says that a scale-up is in progress.
abbrev scales_up : ClusterAutoscalerCondition → Bool
scales_up c = str_eq c.type "ScaleUp" && str_eq c.status "InProgress"

unfoldable pub build_scale_up_status_clusterwide :
    List NodeGroupStatus → Readiness → ClusterAutoscalerCondition
build_scale_up_status_clusterwide node_group_statuses readiness =
    condition_of "ScaleUp"
      (if any (λ g. any scales_up g.conditions) node_group_statuses
        then "InProgress"
        else "NoActivity")
      ("ready="
        <> (print_int readiness.ready <> (" registered=" <> print_int readiness.registered)))
      readiness.time

-- The candidates of all node groups; the order in which the map is walked does not matter.
unfoldable pub total_candidates : List (String × List String) → ℕ
total_candidates [] = 0
total_candidates ((group, val) ∷ m) = length val + total_candidates m

unfoldable pub build_scale_down_status_clusterwide :
    List (String × List String) → ℕ → ClusterAutoscalerCondition
unfolding total_candidates
build_scale_down_status_clusterwide candidates last_probed =
    condition_of "ScaleDown"
      (if ltb 0 (total_candidates candidates) then "CandidatesPresent" else "NoCandidates")
      ("candidates=" <> itoa (total_candidates candidates)) last_probed

-- The inner loop of `updateLastTransitionSingleList`: the first old condition of the type decides.
unfoldable pub transition_time : ClusterAutoscalerCondition → List ClusterAutoscalerCondition → ℕ
transition_time condition [] = condition.last_probe_time
transition_time condition (old ∷ olds) =
    let rest = transition_time condition olds in
    if str_eq condition.type old.type
    then if str_eq condition.status old.status
      then old.last_transition_time
      else condition.last_probe_time
    else rest

unfoldable pub update_last_transition_single_list :
    List ClusterAutoscalerCondition
    → List ClusterAutoscalerCondition
    → List ClusterAutoscalerCondition
unfolding transition_time
update_last_transition_single_list olds [] = []
update_last_transition_single_list olds (condition ∷ news) =
    record condition { last_transition_time = transition_time condition olds }
    ∷ update_last_transition_single_list olds news

-- No old condition of a node group is looked up: the code that did it is commented out.
unfoldable pub update_last_transition :
    ClusterAutoscalerStatus → ClusterAutoscalerStatus → ClusterAutoscalerStatus
unfolding update_last_transition_single_list
update_last_transition old_status new_status = record {
  clusterwide_conditions =
      update_last_transition_single_list old_status.clusterwide_conditions
        new_status.clusterwide_conditions;
  node_group_statuses =
      map (λ g. record { conditions = update_last_transition_single_list [] g.conditions })
        new_status.node_group_statuses;
}

unfoldable pub get_condition_by_type :
    String → List ClusterAutoscalerCondition → Option ClusterAutoscalerCondition
get_condition_by_type type [] = none
get_condition_by_type type (c ∷ cs) =
    let rest = get_condition_by_type type cs in if str_eq c.type type then some c else rest
