-- ===== src/Readiness.antt =====
-- utils/kubernetes/ready.go: whether a node is ready; and the node listers of
-- utils/kubernetes/listers.go, which filter the nodes of the cache by it.
pub mod Laws
use auto_repair.Common.{
  ℕ, String, Bool, true, false, ◌&&◌, not, Option, none, some, List, [], ◌∷◌, if◌then◌else◌, ltb,
  keep,
}
use auto_repair.Kube.{
  Node, NodeCondition, Taint, TaintKey, taint_not_ready, taint_disk_pressure,
  taint_network_unavailable, other_key, ConditionType, node_ready, disk_pressure,
  network_unavailable, other_type, ConditionStatus, cond_true, cond_false, cond_unknown,
  other_status, is_true, is_node_ready,
}
use auto_repair.Env.{Env, Io, ask, lister_list}

-- `NodeReadiness`; the zero value of a time is 0.
pub record NodeReadiness : Type 0 where
  pub ready : Bool
  pub last_transition_time : ℕ
  pub reason : String

-- The variables of the two loops of `GetNodeReadiness`.
pub record Scan : Type 0 where
  pub can_node_be_ready : Bool
  pub ready_found : Bool
  pub last_transition_time : ℕ
  pub reason : String

abbrev pub later : ℕ → ℕ → ℕ
later old new = if ltb old new then new else old

-- condition.Status == ConditionFalse || condition.Status == ConditionUnknown
abbrev pub is_false_or_unknown : ConditionStatus → Bool
is_false_or_unknown cond_true = false
is_false_or_unknown cond_false = true
is_false_or_unknown cond_unknown = true
is_false_or_unknown (other_status s) = false

-- The two cases that differ only in their type.
abbrev pressure : Scan → NodeCondition → Scan
pressure s c = record {
  can_node_be_ready = if is_true c.status then false else s.can_node_be_ready;
  ready_found = s.ready_found;
  last_transition_time = later s.last_transition_time c.last_transition_time;
  reason = s.reason;
}

abbrev ready_case : Scan → NodeCondition → Scan
ready_case s c = record {
  can_node_be_ready = if is_false_or_unknown c.status then false else s.can_node_be_ready;
  ready_found = true;
  last_transition_time = later s.last_transition_time c.last_transition_time;
  reason = if is_false_or_unknown c.status then c.reason else s.reason;
}

-- The switch on the type of a condition.
abbrev pub by_type : ConditionType → Scan → NodeCondition → Scan
by_type node_ready s c = ready_case s c
by_type disk_pressure s c = pressure s c
by_type network_unavailable s c = pressure s c
by_type (other_type k) s c = s

unfoldable pub scan_conditions : List NodeCondition → Scan → Scan
scan_conditions [] s = s
scan_conditions (c ∷ cs) s = scan_conditions cs (by_type c.type s c)

-- The map `notReadyTaints`.
abbrev pub not_ready_taints : TaintKey → Bool
not_ready_taints taint_not_ready = true
not_ready_taints taint_disk_pressure = true
not_ready_taints taint_network_unavailable = true
not_ready_taints (other_key k) = false

abbrev pub later_opt : ℕ → Option ℕ → ℕ
later_opt old none = old
later_opt old (some new) = later old new

unfoldable pub scan_taints : List Taint → Scan → Scan
scan_taints [] s = s
scan_taints (x ∷ xs) s = scan_taints xs (
    if not_ready_taints x.key
    then record s {
      can_node_be_ready = false;
      last_transition_time = later_opt s.last_transition_time x.time_added;
    }
    else s)

abbrev pub zero_readiness : NodeReadiness
zero_readiness = record { ready = false; last_transition_time = 0; reason = "" }

abbrev pub scan_start : Scan
scan_start = record {
  can_node_be_ready = true;
  ready_found = false;
  last_transition_time = 0;
  reason = "";
}

abbrev conclude : Scan → NodeReadiness × Option String
conclude s =
    if s.ready_found
    then (
      record {
        ready = s.can_node_be_ready;
        last_transition_time = s.last_transition_time;
        reason = s.reason;
      },
      none,
    )
    else (zero_readiness, some "readiness information not found")

unfoldable pub get_node_readiness : Node → NodeReadiness × Option String
unfolding scan_conditions scan_taints
get_node_readiness node =
    conclude (scan_taints node.taints (scan_conditions node.conditions scan_start))

unfoldable pub get_readiness_state : Node → Bool × ℕ × Option String
unfolding get_node_readiness
get_readiness_state node =
    let (nr, err) = get_node_readiness node in (nr.ready, nr.last_transition_time, err)

unfoldable pub is_node_ready_and_schedulable : Node → Bool
unfolding get_readiness_state
is_node_ready_and_schedulable node =
    if not (get_readiness_state node).0 then false else if node.unschedulable then false else true

unfoldable pub is_not_node_ready_and_schedulable : Node → Bool
unfolding get_readiness_state
is_not_node_ready_and_schedulable node =
    if not (get_readiness_state node).0 then true else if node.unschedulable then false else false

unfoldable pub get_unready_node_copy : Node → String → Node
get_unready_node_copy node reason =
    let new_ready_condition : NodeCondition = record {
      type = node_ready;
      status = cond_false;
      last_transition_time = node.creation_timestamp;
      reason = reason;
    } in
    record node {
      conditions =
          new_ready_condition
          ∷ keep (λ (c : NodeCondition). not (is_node_ready c.type)) node.conditions;
    }

unfoldable pub filter_nodes : List Node → (Node → Bool) → List Node
filter_nodes [] predicate = []
filter_nodes (n ∷ ns) predicate =
    let rest = filter_nodes ns predicate in if predicate n then n ∷ rest else rest

-- `List` of a lister with the given filter, over the nodes of its cache.
abbrev pub list_nodes_of : Env → Option (Node → Bool) → Io (List Node)
list_nodes_of env none = ask lister_list env.cached_nodes
list_nodes_of env (some filter) = ask lister_list (λ t. filter_nodes (env.cached_nodes t) filter)

abbrev pub all_nodes : Env → Io (List Node)
all_nodes env = list_nodes_of env none

abbrev pub ready_nodes : Env → Io (List Node)
ready_nodes env = list_nodes_of env (some is_node_ready_and_schedulable)

abbrev pub not_ready_nodes : Env → Io (List Node)
not_ready_nodes env = list_nodes_of env (some is_not_node_ready_and_schedulable)
