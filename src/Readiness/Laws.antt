-- ===== src/Readiness/Laws.antt =====
-- What the readiness of a node says of its conditions and taints.
use auto_repair.Common.{
  String, Bool, true, false, none, List, [], ◌∷◌, ◌≡◌, ◌↔◌, ◌⊎◌, inl, inr, arith, All, Any,
  Bool-cases,
}
use auto_repair.Kube.{
  Node, NodeCondition, Taint, node_ready, disk_pressure, network_unavailable, other_type,
  is_node_ready, is_true,
}
use auto_repair.Readiness.{
  Scan, scan_start, by_type, is_false_or_unknown, scan_conditions, scan_taints, not_ready_taints,
  later_opt, get_node_readiness, get_readiness_state, is_not_node_ready_and_schedulable,
  get_unready_node_copy,
}

-- A condition that keeps its node from being ready.
abbrev pub blocks : NodeCondition → Bool
blocks c = elim c.type [
  | node_ready ↦ is_false_or_unknown c.status
  | disk_pressure ↦ is_true c.status
  | network_unavailable ↦ is_true c.status
  | other_type k ↦ false
]

abbrev pub IsOpen : NodeCondition → Type 0
IsOpen c = blocks c ≡ false

abbrev pub IsReadyCondition : NodeCondition → Type 0
IsReadyCondition c = is_node_ready c.type ≡ true

scan_conditions_lem :
    (cs : List NodeCondition) (s : Scan)
    → (((scan_conditions cs s).can_node_be_ready ≡ true)
        ↔ ((s.can_node_be_ready ≡ true) × All IsOpen cs))
      × (((scan_conditions cs s).ready_found ≡ true)
          ↔ ((s.ready_found ≡ true) ⊎ Any IsReadyCondition cs))
unfolding scan_conditions
scan_conditions_lem [] s = ground arith
scan_conditions_lem (c ∷ cs) s = ground (arith, scan_conditions_lem cs (by_type c.type s c))

scan_taints_lem :
    (xs : List Taint) (s : Scan)
    → (((scan_taints xs s).can_node_be_ready ≡ true)
        ↔ ((s.can_node_be_ready ≡ true) × All (λ (x : Taint). not_ready_taints x.key ≡ false) xs))
      × ((scan_taints xs s).ready_found ≡ s.ready_found)
unfolding scan_taints
scan_taints_lem [] s = ground arith
scan_taints_lem (x ∷ xs) s = elim (Bool-cases (not_ready_taints x.key)) [
  | inl bad ↦ ground (
    arith,
    bad,
    scan_taints_lem xs (record s {
      can_node_be_ready = false;
      last_transition_time = later_opt s.last_transition_time x.time_added;
    }),
  )
  | inr good ↦ ground (arith, good, scan_taints_lem xs s)
]

-- The readiness of a node is found exactly if it has a Ready condition. Then the node is ready
-- exactly if no Ready condition says False or Unknown, no pressure on its disk or lack of its
-- network is True, and none of its taints says so either.
pub get_node_readiness_lem :
    (node : Node)
    → (((get_node_readiness node).1 ≡ none) ↔ Any IsReadyCondition node.conditions)
      × (((get_node_readiness node).0.ready ≡ true) ↔ (
          Any IsReadyCondition node.conditions
          × All IsOpen node.conditions
          × All (λ (x : Taint). not_ready_taints x.key ≡ false) node.taints))
unfolding get_node_readiness
get_node_readiness_lem node = ground (
  arith,
  scan_conditions_lem node.conditions scan_start,
  scan_taints_lem node.taints (scan_conditions node.conditions scan_start),
)

-- The copy of a node that is made unready has a readiness, and the lister of nodes that are not
-- ready lets it through.
pub get_unready_node_copy_lem :
    (node : Node) (reason : String)
    → ((get_node_readiness (get_unready_node_copy node reason)).1 ≡ none)
      × (is_not_node_ready_and_schedulable (get_unready_node_copy node reason) ≡ true)
unfolding get_unready_node_copy is_not_node_ready_and_schedulable get_readiness_state
get_unready_node_copy_lem node reason =
    ground (arith, get_node_readiness_lem (get_unready_node_copy node reason))
