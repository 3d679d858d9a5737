-- ===== src/Listers/Laws.antt =====
-- What the default listers of nodes list.
use auto_repair.Common.{
  Bool, true, false, List, [], ◌∷◌, ◌≡◌, ◌↔◌, inl, inr, refl, arith, All, Any, Bool-cases,
}
use auto_repair.Kube.{Node, Taint}
use auto_repair.Env.{Trace}
use auto_repair.Readiness.{
  get_node_readiness, get_readiness_state, is_node_ready_and_schedulable,
  is_not_node_ready_and_schedulable, filter_nodes, not_ready_taints,
}
use auto_repair.Readiness.Laws.{IsReadyCondition, IsOpen, get_node_readiness_lem}
use auto_repair.Listers.{Client, new_lister_registry_with_default_listers}

-- The list has the node.
abbrev pub Has : Node → List Node → Type 0
Has n = Any (λ (m : Node). m ≡ n)

-- The node has a Ready condition, and none of its conditions or taints speaks against it.
abbrev pub IsReady : Node → Type 0
IsReady n =
    Any IsReadyCondition n.conditions
    × All IsOpen n.conditions
    × All (λ (x : Taint). not_ready_taints x.key ≡ false) n.taints

ready_lem :
    (n : Node) → (is_node_ready_and_schedulable n ≡ true) ↔ (IsReady n × (n.unschedulable ≡ false))
unfolding is_node_ready_and_schedulable get_readiness_state
ready_lem n = ground (arith, (get_node_readiness_lem n).1)

not_ready_lem : (n : Node) → (is_not_node_ready_and_schedulable n ≡ true) ↔ (¬ IsReady n)
unfolding is_not_node_ready_and_schedulable get_readiness_state
not_ready_lem n = elim (Bool-cases (get_node_readiness n).0.ready) [
  | inl e ↦ (λ h. ground arith, λ h. absurd (h ((get_node_readiness_lem n).1.0 e)))
  | inr e ↦ (λ h ready. ground (arith, (get_node_readiness_lem n).1.1 ready), λ h. ground arith)
]

Has-filter :
    (p : Node → Bool) (n : Node) (ns : List Node)
    → Has n (filter_nodes ns p) ↔ (Has n ns × (p n ≡ true))
unfolding filter_nodes
Has-filter p n [] = ground arith
Has-filter p n (m ∷ ns) = elim (Bool-cases (p m)) [
  | inl e ↦ ground (arith, e, Has-filter p n ns)
  | inr e ↦ ground (arith, e, Has-filter p n ns)
]

-- What the three default listers of nodes list, each from its own store.
-- The first lists all nodes of its store, the second exactly those of its own that are ready and not
-- cordoned, and the third exactly those of its own that are not ready, cordoned or not.
default_node_listers :
    (client : Client) (t : Trace) (xs ys zs : List Node)
    → (client.nodes 4 "nodes" "" "").list t ≡ inr xs
    → (client.nodes 2 "nodes" "" "").list t ≡ inr ys
    → (client.nodes 3 "nodes" "" "").list t ≡ inr zs
    → let registry = new_lister_registry_with_default_listers client in
      (registry.all_node_lister.list t ≡ inr xs)
      × ((rs : List Node) × (registry.ready_node_lister.list t ≡ inr rs)
          × ((n : Node) → Has n rs ↔ (Has n ys × IsReady n × (n.unschedulable ≡ false))))
      × ((us : List Node) × (registry.not_ready_node_lister.list t ≡ inr us)
          × ((n : Node) → Has n us ↔ (Has n zs × (¬ IsReady n))))
unfolding new_lister_registry_with_default_listers
default_node_listers client t xs ys zs all_of ready_of unready_of = (
  rw all_of refl,
  (
    filter_nodes ys is_node_ready_and_schedulable,
    rw ready_of refl,
    λ n. ground (arith, Has-filter is_node_ready_and_schedulable n ys, ready_lem n),
  ),
  (
    filter_nodes zs is_not_node_ready_and_schedulable,
    rw unready_of refl,
    λ n.
        let (out, back) = Has-filter is_not_node_ready_and_schedulable n zs in
        let (unready, fits) = not_ready_lem n in
        (
          λ h. let (here, fit) = out h in (here, unready fit),
          λ (here, none_ready). back (here, fits none_ready),
        ),
  ),
)
