-- ===== src/Registry/Unregistered.antt =====
-- The nodes that have not registered, over a sequence of updates.
use auto_repair.Common.{
  String, Option, none, some, List, [], ◌∷◌, ◌≡◌, refl, inl, inr, arith, eq_iff, str_eq,
  if◌then◌else◌, lookup, assign, lookup-assign, Option-cases,
}
use auto_repair.Registry.{ClusterStateRegistry, UnregisteredNode, gather, update_unregistered_nodes}

-- The last node of a name in a list.
abbrev pub last_named : String → List UnregisteredNode → Option UnregisteredNode
last_named name [] = none
last_named name (u ∷ us) = elim (last_named name us) [
  | some v ↦ some v
  | none ↦ if str_eq u.node.name name then some u else none
]

abbrev pub first_of : Option UnregisteredNode → Option UnregisteredNode → Option UnregisteredNode
first_of (some prev) found = some prev
first_of none found = found

-- What is known of a name after lists of unregistered nodes, newest first: nothing if the newest
-- list does not have it, and else the node as it was found first since it last was missing.
abbrev pub first_seen : String → List (List UnregisteredNode) → Option UnregisteredNode
first_seen name [] = none
first_seen name (us ∷ uss) =
    let before = first_seen name uss in
    elim (last_named name us) [ none ↦ none | some u ↦ first_of before (some u) ]

gather_lem :
    (name : String) (known : List (String × UnregisteredNode)) (us : List UnregisteredNode)
    (result : List (String × UnregisteredNode))
    → lookup name (gather known us result) ≡ (elim (last_named name us) [
      | none ↦ lookup name result
      | some u ↦ first_of (lookup name known) (some u)
    ])
unfolding gather
gather_lem name known [] result = refl
gather_lem name known (u ∷ us) result = elim (Option-cases (lookup u.node.name known)) [
  | inl missing ↦ ground (
    arith,
    eq_iff u.node.name name,
    gather_lem name known us (assign u.node.name u result),
    lookup-assign name u.node.name u result,
  )
  | inr (prev, found) ↦ ground (
    arith,
    eq_iff u.node.name name,
    gather_lem name known us (assign u.node.name prev result),
    lookup-assign name u.node.name prev result,
  )
]

module _ {W : Type 0} where
  -- Updates with lists of nodes, newest first.
  unfoldable pub after_updates :
      List (List UnregisteredNode) → ClusterStateRegistry W → ClusterStateRegistry W
  unfolding update_unregistered_nodes
  after_updates [] csr = csr
  after_updates (us ∷ uss) csr = update_unregistered_nodes us (after_updates uss csr)

  -- After any updates of a registry that knew no unregistered node, it knows exactly the names of
  -- the newest list, and each with the node and the time at which it was found first since it was
  -- last missing; where that list has a name twice, the last one counts.
  pub after_updates-first_seen :
      (name : String) (uss : List (List UnregisteredNode)) (csr : ClusterStateRegistry W)
      → csr.unregistered_nodes ≡ []
      → lookup name (after_updates uss csr).unregistered_nodes ≡ first_seen name uss
  unfolding after_updates lookup
  after_updates-first_seen name [] csr fresh = rw fresh refl
  after_updates-first_seen name (us ∷ uss) csr fresh = ground (
    arith,
    gather_lem name (after_updates uss csr).unregistered_nodes us [],
    after_updates-first_seen name uss csr fresh,
  )
