-- ===== src/Tracker/Laws.antt =====
-- The tracker implements one counter for each node group, and loses no result.
use auto_repair.Common.{
  ℕ, suc, ◌-◌, String, some, List, [], ◌∷◌, ◌≡◌, refl, arith, eq_iff, if◌then◌else◌, str_eq,
  Option-cases, inl, inr, lookup, assign, lookup-remove, lookup-assign,
}
use auto_repair.Tracker.{
  decrease, or_zero, NodeDeletionTracker, start_deletion, end_deletion, get_deletions_in_progress,
  add_node_delete_result, get_and_clear_node_delete_results,
}

-- The calls that change a counter.
pub data Event : Type 0 where
  starts ends : String → Event

-- One counter for one group: up at a start, down at an end, and never below zero.
abbrev pub tally : String → List Event → ℕ → ℕ
tally id [] n = n
tally id (starts k ∷ es) n = tally id es (if str_eq k id then suc n else n)
tally id (ends k ∷ es) n = tally id es (if str_eq k id then n - 1 else n)

unfoldable pub apply_events :
    {A : Type 0} → List Event → NodeDeletionTracker A → NodeDeletionTracker A
unfolding start_deletion end_deletion
apply_events [] n = n
apply_events (starts k ∷ es) n = apply_events es (start_deletion k n)
apply_events (ends k ∷ es) n = apply_events es (end_deletion k n)

module _ {A : Type 0} where
  get-start_deletion :
      (id k : String) (n : NodeDeletionTracker A)
      → get_deletions_in_progress id (start_deletion k n) ≡ (
          if str_eq k id
          then suc (get_deletions_in_progress id n)
          else get_deletions_in_progress id n)
  unfolding get_deletions_in_progress start_deletion
  get-start_deletion id k n = ground (
    arith,
    eq_iff k id,
    lookup-assign id k (suc (or_zero (lookup k n.deletions_in_progress))) n.deletions_in_progress,
  )

  get-end_deletion :
      (id k : String) (n : NodeDeletionTracker A)
      → get_deletions_in_progress id (end_deletion k n) ≡ (
          if str_eq k id
          then get_deletions_in_progress id n - 1
          else get_deletions_in_progress id n)
  unfolding get_deletions_in_progress end_deletion decrease
  get-end_deletion id k n = elim (Option-cases (lookup k n.deletions_in_progress)) [
    | inl missing ↦ ground (arith, eq_iff k id)
    | inr (v, found) ↦ ground (
      arith,
      eq_iff k id,
      lookup-assign id k (v - 1) n.deletions_in_progress,
      lookup-remove id k (assign k (v - 1) n.deletions_in_progress),
    )
  ]

  -- After any sequence of starts and ends of deletions, the number of deletions in progress of a
  -- group is what a counter of its own would show: up by one at each start for this group, and down
  -- by one, but not below zero, at each end for it.
  pub apply_events-tally :
      (id : String) (es : List Event) (n : NodeDeletionTracker A)
      → get_deletions_in_progress id (apply_events es n)
        ≡ tally id es (get_deletions_in_progress id n)
  unfolding apply_events
  apply_events-tally id [] n = refl
  apply_events-tally id (starts k ∷ es) n =
      ground (arith, get-start_deletion id k n, apply_events-tally id es (start_deletion k n))
  apply_events-tally id (ends k ∷ es) n =
      ground (arith, get-end_deletion id k n, apply_events-tally id es (end_deletion k n))

  -- A result that has been added is among the next results that are collected, with the earlier ones
  -- for other nodes, and collecting leaves none behind.
  get_and_clear-add_node_delete_result :
      (name k : String) (result : A) (n : NodeDeletionTracker A)
      → let (results, rest) =
          get_and_clear_node_delete_results (add_node_delete_result name result n) in
        (lookup k results ≡ (if str_eq name k then some result else lookup k n.node_delete_results))
        × ((get_and_clear_node_delete_results rest).0 ≡ [])
  unfolding get_and_clear_node_delete_results add_node_delete_result
  get_and_clear-add_node_delete_result name k result n =
      (lookup-assign k name result n.node_delete_results, refl)
