-- ===== src/Tracker.antt =====
-- scaler/ScaleDown.go: `NodeDeletionTracker`, which counts the deletions in progress of each node
-- group and keeps the results of deletions until they are collected.
pub mod Laws
use auto_repair.Common.{
  ℕ, suc, ◌+◌, ◌-◌, String, Bool, false, Option, none, some, List, [], ◌∷◌, leb, if◌then◌else◌,
  lookup, remove, assign,
}

-- The lock makes each method one step. `A` is the type of results. A counter is never negative: the
-- one assignment that would make it so is followed by its removal.
pub record NodeDeletionTracker (A : Type 0) : Type 0 where
  pub non_empty_node_delete_in_progress : Bool
  pub node_delete_results : List (String × A)
  pub deletions_in_progress : List (String × ℕ)

abbrev pub or_zero : Option ℕ → ℕ
or_zero none = 0
or_zero (some n) = n

-- The map of counters after `EndDeletion`, by the counter that was found.
unfoldable pub decrease : String → Option ℕ → List (String × ℕ) → List (String × ℕ)
unfolding assign remove
decrease id none m = m
decrease id (some value) m =
    let lower = assign id (value - 1) m in if leb (value - 1) 0 then remove id lower else lower

module _ {A : Type 0} where
  unfoldable pub new_node_deletion_tracker : NodeDeletionTracker A
  new_node_deletion_tracker = record {
    non_empty_node_delete_in_progress = false;
    node_delete_results = [];
    deletions_in_progress = [];
  }

  unfoldable pub is_non_empty_node_delete_in_progress : NodeDeletionTracker A → Bool
  is_non_empty_node_delete_in_progress n = n.non_empty_node_delete_in_progress

  unfoldable pub set_non_empty_node_delete_in_progress :
      Bool → NodeDeletionTracker A → NodeDeletionTracker A
  set_non_empty_node_delete_in_progress status n = record n {
    non_empty_node_delete_in_progress = status;
  }

  unfoldable pub get_deletions_in_progress : String → NodeDeletionTracker A → ℕ
  unfolding lookup
  get_deletions_in_progress id n = or_zero (lookup id n.deletions_in_progress)

  unfoldable pub start_deletion : String → NodeDeletionTracker A → NodeDeletionTracker A
  unfolding assign lookup
  start_deletion id n = record n {
    deletions_in_progress =
        assign id (suc (or_zero (lookup id n.deletions_in_progress))) n.deletions_in_progress;
  }

  unfoldable pub end_deletion : String → NodeDeletionTracker A → NodeDeletionTracker A
  unfolding decrease lookup
  end_deletion id n = record n {
    deletions_in_progress = decrease id (lookup id n.deletions_in_progress) n.deletions_in_progress;
  }

  unfoldable pub add_node_delete_result : String → A → NodeDeletionTracker A → NodeDeletionTracker A
  unfolding assign
  add_node_delete_result name result n = record n {
    node_delete_results = assign name result n.node_delete_results;
  }

  unfoldable pub get_and_clear_node_delete_results :
      NodeDeletionTracker A → List (String × A) × NodeDeletionTracker A
  get_and_clear_node_delete_results n =
      (n.node_delete_results, record n { node_delete_results = [] })
