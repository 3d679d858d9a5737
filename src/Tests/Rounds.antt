-- ===== src/Tests/Rounds.antt =====
-- The theorems on the repair in rounds, the readiness of nodes, the tracker and the log collector at
-- concrete inputs.
use auto_repair.Common.{
  ℕ, ◌≤◌, true, false, none, List, [], ◌∷◌, ◌++◌, ◌≡◌, ◌↔◌, refl, arith, ap, All, Any, length, drop,
  contains_text,
}
use auto_repair.Common.Int.{ℤ, pos}
use auto_repair.Kube.{Taint}
use auto_repair.Env.{done, lister_list, sleep, minute, get_config_map}
use auto_repair.Calls.{Ensures}
use auto_repair.Settings.{get_max_size_node_group}
use auto_repair.Core.{run_once, asg_repair_nodes, StaticAutorepair, common_nodes, worker_node_count}
use auto_repair.Core.Requests.{Grows}
use auto_repair.Core.Confirmed.{IsConfirmed, run_once-IsConfirmed}
use auto_repair.Core.Halting.{Stops}
use auto_repair.Core.Ending.{ReadsTwice, asg_repair_nodes-Stops}
use auto_repair.Readiness.{get_node_readiness, not_ready_taints}
use auto_repair.Readiness.Laws.{IsReadyCondition, IsOpen, get_node_readiness_lem}
use auto_repair.Tracker.{NodeDeletionTracker, get_deletions_in_progress}
use auto_repair.Tracker.Laws.{Event, starts, ends, tally, apply_events, apply_events-tally}
use auto_repair.LogCollector.{LogCollector, LogItem, info, compact, add_log}
use auto_repair.LogCollector.Laws.{IsSorted, fresh_of, compact_lem, add_log_lem}
use auto_repair.Tests.World.{world, access, target, healthy, broken}

common_runs : common_nodes (healthy ∷ broken ∷ []) (broken ∷ []) ≡ broken ∷ []
unfolding common_nodes
common_runs = refl

count_runs : worker_node_count (healthy ∷ broken ∷ []) ≡ (2, "k8s-worker1" ∷ "k8s-worker2" ∷ [])
unfolding worker_node_count contains_text
count_runs = refl

abbrev autorepair : StaticAutorepair
autorepair = record {
  last_scale_up_time = 0;
  last_scale_down_delete_time = 0;
  last_scale_down_fail_time = 0;
}

run_once-IsConfirmed_example :
    Ensures
      (run_once world 3 minute access autorepair [])
      (λ _ v. Grows (IsConfirmed world target [] (sleep minute ∷ lister_list ∷ [])) [] v)
run_once-IsConfirmed_example = run_once-IsConfirmed world 3 minute access autorepair []

reads_twice : ReadsTwice world
unfolding get_max_size_node_group
reads_twice t u max e =
    let three : pos 3 ≡ max = ground arith in
    let v = get_config_map "autoscaling-configmap" ∷ lister_list ∷ u in
    (refl, (v, ap (λ (z : ℤ). done z v) three))

asg_repair_nodes-Stops_example : Stops (asg_repair_nodes world target 3 (broken ∷ healthy ∷ []) [])
asg_repair_nodes-Stops_example =
    asg_repair_nodes-Stops world target reads_twice 3 (broken ∷ healthy ∷ []) [] (omega arith)

get_node_readiness_lem_example :
    (((get_node_readiness broken).1 ≡ none) ↔ Any IsReadyCondition broken.conditions)
    × (((get_node_readiness broken).0.ready ≡ true) ↔ (
        Any IsReadyCondition broken.conditions
        × All IsOpen broken.conditions
        × All (λ (x : Taint). not_ready_taints x.key ≡ false) broken.taints))
get_node_readiness_lem_example = get_node_readiness_lem broken

abbrev fresh_tracker : NodeDeletionTracker ℕ
fresh_tracker = record {
  non_empty_node_delete_in_progress = false;
  node_delete_results = [];
  deletions_in_progress = [];
}

abbrev deletions : List Event
deletions = starts "a" ∷ starts "b" ∷ starts "a" ∷ ends "b" ∷ ends "b" ∷ ends "a" ∷ []

apply_events-tally_example :
    get_deletions_in_progress "a" (apply_events deletions fresh_tracker)
    ≡ tally "a" deletions (get_deletions_in_progress "a" fresh_tracker)
apply_events-tally_example = apply_events-tally "a" deletions fresh_tracker

abbrev item_at : ℕ → LogItem
item_at t = record { log = "event"; level = info; timestamp = t }

abbrev collector : LogCollector
collector = record {
  max_items = 2;
  item_lifetime = 10;
  store = item_at 1 ∷ item_at 5 ∷ item_at 9 ∷ [];
}

compact_lem_example :
    let kept = (compact 16 collector).store in
    (length kept ≤ 2)
    × ((old : List LogItem) × (collector.store ≡ old ++ kept))
    × (IsSorted collector.store → kept ≡ fresh_of 10 16 (drop 1 collector.store))
compact_lem_example = compact_lem 16 collector

add_log_lem_example :
    (front : List LogItem) × ((add_log "late" info 16 collector).store
      ≡ front ++ (record { log = "late"; level = info; timestamp = 16 } ∷ []))
add_log_lem_example = add_log_lem "late" info 16 collector (omega arith) (omega arith)
