-- ===== src/NodeChecks/Polling.antt =====
-- What the controller's checks on nodes say: lateness, and the loops that poll the informer's cache.
use auto_repair.Common.{
  ℕ, zero, suc, ◌+◌, ◌*◌, ◌≤◌, String, true, false, none, some, List, [], ◌∷◌, ◌≡◌, arith, any, Any,
  if◌then◌else◌,
}
use auto_repair.Kube.{Node, NodeCondition, is_node_ready, is_true, says_ready}
use auto_repair.Env.{
  Env, Trace, nil_pointer, second, minute, sleep, lister_get, lister_list, read_clock,
  test◌then◌else◌,
}
use auto_repair.Calls.{naps, slept, Ends, CrashesWith}
use auto_repair.NodeChecks.{
  conditions_loop, is_node_not_ready_for_too_long, poll_node, ready_loop,
  check_node_ready_status_after_repairing, some_ready, all_ready_loop, check_all_nodes_ready_status,
  waiting_time_for_not_ready, retry_duration,
}

-- A Ready condition that is not True and has not changed for five minutes at the given time.
abbrev pub IsLate : ℕ → NodeCondition → Type 0
IsLate now c =
    (is_node_ready c.type ≡ true)
    × (is_true c.status ≡ false)
    × (c.last_transition_time + waiting_time_for_not_ready ≤ now)

conditions_loop_lem :
    (env : Env) (lo hi : ℕ)
    → ((t : Trace) → (lo ≤ env.time_now t) × (env.time_now t ≤ hi))
    → (cs : List NodeCondition) (t : Trace)
    → Ends
        (conditions_loop env cs t)
        (λ b u. (Any (IsLate lo) cs → b ≡ true) × (b ≡ true → Any (IsLate hi) cs))
unfolding conditions_loop
conditions_loop_lem env lo hi clock [] t = ground arith
conditions_loop_lem env lo hi clock (c ∷ cs) t = ground (
  arith,
  clock t,
  conditions_loop_lem env lo hi clock cs t,
  conditions_loop_lem env lo hi clock cs (read_clock ∷ t),
)

-- The test for lateness always returns. While the clock runs from `lo` to `hi`, it says yes if a
-- Ready condition was late at `lo`, and only if one is late at `hi`.
pub is_node_not_ready_for_too_long_lem :
    (env : Env) (lo hi : ℕ)
    → ((t : Trace) → (lo ≤ env.time_now t) × (env.time_now t ≤ hi))
    → (node : Node) (t : Trace)
    → Ends (is_node_not_ready_for_too_long env node t) (λ b u.
      (Any (IsLate lo) node.conditions → b ≡ true) × (b ≡ true → Any (IsLate hi) node.conditions))
unfolding is_node_not_ready_for_too_long
is_node_not_ready_for_too_long_lem env lo hi clock node t =
    conditions_loop_lem env lo hi clock node.conditions t

-- The cache always has the node, and shows it ready once the program has slept k times.
abbrev pub ComesBackBy : Env → String → ℕ → Type 0
ComesBackBy env name k =
    (t : Trace)
    → (n : Node) × (env.cached_node t name ≡ some n)
      × (k ≤ naps t → any says_ready n.conditions ≡ true)

ready_loop_sees :
    (env : Env) (name : String) (k : ℕ)
    → ComesBackBy env name k
    → (rounds : ℕ) (t : Trace) → k ≤ naps t + rounds
    → Ends (ready_loop env name (suc rounds) t) (λ b u. (b ≡ true) × (naps u ≤ naps t + suc rounds))
unfolding ready_loop poll_node
ready_loop_sees env name k back zero t h =
    let (n, e, ready) = back t in ground (arith, ready (omega arith))
ready_loop_sees env name k back (suc rounds) t h =
    let (n, e, ready) = back t in
    ground
      (arith, ready_loop_sees env name k back rounds (sleep retry_duration ∷ lister_get name ∷ t))

-- If the cache always has the node and shows it ready once the program has slept 29 times at most,
-- the check after a repair returns true, and has slept 30 times at most.
pub check_node_ready_status_after_repairing_sees :
    (env : Env) (node : Node) (k : ℕ) (t : Trace)
    → ComesBackBy env node.name k
    → k ≤ naps t + 29
    → Ends
        (check_node_ready_status_after_repairing env node t)
        (λ b u. (b ≡ true) × (naps u ≤ naps t + 30))
unfolding check_node_ready_status_after_repairing
check_node_ready_status_after_repairing_sees env node k t back h =
    ready_loop_sees env node.name k back 29 t h

-- The cache always has the node and never shows it ready.
abbrev pub StaysUnready : Env → String → Type 0
StaysUnready env name =
    (t : Trace)
    → (n : Node) × (env.cached_node t name ≡ some n) × (any says_ready n.conditions ≡ false)

ready_loop_gives_up :
    (env : Env) (name : String)
    → StaysUnready env name
    → (rounds : ℕ) (t : Trace)
    → Ends (ready_loop env name rounds t) (λ b u.
      (b ≡ false) × (naps u ≡ naps t + rounds) × (slept u ≡ slept t + rounds * (10 * second)))
unfolding ready_loop poll_node
ready_loop_gives_up env name stays zero t = ground arith
ready_loop_gives_up env name stays (suc rounds) t =
    let (n, e, unready) = stays t in
    ground (
      arith,
      ready_loop_gives_up env name stays rounds (sleep retry_duration ∷ lister_get name ∷ t),
    )

-- While the cache has the node and never shows it ready, the check returns false after exactly 30
-- pauses, which make five minutes together.
pub check_node_ready_status_after_repairing_gives_up :
    (env : Env) (node : Node) (t : Trace)
    → StaysUnready env node.name
    → Ends
        (check_node_ready_status_after_repairing env node t)
        (λ b u. (b ≡ false) × (naps u ≡ naps t + 30) × (slept u ≡ slept t + 5 * minute))
unfolding check_node_ready_status_after_repairing
check_node_ready_status_after_repairing_gives_up env node t stays =
    ready_loop_gives_up env node.name stays 30 t

-- If the cache has no node of that name, the check ends the process: the error of the lister is
-- dropped and the nil node is read.
pub check_node_ready_status_after_repairing_missing :
    (env : Env) (node : Node) (t : Trace)
    → env.cached_node t node.name ≡ none
    → CrashesWith nil_pointer (check_node_ready_status_after_repairing env node t)
unfolding check_node_ready_status_after_repairing ready_loop poll_node
check_node_ready_status_after_repairing_missing env node t h = ground arith

all_ready_loop_lem :
    (env : Env) (nodes : List Node)
    → ((t : Trace) → env.cached_nodes t ≡ nodes)
    → (rounds : ℕ) (t : Trace)
    → Ends (all_ready_loop env (suc rounds) t) (λ b u.
      (b ≡ some_ready nodes) × (naps u ≡ naps t + (if some_ready nodes then 1 else suc rounds)))
unfolding all_ready_loop
all_ready_loop_lem env nodes steady zero t = ground (arith, steady t)
all_ready_loop_lem env nodes steady (suc rounds) t = ground (
  arith,
  steady t,
  all_ready_loop_lem env nodes steady rounds (sleep retry_duration ∷ lister_list ∷ t),
)

pub check_all_nodes_ready_status_lem :
    (env : Env) (nodes : List Node) (t : Trace)
    → ((t : Trace) → env.cached_nodes t ≡ nodes)
    → Ends
        (check_all_nodes_ready_status env t)
        (λ b u. (b ≡ some_ready nodes) × (naps u ≡ naps t + (if some_ready nodes then 1 else 10)))
unfolding check_all_nodes_ready_status
check_all_nodes_ready_status_lem env nodes t steady = all_ready_loop_lem env nodes steady 9 t
