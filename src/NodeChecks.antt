-- ===== src/NodeChecks.antt =====
-- Controller.go: the checks on nodes, of a late one and of those that should be ready.
pub mod Polling
use auto_repair.Common.{
  ℕ, zero, suc, ◌*◌, ◌-◌, String, ◌<>◌, Bool, true, false, ◌&&◌, Option, none, some, List, [], ◌∷◌,
  if◌then◌else◌, not, leb, str_eq, any, length,
}
use auto_repair.Common.Int.{ℤ, pos, leb_ℤ, ltb_ℤ}
use auto_repair.Kube.{Node, NodeCondition, is_node_ready, is_true, says_ready}
use auto_repair.Env.{
  Env, Io, pure, crash, no_fuel, ask, tell, ◌>>=◌, ◌>>◌, test◌then◌else◌, sleep, second, minute,
  nil_pointer, lister_get, lister_list, list_nodes, read_clock, queue_add, queue_get, queue_forget,
}
use auto_repair.Errors.{AutorepairError}
use auto_repair.Portal.{Access, Target, target_of, get_id_cluster}
use auto_repair.Settings.{
  get_user_name, get_password, get_host, get_org, get_vdc, get_access_token, get_vpc_id,
  get_call_back_url, get_cluster_id, get_max_size, get_min_size,
}
use auto_repair.Vm.{new_client, reboot_vm}
use auto_repair.Scaler.{scale_up, scale_down, check_worker_node_can_be_scale_down}

abbrev pub waiting_time_for_not_ready : ℕ
waiting_time_for_not_ready = 5 * minute

abbrev pub retry_duration : ℕ
retry_duration = 10 * second

-- time.Since(lastTransitionTime) >= waitingTimeForNotReady: the limit is positive, so a time in the
-- future, for which `-` gives 0 here, fails the test either way.
unfoldable pub conditions_loop : Env → List NodeCondition → Io Bool
conditions_loop env [] = pure false
conditions_loop env (c ∷ cs) =
    let rest = conditions_loop env cs in
    test is_node_ready c.type && not (is_true c.status)
    then (do
      now ← ask read_clock env.time_now
      test leb waiting_time_for_not_ready (now - c.last_transition_time) then pure true else rest)
    else rest

unfoldable pub is_node_not_ready_for_too_long : Env → Node → Io Bool
unfolding conditions_loop
is_node_not_ready_for_too_long env node = conditions_loop env node.conditions

-- One round of the next loop: the cached node is read though the lister's error is dropped.
unfoldable pub poll_node : Env → Option Node → Io Bool
poll_node env none = crash nil_pointer
poll_node env (some n) = pure (any says_ready n.conditions)

-- The rounds that are left of `checkNodeReadyStatusAfterRepairing`.
unfoldable pub ready_loop : Env → String → ℕ → Io Bool
unfolding poll_node
ready_loop env name zero = pure false
ready_loop env name (suc rounds) = do
  found ← ask (lister_get name) (λ t. env.cached_node t name)
  ready ← poll_node env found
  tell (sleep retry_duration)
  let again = ready_loop env name rounds
  test ready then pure true else again

unfoldable pub check_node_ready_status_after_repairing : Env → Node → Io Bool
unfolding ready_loop
check_node_ready_status_after_repairing env node = ready_loop env node.name 30

-- The nested loops over all nodes and conditions return at the first condition that says ready.
abbrev pub some_ready : List Node → Bool
some_ready = any (λ (n : Node). any says_ready n.conditions)

unfoldable pub all_ready_loop : Env → ℕ → Io Bool
all_ready_loop env zero = pure false
all_ready_loop env (suc rounds) = do
  nodes ← ask lister_list env.cached_nodes
  tell (sleep retry_duration)
  let again = all_ready_loop env rounds
  test some_ready nodes then pure true else again

unfoldable pub check_all_nodes_ready_status : Env → Io Bool
unfolding all_ready_loop
check_all_nodes_ready_status env = all_ready_loop env 10
