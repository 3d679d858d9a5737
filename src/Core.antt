-- ===== src/Core.antt =====
-- core/util.go and core/static_autorepair.go: the repair in rounds. Nodes that stay not ready are
-- replaced: as many as the auto scaler has room for, or one at a time where it has none.
pub mod Requests
pub mod Rounds
pub mod Confirmed
pub mod Halting
pub mod Ending
pub mod Scaling
pub mod Copies
use auto_repair.Common.{
  ℕ, zero, suc, ◌+◌, ◌*◌, String, Bool, true, false, List, [], ◌∷◌, if◌then◌else◌, ◌==◌, not,
  str_eq, contains_text, take, drop, length,
}
use auto_repair.Common.Int.{ℤ, pos, negsuc, ◌-ℤ◌, leb_ℤ}
use auto_repair.Kube.{Node}
use auto_repair.Env.{
  Env, Io, pure, crash, no_fuel, ask, tell, ◌>>=◌, ◌>>◌, test◌then◌else◌, sleep, read_clock,
  out_of_range, second, minute,
}
use auto_repair.Portal.{
  Target, Access, target_of, check_status_cluster, check_error_status_cluster, perform_scale_up,
  perform_scale_down,
}
use auto_repair.Settings.{get_max_size_node_group}
use auto_repair.Readiness.{all_nodes, not_ready_nodes}

unfoldable pub contains_node : Node → List Node → Bool
contains_node node [] = false
contains_node node (n ∷ ns) = if str_eq node.name n.name then true else contains_node node ns

unfoldable pub common_nodes : List Node → List Node → List Node
unfolding contains_node
common_nodes [] others = []
common_nodes (n ∷ ns) others =
    let rest = common_nodes ns others in if contains_node n others then n ∷ rest else rest

-- How many workers there are, and their names.
unfoldable pub worker_node_count : List Node → ℕ × List String
worker_node_count [] = (0, [])
worker_node_count (n ∷ ns) =
    let rest = worker_node_count ns in
    if contains_text n.name "worker" then (suc rest.0, n.name ∷ rest.1) else rest

unfoldable pub calc_expand_size : Env → List Node → Io ℤ
unfolding worker_node_count
calc_expand_size env to_be_repaired = do
  nodes ← all_nodes env
  max_size ← get_max_size_node_group env
  let desired = pos (worker_node_count to_be_repaired).0
  let allowable = max_size -ℤ pos (worker_node_count nodes).0
  pure (if leb_ℤ desired allowable then desired else allowable)

-- The loop over i in `IncreaseSize`: ask for fewer workers while the quota refuses.
unfoldable pub request_loop : Env → Target → ℕ → Io (Unit {0})
request_loop env x zero = pure tt
request_loop env x (suc i) = do
  reply ← perform_scale_up env x (suc i)
  let fewer = request_loop env x i
  test contains_text reply.0 "quota reached" then fewer else pure tt

-- The rounds that are left while `IncreaseSize` waits, and the number of workers seen last.
unfoldable pub increase_loop : Env → Target → ℕ → ℕ → ℕ → ℕ → Io (Unit {0})
unfolding request_loop worker_node_count
increase_loop env x inc prev zero curr = pure tt
increase_loop env x inc prev (suc rounds) curr = test curr == prev + inc then pure tt else do
  tell (sleep (10 * second))
  is_succeeded_status ← check_status_cluster env x
  test is_succeeded_status then pure tt else do
    is_error_status ← check_error_status_cluster env x
    (test is_error_status
        then (do request_loop env x inc; tell (sleep (3 * (60 * second))))
        else pure tt)
    tell (sleep (60 * second))
    nodes ← all_nodes env
    increase_loop env x inc prev rounds (worker_node_count nodes).0

unfoldable pub increase_size : Env → Target → ℕ → Io (Unit {0})
unfolding increase_loop
increase_size env x inc = do
  nodes ← all_nodes env
  let size = (worker_node_count nodes).0
  ok ← check_status_cluster env x
  test ok
      then (do
        request_loop env x inc
        increase_loop env x inc size 30 size
        tell (sleep (60 * second * 3)))
      -- the log line asks once more
      else (do check_status_cluster env x; pure tt)

-- The rounds that are left while `DeleteNodes` waits; it ends with the number of workers seen last.
unfoldable pub delete_loop : Env → ℕ → ℕ → ℕ → ℕ → Io ℕ
unfolding worker_node_count
delete_loop env dec prev zero curr = pure curr
delete_loop env dec prev (suc rounds) curr = test curr + dec == prev then pure curr else do
  nodes ← all_nodes env
  tell (sleep (4 * (30 * second)))
  delete_loop env dec prev rounds (worker_node_count nodes).0

unfoldable pub delete_nodes : Env → Target → List Node → Io (Unit {0})
unfolding delete_loop
delete_nodes env x node_list = do
  let (dec, names) = worker_node_count node_list
  nodes ← all_nodes env
  let size = (worker_node_count nodes).0
  ok ← check_status_cluster env x
  test ok
      then (do
        perform_scale_down env x names
        curr ← delete_loop env dec size 6 size
        is_error_status ← check_error_status_cluster env x
        (test is_error_status
            then (do
              perform_scale_down env x names
              delete_loop env dec size 6 curr
              tell (sleep (3 * (30 * second))))
            else pure tt)
        tell (sleep (30 * second))
        tell (sleep (30 * second * 6)))
      else (do check_status_cluster env x; pure tt)

-- A slice with a negative bound panics.
abbrev pub bound_or_crash : ℤ → Io ℕ
bound_or_crash (pos n) = pure n
bound_or_crash (negsuc n) = crash out_of_range

-- `AsgRepairNodes`, which calls itself for the nodes that are left.
unfoldable pub asg_repair_nodes : Env → Target → ℕ → List Node → Io (Unit {0})
unfolding calc_expand_size increase_size delete_nodes
asg_repair_nodes env x zero to_be_repaired = no_fuel
asg_repair_nodes env x (suc fuel) to_be_repaired = do
  nodes ← all_nodes env
  max_size ← get_max_size_node_group env
  test (worker_node_count to_be_repaired).0 == 0
      then pure tt
      else test leb_ℤ max_size (pos (worker_node_count nodes).0)
      then (do
        delete_nodes env x (take 1 to_be_repaired)
        increase_size env x 1
        asg_repair_nodes env x fuel (drop 1 to_be_repaired))
      else (do
        size ← calc_expand_size env to_be_repaired
        inc ← bound_or_crash size
        increase_size env x inc
        delete_nodes env x (take inc to_be_repaired)
        asg_repair_nodes env x fuel (drop inc to_be_repaired))

-- `StaticAutorepair`, without the context and the listers.
pub record StaticAutorepair : Type 0 where
  pub last_scale_up_time : ℕ
  pub last_scale_down_delete_time : ℕ
  pub last_scale_down_fail_time : ℕ

unfoldable pub repair_nodes : Env → ℕ → Access → List Node → StaticAutorepair → Io StaticAutorepair
unfolding asg_repair_nodes
repair_nodes env fuel a to_be_repaired s = do
  current_time ← ask read_clock env.time_now
  asg_repair_nodes env (target_of a) fuel to_be_repaired
  pure (record s { last_scale_down_fail_time = current_time })

-- `RunOnce`; its error is always nil.
unfoldable pub run_once : Env → ℕ → ℕ → Access → StaticAutorepair → Io StaticAutorepair
unfolding common_nodes repair_nodes
run_once env fuel repairtime a s = do
  not_ready ← not_ready_nodes env
  test length not_ready == 0 then pure s else do
    tell (sleep repairtime)
    still_not_ready ← not_ready_nodes env
    let to_be_repaired = common_nodes not_ready still_not_ready
    test length to_be_repaired == 0
        then pure s
        else do s' ← repair_nodes env fuel a to_be_repaired s; tell (sleep minute); pure s'
