-- ===== src/Controller.antt =====
-- Controller.go: the controller that watches nodes, reboots those that are not ready for too long,
-- and replaces them where a reboot does not help. An error is its text, nil is none.
pub mod Replacing
pub mod Outcome
pub mod Completing
pub mod Marks
pub mod Queueing
pub mod Interleaving
pub mod Simulation
pub mod Schedule
pub mod Costs
pub mod Reboots
pub mod Recovery
pub mod Fallback
use auto_repair.Common.{
  ℕ, zero, suc, ◌*◌, ◌-◌, String, ◌<>◌, Bool, true, false, ◌&&◌, Option, none, some, List, [], ◌∷◌,
  if◌then◌else◌, not, leb, str_eq, any, length,
}
use auto_repair.Common.Int.{ℤ, pos, leb_ℤ, ltb_ℤ}
use auto_repair.Kube.{Node, NodeCondition, is_node_ready, is_true, says_ready}
use auto_repair.Env.{
  Env, Io, pure, crash, no_fuel, ask, tell, ◌>>=◌, ◌>>◌, test◌then◌else◌, sleep, second, minute,
  nil_pointer, lister_get, lister_list, list_nodes, read_clock, queue_add, queue_get, queue_forget,
}
use auto_repair.Errors.{AutorepairError}
use auto_repair.NodeChecks.{
  is_node_not_ready_for_too_long, check_node_ready_status_after_repairing,
  check_all_nodes_ready_status,
}
use auto_repair.Portal.{Access, Target, target_of}
use auto_repair.Main.{get_id_cluster, get_cluster_id}
use auto_repair.Settings.{
  get_user_name, get_password, get_host, get_org, get_vdc, get_access_token, get_vpc_id,
  get_call_back_url, get_max_size, get_min_size,
}
use auto_repair.Vm.{new_client, reboot_vm}
use auto_repair.Scaler.{scale_up, scale_down, check_worker_node_can_be_scale_down}
use auto_repair.Replace.{create_go_vcloud_client, replace_node}

abbrev pub max_reboot_retry : ℕ
max_reboot_retry = 3

abbrev pub max_replace_node_retry : ℕ
max_replace_node_retry = 1

-- `controller`: its enqueueMap, by the names that are its keys. Its queue, client and lister are
-- the world's.
pub record Controller : Type 0 where
  pub enqueue_map : List String

unfoldable pub contains : List String → String → Bool
contains [] name = false
contains (k ∷ ks) name = if str_eq k name then true else contains ks name

-- delete(c.enqueueMap, name)
unfoldable pub delete : List String → String → List String
delete [] name = []
delete (k ∷ ks) name = let rest = delete ks name in if str_eq k name then rest else k ∷ rest

-- `newController`
unfoldable pub new_controller : Controller
new_controller = record { enqueue_map = [] }

abbrev pub unmark : Controller → Node → Controller
unmark c node = record c { enqueue_map = delete c.enqueue_map node.name }

-- The rounds that are left of the loop that replaces; what `replaceNode` returns is dropped.
unfoldable pub replace_rounds : Env → ℕ → Node → ℕ → Controller → Io (Option String × Controller)
unfolding delete
replace_rounds env fuel node zero c =
    pure (some "max retries reached, can not check if node is ready", c)
replace_rounds env fuel node (suc rounds) c = do
  replace_node env fuel node
  is_node_ready ← check_all_nodes_ready_status env
  let again = replace_rounds env fuel node rounds c
  test is_node_ready then pure (none, unmark c node) else again

-- What follows a reboot in a round of the loop below: an error, success, or the next round.
after_reboot :
    Env
    → Node
    → Controller
    → Io (Option String × Controller)
    → Option String
    → Io (Option String × Controller)
after_reboot env node c again (some m) = pure (some "failed to handle not ready node", c)
after_reboot env node c again none = do
  is_node_ready ← check_node_ready_status_after_repairing env node
  test is_node_ready then pure (none, unmark c node) else again

-- What follows the connection, for its error, organization and data center.
after_connect :
    Env
    → Node
    → Controller
    → Io (Option String × Controller)
    → Option String
    → String
    → String
    → Io (Option String × Controller)
unfolding after_reboot
after_connect env node c again (some e) org vdc = pure (some ("failed to connect to vcd: " <> e), c)
after_connect env node c again none org vdc = do
  e ← reboot_vm env org vdc node.name
  after_reboot env node c again e

-- The rounds that are left of the loop that reboots, and then the loop that replaces.
reboot_rounds : Env → ℕ → Node → ℕ → Controller → Io (Option String × Controller)
unfolding replace_rounds after_connect
reboot_rounds env fuel node zero c = replace_rounds env fuel node max_replace_node_retry c
reboot_rounds env fuel node (suc rounds) c = do
  client ← create_go_vcloud_client env
  let again = reboot_rounds env fuel node rounds c
  after_connect env node c again client.0 client.1 client.2

-- `handleNotReadyNode`
unfoldable pub handle_not_ready_node : Env → ℕ → Node → Controller → Io (Option String × Controller)
unfolding reboot_rounds
handle_not_ready_node env fuel node = reboot_rounds env fuel node max_reboot_retry

-- The first half of `handleUpdate`.
unfoldable pub enqueue_if_late : Env → Node → Controller → Io Controller
unfolding contains
enqueue_if_late env node c = do
  late ← is_node_not_ready_for_too_long env node
  test late && not (contains c.enqueue_map node.name)
      then (do tell (queue_add node); pure (record c { enqueue_map = node.name ∷ c.enqueue_map }))
      else pure c

-- `handleUpdate`, for the new state of a node.
unfoldable pub handle_update : Env → Node → Controller → Io Controller
unfolding enqueue_if_late delete
handle_update env node c = do
  c' ← enqueue_if_late env node c
  is_node_ready ← check_node_ready_status_after_repairing env node
  pure (if is_node_ready && contains c'.enqueue_map node.name then unmark c' node else c')

-- `processItem`: the node is forgotten by the queue when the function returns.
pub handle_item : Env → ℕ → Option Node → Controller → Io (Bool × Controller)
handle_item env fuel none c = pure (false, c)
handle_item env fuel (some node) c = do
  r ← handle_not_ready_node env fuel node c
  tell (queue_forget node)
  pure (elim r.0 [ none ↦ true | some e ↦ false ], r.1)

unfoldable pub process_item : Env → ℕ → Controller → Io (Bool × Controller)
unfolding handle_item
process_item env fuel c = do item ← ask queue_get env.next_item; handle_item env fuel item c

-- `worker`: one item after the other until one fails or the queue shuts down.
unfoldable pub worker : Env → ℕ → ℕ → Controller → Io Controller
worker env fuel zero c = no_fuel
worker env fuel (suc items) c = do
  r ← process_item env fuel c
  let again = worker env fuel items r.1
  test r.0 then again else pure r.1
