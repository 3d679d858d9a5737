-- ===== src/Controller/Reboots.antt =====
-- How often the handling of a node touches the power of machines, and of which.
use auto_repair.Common.{
  ℕ, zero, suc, ◌*◌, ◌+◌, ◌≤◌, String, true, false, Option, none, some, arith, str_eq,
  if◌then◌else◌, eq_iff, refl,
}
use auto_repair.Kube.{Node}
use auto_repair.Env.{Env, Io, Trace, pure, ask, tell, sleep, lister_list, lister_get}
use auto_repair.Calls.{Ensures, Ensures-weaken, Ensures-both}
use auto_repair.Calls.Costs.{
  Price, turn, spent, Costs, Costs-then, Costs-bind, Costs-next, Costs-ask, Costs-pure, Costs-test,
  Costs-more, Costs-sleep,
}
use auto_repair.Settings.{get_user_name, get_password, get_host, get_org, get_vdc, get_vcd_config}
use auto_repair.Vm.{new_client, reboot_vm, get_vm_from_name}
use auto_repair.NodeChecks.{
  ready_loop, poll_node, check_node_ready_status_after_repairing, all_ready_loop,
  check_all_nodes_ready_status, some_ready, retry_duration,
}
use auto_repair.Scaler.Costs.{Allows}
use auto_repair.Controller.Costs.{replace_node-Costs}
use auto_repair.Replace.{create_go_vcloud_client}
use auto_repair.Controller.{
  Controller, unmark, max_replace_node_retry, replace_rounds, after_reboot, after_connect,
  reboot_rounds, handle_not_ready_node,
}

module _ (p : Price) (env : Env) where
  create_go_vcloud_client-Costs : Costs p 0 (create_go_vcloud_client env)
  unfolding create_go_vcloud_client get_user_name get_password get_host get_org get_vdc
      get_vcd_config new_client
  create_go_vcloud_client-Costs = record { at_most = λ t. ground arith }

  get_vm_from_name-Costs :
      (org vdc vapp vm : String) → Costs p 0 (get_vm_from_name env org vdc vapp vm)
  unfolding get_vm_from_name
  get_vm_from_name-Costs org vdc vapp vm = record { at_most = λ t. ground arith }

  -- A reboot costs turning the machine off and on once.
  reboot_vm-Costs :
      (org vdc vm : String)
      → Costs p (p (turn false vm) + p (turn true vm)) (reboot_vm env org vdc vm)
  unfolding reboot_vm
  reboot_vm-Costs org vdc vm =
      Costs-bind p _ _ (get_vm_from_name-Costs org vdc _ vm)
        λ e. record { at_most = λ t. ground arith }

  ready_loop-Costs : (name : String) (rounds : ℕ) → Costs p 0 (ready_loop env name rounds)
  unfolding ready_loop poll_node
  ready_loop-Costs name zero = Costs-pure p _
  ready_loop-Costs name (suc rounds) =
      Costs-bind p (ask (lister_get name) (λ t. env.cached_node t name)) _
        (Costs-ask p (lister_get name) _ (omega arith))
        λ found.
          Costs-bind p (poll_node env found) _ (record { at_most = λ t. ground arith })
            λ ready.
              Costs-next p (tell (sleep retry_duration)) _ (Costs-sleep p retry_duration)
                (Costs-test p ready (pure true) _ (Costs-pure p _) (ready_loop-Costs name rounds))

  all_ready_loop-Costs : (rounds : ℕ) → Costs p 0 (all_ready_loop env rounds)
  unfolding all_ready_loop
  all_ready_loop-Costs zero = Costs-pure p _
  all_ready_loop-Costs (suc rounds) =
      Costs-bind p (ask lister_list env.cached_nodes) _ (Costs-ask p lister_list _ (omega arith))
        λ nodes. Costs-next p (tell (sleep retry_duration)) _ (Costs-sleep p retry_duration) (
          Costs-test p (some_ready nodes) (pure true) _ (Costs-pure p _)
            (all_ready_loop-Costs rounds))

  pub check_node_ready_status_after_repairing-Costs :
      (node : Node) → Costs p 0 (check_node_ready_status_after_repairing env node)
  unfolding check_node_ready_status_after_repairing
  check_node_ready_status_after_repairing-Costs node = ready_loop-Costs node.name 30

  check_all_nodes_ready_status-Costs : Costs p 0 (check_all_nodes_ready_status env)
  unfolding check_all_nodes_ready_status
  check_all_nodes_ready_status-Costs = all_ready_loop-Costs 10

  module _ (fuel : ℕ) (node : Node) (ok : Allows p node.name) (c : Controller) where
    replace_rounds-Costs : (rounds : ℕ) → Costs p 0 (replace_rounds env fuel node rounds c)
    unfolding replace_rounds
    replace_rounds-Costs zero = Costs-pure p _
    replace_rounds-Costs (suc rounds) = Costs-next p _ _ (replace_node-Costs p env fuel node ok) (
        Costs-bind p _ _ check_all_nodes_ready_status-Costs λ ready.
          Costs-test p ready (pure (none, unmark c node)) _ (Costs-pure p _)
            (replace_rounds-Costs rounds))

    module _ (k : ℕ) (again : Io (Option String × Controller)) (rest : Costs p k again) where
      after_reboot-Costs : (e : Option String) → Costs p k (after_reboot env node c again e)
      unfolding after_reboot
      after_reboot-Costs (some e) = Costs-pure p _
      after_reboot-Costs none =
          Costs-bind p _ _ (check_node_ready_status_after_repairing-Costs node)
            λ ready. Costs-test p ready (pure (none, unmark c node)) _ (Costs-pure p _) rest

      after_connect-Costs :
          (e : Option String) (org vdc : String)
          → Costs p
              (p (turn false node.name) + p (turn true node.name) + k)
              (after_connect env node c again e org vdc)
      unfolding after_connect
      after_connect-Costs (some e) org vdc = Costs-pure p _
      after_connect-Costs none org vdc =
          Costs-then p _ k _ _ (reboot_vm-Costs org vdc node.name) after_reboot-Costs

    reboot_rounds-Costs :
        (rounds : ℕ)
        → Costs p
            (rounds * (p (turn false node.name) + p (turn true node.name)))
            (reboot_rounds env fuel node rounds c)
    unfolding reboot_rounds
    reboot_rounds-Costs zero =
        Costs-more p 0 _ _ (omega arith) (replace_rounds-Costs max_replace_node_retry)
    reboot_rounds-Costs (suc rounds) = Costs-bind p _ _ create_go_vcloud_client-Costs λ client.
        Costs-more p _ _ _ (omega arith)
          (after_connect-Costs _ _ (reboot_rounds-Costs rounds) client.0 client.1 client.2)

    pub handle_not_ready_node-Costs :
        Costs p
          (3 * (p (turn false node.name) + p (turn true node.name)))
          (handle_not_ready_node env fuel node c)
    unfolding handle_not_ready_node
    handle_not_ready_node-Costs = reboot_rounds-Costs 3

-- The requests to turn on, and those for the power of any machine but the one of the name.
abbrev pub starts : Price
starts (turn true vm) = 1
starts act = 0

abbrev pub elsewhere : String → Price
elsewhere name (turn on vm) = if str_eq vm name then 0 else 1
elsewhere name act = 0

free-Allows : (name : String) → Allows starts name × Allows (elsewhere name) name
free-Allows name = (
  record { more = λ x n. refl; fewer = λ x. refl },
  record { more = λ x n. refl; fewer = λ x. refl },
)

-- Whenever the handling of a node returns, it has asked three times at most to turn a machine on,
-- replacing the node included, and has touched the power of no machine but the node's own.
pub handle_not_ready_node-reboots :
    (env : Env) (fuel : ℕ) (node : Node) (c : Controller) (t : Trace)
    → Ensures (handle_not_ready_node env fuel node c t) (λ r u.
      (spent starts u ≤ 3 + spent starts t)
      × (spent (elsewhere node.name) u ≤ spent (elsewhere node.name) t))
handle_not_ready_node-reboots env fuel node c t =
    let (few, own) = free-Allows node.name in
    Ensures-weaken (handle_not_ready_node env fuel node c t) _ _
      (Ensures-both (handle_not_ready_node env fuel node c t) _ _
        ((handle_not_ready_node-Costs starts env fuel node few c).at_most t)
        ((handle_not_ready_node-Costs (elsewhere node.name) env fuel node own c).at_most t))
      λ r u (h, g). ground (arith, eq_iff node.name node.name)
