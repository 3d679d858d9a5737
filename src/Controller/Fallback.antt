-- ===== src/Controller/Fallback.antt =====
-- That the handling of a node which its reboots do not bring back falls back to a replacement.
use auto_repair.Common.{
  ℕ, zero, suc, ◌+◌, ◌*◌, ◌≤◌, ◌<◌, String, Option, none, true, false, List, ◌∷◌, ◌≡◌, ◌∙◌, refl,
  arith, length,
}
use auto_repair.Common.Int.{pos, ◌≤ℤ◌}
use auto_repair.Kube.{Node}
use auto_repair.Env.{Env, Trace, sleep, lister_list}
use auto_repair.Calls.{posts, naps, Ends, Ends-bind, Ends-weaken, Ends-with, Ensures}
use auto_repair.NodeChecks.{
  some_ready, all_ready_loop, check_all_nodes_ready_status, retry_duration,
  check_node_ready_status_after_repairing,
}
use auto_repair.NodeChecks.Polling.{
  StaysUnready, check_node_ready_status_after_repairing_gives_up, check_all_nodes_ready_status_lem,
}
use auto_repair.Vm.{reboot_vm}
use auto_repair.Replace.{create_go_vcloud_client, replace_node}
use auto_repair.Controller.{
  Controller, unmark, after_connect, after_reboot, reboot_rounds, replace_rounds,
  handle_not_ready_node,
}
use auto_repair.Controller.Outcome.{min_size_in, max_size_in}
use auto_repair.Controller.Recovery.{
  IsReachable, ready_loop-posts, create_go_vcloud_client-IsCalm, reboot_vm-IsCalm,
}
use auto_repair.Controller.Completing.{
  IsReplaceable, Requested, Requested-from, replace_node_returns,
}

all_ready_loop-posts :
    (env : Env) (rounds : ℕ) (t : Trace)
    → Ensures (all_ready_loop env rounds t) (λ _ u. posts u ≡ posts t)
unfolding all_ready_loop
all_ready_loop-posts env zero t = refl
all_ready_loop-posts env (suc rounds) t =
    ground (arith, all_ready_loop-posts env rounds (sleep retry_duration ∷ lister_list ∷ t))

module _ (env : Env) (fuel k : ℕ) (node : Node) (c : Controller) (s m : List (String × String))
    (nodes : List Node) (able : IsReplaceable env node.name k s m nodes) (some_fuel : 0 < fuel)
    (high : min_size_in m ≤ℤ pos (length nodes)) (others : some_ready nodes ≡ true) where
  -- The handling has ended with success, after the requests that replace the node.
  abbrev Handled : Trace → Option String × Controller → Trace → Type 0
  Handled t r u =
      (r.0 ≡ none)
      × (r.1 ≡ unmark c node)
      × Requested node.name (pos (length nodes)) (max_size_in m) t u

  check_all_ends :
      (t : Trace)
      → Ends (check_all_nodes_ready_status env t) (λ b u. (b ≡ true) × (posts u ≡ posts t))
  unfolding check_all_nodes_ready_status
  check_all_ends t =
      Ends-weaken (check_all_nodes_ready_status env t) _ _
        (Ends-with (check_all_nodes_ready_status env t) _ _
          (check_all_nodes_ready_status_lem env nodes t able.steady.same_nodes)
          (all_ready_loop-posts env 10 t))
        λ b u ((said, _), quiet). (said ∙ others, quiet)

  replace_rounds_ends :
      (t : Trace) → k ≤ naps t → Ends (replace_rounds env fuel node 1 c t) (Handled t)
  unfolding replace_rounds
  replace_rounds_ends t late =
      Ends-bind (replace_node env fuel node) _ t _ _
        (replace_node_returns env node.name k fuel s m nodes able some_fuel node t refl high late)
        λ e u (fine, asked).
          Ends-bind (check_all_nodes_ready_status env) _ u _ _ (check_all_ends u)
            λ b v (ready, quiet). rw (ready, quiet) (refl, refl, asked)

  module _ (reachable : IsReachable env) (lost : StaysUnready env node.name) where
    check_ends :
        (t : Trace)
        → Ends
            (check_node_ready_status_after_repairing env node t)
            (λ b u. (naps u ≡ naps t + 30) × (posts u ≡ posts t) × (b ≡ false))
    unfolding check_node_ready_status_after_repairing
    check_ends t =
        Ends-weaken (check_node_ready_status_after_repairing env node t) _ _
          (Ends-with (check_node_ready_status_after_repairing env node t) _ _
            (check_node_ready_status_after_repairing_gives_up env node t lost)
            (ready_loop-posts env node.name 30 t))
          λ b u ((said, rested, _), quiet). (rested, quiet, said)

    reboot_rounds_ends :
        (rounds : ℕ) (t : Trace)
        → k ≤ naps t + rounds * 30
        → Ends (reboot_rounds env fuel node rounds c t) (Handled t)
    unfolding reboot_rounds after_connect after_reboot
    reboot_rounds_ends zero t late = replace_rounds_ends t (omega (arith, late))
    reboot_rounds_ends (suc rounds) t late =
        Ends-bind (create_go_vcloud_client env) _ t _ _
          (create_go_vcloud_client-IsCalm env reachable t)
          λ client u (connected, calm). rw connected (
            Ends-bind (reboot_vm env client.1 client.2 node.name) _ u _ _
              (reboot_vm-IsCalm env reachable client.1 client.2 node.name u)
              λ e v (rebooted, calm'). rw rebooted (
                Ends-bind (check_node_ready_status_after_repairing env node) _ v _ _ (check_ends v)
                  λ b w (rested, quiet, not_yet). rw not_yet (
                    Ends-weaken (reboot_rounds env fuel node rounds c w) (Handled w) (Handled t)
                      (reboot_rounds_ends rounds w (omega (arith, late, rested, calm.0, calm'.0)))
                      λ r x (ok, gone, asked). (
                        ok,
                        gone,
                        Requested-from node.name (pos (length nodes)) (max_size_in m)
                            (max_size_in m) t w x refl (quiet ∙ calm'.1 ∙ calm.1) asked,
                      ))))

-- If vCloud Director can be reached and does what it is asked, the node can be replaced, the cluster
-- is not below the minimum and some node of it is ready, but the node itself never is, and the portal says
-- that the cluster has succeeded by the end of the three reboots, then with some fuel the handling of the node
-- ends with success: its name leaves the map, and the portal has been asked, exactly once each, first for one more
-- worker and then to remove the node if there is room below the maximum, and else the other way round.
pub handle_not_ready_node_replaces :
    (env : Env) (fuel k : ℕ) (node : Node) (c : Controller) (s m : List (String × String))
    (nodes : List Node) (t : Trace)
    → IsReplaceable env node.name k s m nodes
    → k ≤ naps t + 90
    → 0 < fuel
    → min_size_in m ≤ℤ pos (length nodes)
    → some_ready nodes ≡ true
    → IsReachable env
    → StaysUnready env node.name
    → Ends (handle_not_ready_node env fuel node c t) (λ r u.
      (r.0 ≡ none)
      × (r.1 ≡ unmark c node)
      × Requested node.name (pos (length nodes)) (max_size_in m) t u)
unfolding handle_not_ready_node
handle_not_ready_node_replaces env fuel k node c s m nodes t able late some_fuel high others
      reachable lost =
    reboot_rounds_ends env fuel k node c s m nodes able some_fuel high others reachable lost 3 t
      late
