-- ===== src/Controller/Marks.antt =====
-- The controller's map of names that are being handled: when the name of a node leaves it.
use auto_repair.Common.{
  ℕ, zero, suc, String, true, Option, none, some, ◌∷◌, ◌≡◌, ◌≢◌, ◌⊎◌, inr, refl, arith,
}
use auto_repair.Kube.{Node}
use auto_repair.Env.{Env, Trace, Io, lister_list}
use auto_repair.Calls.{Ensures, Ensures-next}
use auto_repair.Replace.{replace_node, create_go_vcloud_client}
use auto_repair.Controller.{
  Controller, unmark, replace_rounds, reboot_rounds, after_connect, after_reboot,
  handle_not_ready_node,
}
use auto_repair.NodeChecks.{
  check_node_ready_status_after_repairing, check_all_nodes_ready_status, some_ready, all_ready_loop,
}
use auto_repair.Vm.{reboot_vm}

-- The name leaves the map, or there is an error and the map stays as it was.
abbrev pub Settled : Controller → Node → Option String × Controller → Trace → Type 0
Settled c node r u = ((r.0 ≡ none) × (r.1 ≡ unmark c node)) ⊎ ((r.0 ≢ none) × (r.1 ≡ c))

module _ (env : Env) (fuel : ℕ) (node : Node) (c : Controller) where
  replace_rounds-Settled :
      (rounds : ℕ) (t : Trace) → Ensures (replace_rounds env fuel node rounds c t) (Settled c node)
  unfolding replace_rounds
  replace_rounds-Settled zero t = inr (ground arith, refl)
  replace_rounds-Settled (suc rounds) t =
      Ensures-next (replace_node env fuel node) _ t (Settled c node) λ r u.
        Ensures-next (check_all_nodes_ready_status env) _ u (Settled c node)
          λ b v. ground (arith, replace_rounds-Settled rounds v)

  after_reboot-Settled :
      (again : Io (Option String × Controller)) (e : Option String) (t : Trace)
      → ((v : Trace) → Ensures (again v) (Settled c node))
      → Ensures (after_reboot env node c again e t) (Settled c node)
  unfolding after_reboot
  after_reboot-Settled again (some e) t h = inr (ground arith, refl)
  after_reboot-Settled again none t h =
      Ensures-next (check_node_ready_status_after_repairing env node) _ t (Settled c node)
        λ b v. ground (arith, h v)

  after_connect-Settled :
      (again : Io (Option String × Controller)) (e : Option String) (org vdc : String) (t : Trace)
      → ((v : Trace) → Ensures (again v) (Settled c node))
      → Ensures (after_connect env node c again e org vdc t) (Settled c node)
  unfolding after_connect
  after_connect-Settled again (some e) org vdc t h = inr (ground arith, refl)
  after_connect-Settled again none org vdc t h =
      Ensures-next (reboot_vm env org vdc node.name) _ t (Settled c node)
        λ e v. after_reboot-Settled again e v h

  reboot_rounds-Settled :
      (rounds : ℕ) (t : Trace) → Ensures (reboot_rounds env fuel node rounds c t) (Settled c node)
  unfolding reboot_rounds
  reboot_rounds-Settled zero t = replace_rounds-Settled 1 t
  reboot_rounds-Settled (suc rounds) t =
      Ensures-next (create_go_vcloud_client env) _ t (Settled c node) λ client u.
        after_connect-Settled _ client.0 client.1 client.2 u (reboot_rounds-Settled rounds)

  -- Whenever the handling of a node returns, either its error is nil and the node's name has left
  -- the map, or there is an error and the map is as it was.
  pub handle_not_ready_node-Settled :
      (t : Trace) → Ensures (handle_not_ready_node env fuel node c t) (Settled c node)
  unfolding handle_not_ready_node
  handle_not_ready_node-Settled t = reboot_rounds-Settled 3 t

-- If some node in the cache is always ready, then whatever `replaceNode` reports, an error of its
-- own included, whenever the loop that replaces returns it reports no error and the node's name has left
-- the map.
pub replace_rounds_forgives :
    (env : Env) (fuel : ℕ) (node : Node) (c : Controller) (t : Trace)
    → ((t : Trace) → some_ready (env.cached_nodes t) ≡ true)
    → Ensures (replace_rounds env fuel node 1 c t) (λ r u. (r.0 ≡ none) × (r.1 ≡ unmark c node))
unfolding replace_rounds check_all_nodes_ready_status all_ready_loop
replace_rounds_forgives env fuel node c t ready =
    Ensures-next (replace_node env fuel node) _ t _
      λ r u. ground (arith, ready (lister_list ∷ u), ready u)
