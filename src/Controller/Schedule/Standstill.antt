-- ===== src/Controller/Schedule/Standstill.antt =====
-- The controller at work while no node is ready: what it has queued stays marked.
use auto_repair.Common.{
  ℕ, zero, suc, String, Option, false, none, some, List, [], ◌∷◌, ◌≡◌, ◌≢◌, ◌∙◌, inl, inr, refl,
  arith, str_eq, eq_iff, Bool-cases, Option-cases,
}
use auto_repair.Kube.{Node}
use auto_repair.Env.{Env, Trace, Io, queue_get, sleep, lister_list}
use auto_repair.Calls.{
  adds, adds_of, Ensures, Ensures-all, Ensures-bind, Ensures-both, Ensures-next,
}
use auto_repair.NodeChecks.{
  some_ready, all_ready_loop, check_all_nodes_ready_status, retry_duration,
  check_node_ready_status_after_repairing,
}
use auto_repair.Vm.{reboot_vm}
use auto_repair.Replace.{create_go_vcloud_client, replace_node}
use auto_repair.Controller.{
  Controller, contains, new_controller, after_connect, after_reboot, reboot_rounds, replace_rounds,
  enqueue_if_late, handle_update, handle_item, process_item, handle_not_ready_node,
}
use auto_repair.Controller.Queueing.{
  NeverReady, Queued, mark, ready_loop-adds, enqueue_if_late-Queued,
}
use auto_repair.Controller.Schedule.{Event, update, work, handle_event, run_events}
use auto_repair.Controller.Schedule.Refinement.{handle_not_ready_node-adds}

-- There is an error, and the map is as it was.
abbrev Unhandled : Controller → Option String × Controller → Trace → Type 0
Unhandled c r u = (r.0 ≢ none) × (r.1 ≡ c)

-- Each name is marked once it has been added to the queue, and has been added no second time.
abbrev Exact : Controller → Trace → Type 0
Exact c t = (name : String) → adds_of name (adds t) ≡ mark c name

all_ready_loop_stuck :
    (env : Env) (rounds : ℕ) (t : Trace)
    → ((t : Trace) → some_ready (env.cached_nodes t) ≡ false)
    → Ensures (all_ready_loop env rounds t) (λ b _. b ≡ false)
unfolding all_ready_loop
all_ready_loop_stuck env zero t stuck = refl
all_ready_loop_stuck env (suc rounds) t stuck =
    rw (stuck t) (all_ready_loop_stuck env rounds (sleep retry_duration ∷ lister_list ∷ t) stuck)

Exact-Queued :
    (node : Node) (c : Controller) (t : Trace) (c' : Controller) (u : Trace)
    → Exact c t
    → Queued c node t c' u
    → Exact c' u
unfolding contains
Exact-Queued node c t c' u exact (inl (quiet, same)) name = rw (quiet, same) (exact name)
Exact-Queued node c t c' u exact (inr (fresh, added, marked)) name =
    rw (added, marked)
      (elim (Bool-cases (str_eq node.name name)) [
        | inl e ↦
            let here : contains c.enqueue_map name ≡ false =
              rw ((eq_iff node.name name).0 e) at fresh in
            ground (arith, exact name, e, here)
        | inr e ↦ rw e (exact name)
      ])

module _ (env : Env) (fuel : ℕ) (stuck : (t : Trace) → some_ready (env.cached_nodes t) ≡ false)
    (never : (name : String) → NeverReady env name) where
  module _ (node : Node) (c : Controller) where
    replace_rounds_fail :
        (rounds : ℕ) (t : Trace) → Ensures (replace_rounds env fuel node rounds c t) (Unhandled c)
    unfolding replace_rounds check_all_nodes_ready_status
    replace_rounds_fail zero t = (ground arith, refl)
    replace_rounds_fail (suc rounds) t =
        Ensures-next (replace_node env fuel node) _ t (Unhandled c) λ r u.
          Ensures-bind (check_all_nodes_ready_status env) _ u _ (Unhandled c)
            (all_ready_loop_stuck env 10 u stuck)
            λ b v none_ready. rw none_ready (replace_rounds_fail rounds v)

    after_reboot_fails :
        (again : Io (Option String × Controller)) (e : Option String) (t : Trace)
        → ((v : Trace) → Ensures (again v) (Unhandled c))
        → Ensures (after_reboot env node c again e t) (Unhandled c)
    unfolding after_reboot check_node_ready_status_after_repairing
    after_reboot_fails again (some e) t h = (ground arith, refl)
    after_reboot_fails again none t h =
        Ensures-bind (check_node_ready_status_after_repairing env node) _ t _ (Unhandled c)
          (ready_loop-adds env node.name 30 t)
          λ b v (_, unready). rw (unready (never node.name)) (h v)

    after_connect_fails :
        (again : Io (Option String × Controller)) (e : Option String) (org vdc : String) (t : Trace)
        → ((v : Trace) → Ensures (again v) (Unhandled c))
        → Ensures (after_connect env node c again e org vdc t) (Unhandled c)
    unfolding after_connect
    after_connect_fails again (some e) org vdc t h = (ground arith, refl)
    after_connect_fails again none org vdc t h =
        Ensures-next (reboot_vm env org vdc node.name) _ t (Unhandled c)
          λ e v. after_reboot_fails again e v h

    reboot_rounds_fail :
        (rounds : ℕ) (t : Trace) → Ensures (reboot_rounds env fuel node rounds c t) (Unhandled c)
    unfolding reboot_rounds
    reboot_rounds_fail zero t = replace_rounds_fail 1 t
    reboot_rounds_fail (suc rounds) t =
        Ensures-next (create_go_vcloud_client env) _ t (Unhandled c)
          λ client u. after_connect_fails _ client.0 client.1 client.2 u (reboot_rounds_fail rounds)

    handle_not_ready_node_fails :
        (t : Trace) → Ensures (handle_not_ready_node env fuel node c t) (Unhandled c)
    unfolding handle_not_ready_node
    handle_not_ready_node_fails t = reboot_rounds_fail 3 t

  handle_update-Exact :
      (node : Node) (c : Controller) (t : Trace)
      → Exact c t
      → Ensures (handle_update env node c t) Exact
  unfolding handle_update check_node_ready_status_after_repairing
  handle_update-Exact node c t exact =
      Ensures-bind (enqueue_if_late env node c) _ t _ Exact (enqueue_if_late-Queued env node c t)
        λ c' u queued.
          Ensures-bind (check_node_ready_status_after_repairing env node) _ u _ Exact
            (ready_loop-adds env node.name 30 u)
            λ b v (same, unready).
              let now = Exact-Queued node c t c' u exact queued in
              rw (unready (never node.name)) λ name. rw same (now name)

  handle_item-Exact :
      (node : Node) (c : Controller) (t : Trace)
      → Exact c t
      → Ensures (handle_item env fuel (some node) c t) (λ r u. Exact r.1 u)
  unfolding handle_item
  handle_item-Exact node c t exact =
      Ensures-bind (handle_not_ready_node env fuel node c) _ t _ (λ r u. Exact r.1 u)
        (Ensures-both (handle_not_ready_node env fuel node c t) _ _
          (handle_not_ready_node_fails node c t)
          (Ensures-all (handle_not_ready_node env fuel node c t) _
            λ (name : String). handle_not_ready_node-adds env fuel name node c t))
        λ r u ((failed, kept), same). λ name. rw kept (same name ∙ exact name)

  process_item-Exact :
      (c : Controller) (t : Trace)
      → Exact c t
      → Ensures (process_item env fuel c t) (λ r u. Exact r.1 u)
  unfolding process_item handle_item
  process_item-Exact c t exact = elim (Option-cases (env.next_item t)) [
    | inl nothing ↦ rw nothing exact
    | inr (node, found) ↦ rw found (handle_item-Exact node c (queue_get ∷ t) exact)
  ]

  run_events-Exact :
      (es : List Event) (c : Controller) (t : Trace)
      → Exact c t
      → Ensures (run_events env fuel es c t) Exact
  unfolding run_events
  run_events-Exact [] c t exact = exact
  run_events-Exact (update node ∷ es) c t exact =
      Ensures-bind (handle_update env node c) _ t _ Exact (handle_update-Exact node c t exact)
        λ c' u now. run_events-Exact es c' u now
  run_events-Exact (work ∷ es) c t exact =
      Ensures-bind (handle_event env fuel work c) _ t Exact Exact
        (Ensures-bind (process_item env fuel c) _ t _ Exact (process_item-Exact c t exact)
          λ r u now. now)
        λ c' u now. run_events-Exact es c' u now

-- While the cache shows no node ready, whenever the controller, started afresh, has handled any
-- sequence of updates and items, whatever the queue hands out: it has added each name to the queue once
-- if the name is in the map, and else never.
pub run_events-mark :
    (env : Env) (fuel : ℕ) (es : List Event)
    → ((t : Trace) → some_ready (env.cached_nodes t) ≡ false)
    → ((name : String) → NeverReady env name)
    → Ensures
        (run_events env fuel es new_controller [])
        (λ c u. (name : String) → adds_of name (adds u) ≡ mark c name)
unfolding new_controller contains
run_events-mark env fuel es stuck never =
    run_events-Exact env fuel stuck never es new_controller [] λ name. refl
