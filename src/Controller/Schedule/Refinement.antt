-- ===== src/Controller/Schedule/Refinement.antt =====
-- The controller at work is a run of the interleaving of handler and worker.
use auto_repair.Common.{
  ℕ, ◌<◌, String, true, List, [], ◌∷◌, ◌++◌, ◌≡◌, ◌∙◌, refl, sym, inl, inr, some, arith, Any,
  str_eq, eq_iff, if◌then◌else◌, Option-cases,
}
use auto_repair.Kube.{Node}
use auto_repair.Env.{Env, Trace, queue_get, queue_add}
use auto_repair.Calls.{
  adds, adds_of, Ensures, Ensures-all, Ensures-bind, Ensures-both, Ensures-weaken,
}
use auto_repair.Calls.Costs.{Price, spent, enqueue}
use auto_repair.Controller.{
  Controller, contains, new_controller, handle_update, handle_item, process_item,
  handle_not_ready_node,
}
use auto_repair.Controller.Reboots.{handle_not_ready_node-Costs}
use auto_repair.Controller.Interleaving.{
  System, Steps, no_step, then_step, start, idle, waiting, times,
}
use auto_repair.Controller.Simulation.{
  names, system, handle_update-extends, handle_not_ready_node-Steps,
}
use auto_repair.Controller.Schedule.{Event, update, work, handle_event, run_events, HandsOutAdded}

Steps-trans : {r s t : System} → Steps r s → Steps s t → Steps r t
Steps-trans first no_step = first
Steps-trans first (then_step second last) = then_step (Steps-trans first second) last

-- The price of adding a node of the name to the queue.
abbrev adding : String → Price
adding name (enqueue node) = if str_eq node.name name then 1 else 0
adding name act = 0

spent-adding : (name : String) (t : Trace) → spent (adding name) t ≡ adds_of name (adds t)
spent-adding name [] = refl
spent-adding name (queue_add node ∷ t) = ground (arith, spent-adding name t)
spent-adding name (c ∷ t) = omega (arith, spent-adding name t)

-- The list has each name as often as the trace has adds of it.
abbrev pub Matches : Trace → List String → Type 0
Matches t added = (name : String) → times name added ≡ adds_of name (adds t)

times-extends :
    (name : String) (w ns : List Node) (added : List String)
    → times name added ≡ adds_of name ns
    → times name (names w ++ added) ≡ adds_of name (w ++ ns)
times-extends name [] ns added h = h
times-extends name (n ∷ w) ns added h = ground (arith, times-extends name w ns added h)

adds_of-pos : (node : Node) (ns : List Node) → Any (λ n. n ≡ node) ns → 0 < adds_of node.name ns
adds_of-pos node [] h = absurd h
adds_of-pos node (n ∷ ns) (inl e) = rw (e, (eq_iff node.name node.name).1 refl) (omega arith)
adds_of-pos node (n ∷ ns) (inr h) = ground (arith, adds_of-pos node ns h)

contains-of-times : (name : String) (ks : List String) → 0 < times name ks → contains ks name ≡ true
unfolding contains
contains-of-times name [] h = absurd (omega arith)
contains-of-times name (k ∷ ks) h = ground (arith, contains-of-times name ks)

-- Some history of the queue and of the marks leads to the map, and has each name as often as it was
-- added to the queue.
abbrev pub Reached : Controller → Trace → Type 0
Reached c t =
    (added : List String) × (cleared : List String) × Steps start
      (system c added cleared idle waiting)
    × Matches t added

module _ (env : Env) (fuel : ℕ) where
  pub handle_not_ready_node-adds :
      (name : String) (node : Node) (c : Controller) (t : Trace)
      → Ensures
          (handle_not_ready_node env fuel node c t)
          (λ _ u. adds_of name (adds u) ≡ adds_of name (adds t))
  handle_not_ready_node-adds name node c t =
      Ensures-weaken (handle_not_ready_node env fuel node c t) _ _
        ((handle_not_ready_node-Costs (adding name) env fuel node
            (record { more = λ x n. refl; fewer = λ x. refl }) c).at_most
          t)
        λ r u h. omega (arith, h, spent-adding name t, spent-adding name u)

  handle_update-Reached :
      (node : Node) (c : Controller) (t : Trace)
      → Reached c t
      → Ensures (handle_update env node c t) Reached
  handle_update-Reached node c t (added, cleared, steps, matches) =
      Ensures-weaken (handle_update env node c t) _ Reached
        (handle_update-extends cleared waiting env added node c t)
        λ c' u (w, after, grown, more). (
          names w ++ added,
          after,
          Steps-trans steps more,
          λ name. rw grown (times-extends name w (adds t) added (matches name)),
        )

  handle_item-Reached :
      (node : Node) (c : Controller) (t : Trace)
      → Any (λ n. n ≡ node) (adds t)
      → Reached c t
      → Ensures (handle_item env fuel (some node) c (queue_get ∷ t)) (λ r u. Reached r.1 u)
  unfolding handle_item
  handle_item-Reached node c t given (added, cleared, steps, matches) =
      let queued : contains added node.name ≡ true =
        contains-of-times node.name added
          (rw (matches node.name) (adds_of-pos node (adds t) given)) in
      Ensures-bind (handle_not_ready_node env fuel node c) _ (queue_get ∷ t) _
        (λ r u. Reached r.1 u)
        (Ensures-both (handle_not_ready_node env fuel node c (queue_get ∷ t)) _ _
          (handle_not_ready_node-Steps added cleared idle env fuel node c (queue_get ∷ t) queued)
          (Ensures-all (handle_not_ready_node env fuel node c (queue_get ∷ t)) _
            λ (name : String). handle_not_ready_node-adds name node c (queue_get ∷ t)))
        λ r u ((after, more), same).
          (added, after, Steps-trans steps more, λ name. matches name ∙ sym (same name))

  process_item-Reached :
      (c : Controller) (t : Trace)
      → HandsOutAdded env
      → Reached c t
      → Ensures (process_item env fuel c t) (λ r u. Reached r.1 u)
  unfolding process_item handle_item
  process_item-Reached c t queue h = elim (Option-cases (env.next_item t)) [
    | inl nothing ↦ rw nothing h
    | inr (node, found) ↦ rw found (handle_item-Reached node c t (queue t node found) h)
  ]

  run_events-Reached :
      (es : List Event) (c : Controller) (t : Trace)
      → HandsOutAdded env
      → Reached c t
      → Ensures (run_events env fuel es c t) Reached
  unfolding run_events
  run_events-Reached [] c t queue h = h
  run_events-Reached (update node ∷ es) c t queue h =
      Ensures-bind (handle_update env node c) _ t _ Reached (handle_update-Reached node c t h)
        λ c' u now. run_events-Reached es c' u queue now
  run_events-Reached (work ∷ es) c t queue h =
      Ensures-bind (handle_event env fuel work c) _ t Reached Reached
        (Ensures-bind (process_item env fuel c) _ t _ Reached (process_item-Reached c t queue h)
          λ r u now. now)
        λ c' u now. run_events-Reached es c' u queue now

-- If the work queue hands out only what was added to it, then whenever the controller, started
-- afresh, has handled any sequence of updates and items, the steps of the interleaving lead from its
-- start to a state with the same map, both sides being between two items, whose history has each name
-- as often as the controller has added it to the queue.
pub run_events-Steps :
    (env : Env) (fuel : ℕ) (es : List Event)
    → HandsOutAdded env
    → Ensures (run_events env fuel es new_controller []) (λ c u.
      (added : List String) × (cleared : List String) × Steps start
        (system c added cleared idle waiting)
      × ((name : String) → times name added ≡ adds_of name (adds u)))
unfolding new_controller
run_events-Steps env fuel es queue =
    run_events-Reached env fuel es new_controller [] queue ([], [], no_step, λ name. refl)
