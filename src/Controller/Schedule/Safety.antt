-- ===== src/Controller/Schedule/Safety.antt =====
-- Which machines and workers the controller touches: only those of nodes that were reported late.
use auto_repair.Common.{
  ℕ, ◌≤◌, true, ◌&&◌, not, some, List, [], ◌∷◌, ◌≡◌, inl, inr, refl, arith, any, Any, All,
  Bool-cases, Option-cases,
}
use auto_repair.Kube.{Node, NodeCondition}
use auto_repair.Env.{Env, Trace, queue_get, read_clock}
use auto_repair.Calls.{Ensures, Ensures-bind, Ensures-weaken}
use auto_repair.Calls.Costs.{Price, Spent, spent}
use auto_repair.NodeChecks.{
  conditions_loop, is_node_not_ready_for_too_long, check_node_ready_status_after_repairing,
}
use auto_repair.Controller.{
  Controller, contains, new_controller, enqueue_if_late, handle_update, handle_item, process_item,
  handle_not_ready_node,
}
use auto_repair.Controller.Reboots.{
  handle_not_ready_node-Costs, check_node_ready_status_after_repairing-Costs,
}
use auto_repair.Controller.Schedule.{
  Event, update, work, handle_event, run_events, updates, HandsOutAdded,
}
use auto_repair.Controller.Schedule.Lateness.{
  is_late, late_named, LateIn, touched, strays, late_named-mem, added-late, touched-late, all-All,
  late-Allows,
}

conditions_loop-late :
    (hi : ℕ) (env : Env) (p : Price)
    → ((t : Trace) → env.time_now t ≤ hi)
    → (cs : List NodeCondition) (t : Trace)
    → Ensures
        (conditions_loop env cs t)
        (λ b u. Spent p 0 t u × (b ≡ true → any (is_late hi) cs ≡ true))
unfolding conditions_loop
conditions_loop-late hi env p clock [] t = ground arith
conditions_loop-late hi env p clock (c ∷ cs) t = ground (
  arith,
  clock t,
  conditions_loop-late hi env p clock cs t,
  conditions_loop-late hi env p clock cs (read_clock ∷ t),
)

module _ (env : Env) (fuel hi : ℕ) (nodes : List Node) (clock : (t : Trace) → env.time_now t ≤ hi)
    (queue : HandsOutAdded env) where
  -- Nothing has strayed.
  abbrev Tame : Trace → Type 0
  Tame t = spent (strays hi nodes) t ≡ 0

  enqueue_if_late-Tame :
      (node : Node) (c : Controller) (t : Trace)
      → Any (λ n. n ≡ node) nodes
      → Tame t
      → Ensures (enqueue_if_late env node c t) (λ _ u. Tame u)
  unfolding enqueue_if_late is_node_not_ready_for_too_long
  enqueue_if_late-Tame node c t m h =
      Ensures-bind (conditions_loop env node.conditions) _ t _ (λ _ u. Tame u)
        (conditions_loop-late hi env (strays hi nodes) clock node.conditions t)
        λ late u (quiet, seen). elim (Bool-cases (late && not (contains c.enqueue_map node.name))) [
          | inl e ↦
              let named : late_named hi nodes node.name ≡ true =
                late_named-mem hi nodes node m (seen (ground arith)) in
              rw e (ground arith)
          | inr e ↦ rw e (ground arith)
        ]

  handle_update-Tame :
      (node : Node) (c : Controller) (t : Trace)
      → Any (λ n. n ≡ node) nodes
      → Tame t
      → Ensures (handle_update env node c t) (λ _ u. Tame u)
  unfolding handle_update
  handle_update-Tame node c t m h =
      Ensures-bind (enqueue_if_late env node c) _ t _ (λ _ u. Tame u)
        (enqueue_if_late-Tame node c t m h)
        λ c' u tame.
          Ensures-bind (check_node_ready_status_after_repairing env node) _ u _ (λ _ u. Tame u)
            ((check_node_ready_status_after_repairing-Costs (strays hi nodes) env node).at_most u)
            λ b v quiet. omega (arith, quiet, tame)

  handle_item-Tame :
      (node : Node) (c : Controller) (t : Trace)
      → late_named hi nodes node.name ≡ true
      → Tame t
      → Ensures (handle_item env fuel (some node) c t) (λ _ u. Tame u)
  unfolding handle_item
  handle_item-Tame node c t late h =
      Ensures-bind (handle_not_ready_node env fuel node c) _ t _ (λ _ u. Tame u)
        ((handle_not_ready_node-Costs (strays hi nodes) env fuel node
            (late-Allows hi nodes node.name late) c).at_most
          t)
        λ r u quiet. ground arith

  process_item-Tame :
      (c : Controller) (t : Trace) → Tame t → Ensures (process_item env fuel c t) (λ _ u. Tame u)
  unfolding process_item handle_item
  process_item-Tame c t h = elim (Option-cases (env.next_item t)) [
    | inl nothing ↦ rw nothing (omega arith)
    | inr (node, found) ↦ rw found (
        handle_item-Tame node c (queue_get ∷ t) (added-late hi nodes t node h (queue t node found))
          (omega arith))
  ]

  run_events-Tame :
      (es : List Event) (c : Controller) (t : Trace)
      → All (λ n. Any (λ m. m ≡ n) nodes) (updates es)
      → Tame t
      → Ensures (run_events env fuel es c t) (λ _ u. Tame u)
  unfolding run_events
  run_events-Tame [] c t m h = h
  run_events-Tame (update node ∷ es) c t m h =
      Ensures-bind (handle_update env node c) _ t _ (λ _ u. Tame u)
        (handle_update-Tame node c t m.0 h) λ c' u tame. run_events-Tame es c' u m.1 tame
  run_events-Tame (work ∷ es) c t m h =
      Ensures-bind (handle_event env fuel work c) _ t _ (λ _ u. Tame u)
        (Ensures-bind (process_item env fuel c) _ t _ (λ _ u. Tame u) (process_item-Tame c t h)
          λ r u tame. tame)
        λ c' u tame. run_events-Tame es c' u m tame

All-grow :
    (n : Node) (xs ys : List Node)
    → All (λ k. Any (λ m. m ≡ k) xs) ys
    → All (λ k. Any (λ m. m ≡ k) (n ∷ xs)) ys
All-grow n xs [] h = tt
All-grow n xs (y ∷ ys) h = (inr h.0, All-grow n xs ys h.1)

All-self : (xs : List Node) → All (λ k. Any (λ m. m ≡ k) xs) xs
All-self [] = tt
All-self (x ∷ xs) = (inl refl, All-grow x xs xs (All-self xs))

-- If the work queue hands out only what was added to it, then whenever the controller, started afresh,
-- has handled any sequence of updates and items: each machine whose power it has touched, and each worker
-- that it has asked the portal to remove, has the name of a node of one of the updates that had been not
-- ready for five minutes by the latest time of the clock.
pub run_events-LateIn :
    (env : Env) (fuel hi : ℕ) (es : List Event)
    → ((t : Trace) → env.time_now t ≤ hi)
    → HandsOutAdded env
    → Ensures
        (run_events env fuel es new_controller [])
        (λ _ u. All (LateIn hi (updates es)) (touched u))
run_events-LateIn env fuel hi es clock queue =
    Ensures-weaken (run_events env fuel es new_controller []) _ _
      (run_events-Tame env fuel hi (updates es) clock queue es new_controller []
        (All-self (updates es)) refl)
      λ c u tame. all-All hi (updates es) (touched u) (touched-late hi (updates es) u tame)
