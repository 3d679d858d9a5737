-- ===== src/Controller/Simulation.antt =====
-- The functions of the controller, run one after the other, are steps of the interleaving.
use auto_repair.Common.{
  ℕ, String, Bool, true, ◌&&◌, Option, List, [], ◌∷◌, ◌++◌, ◌∙◌, map, ◌≡◌, refl, inl, inr, arith,
  Bool-cases,
}
use mathlib.Core.List.{map-append}
use auto_repair.Kube.{Node}
use auto_repair.Env.{Env, Trace}
use auto_repair.Calls.{adds, Ensures, Ensures-bind, Ensures-weaken}
use auto_repair.NodeChecks.{ready_loop, check_node_ready_status_after_repairing}
use auto_repair.Controller.{
  Controller, contains, enqueue_if_late, handle_update, handle_not_ready_node,
}
use auto_repair.Controller.Marks.{Settled, handle_not_ready_node-Settled}
use auto_repair.Controller.Queueing.{
  Queued, enqueue_if_late-Queued, ready_loop-adds, rest_of_update,
}
use auto_repair.Controller.Interleaving.{
  System, HandlerPc, WorkerPc, Steps, no_step, then_step, idle, polling, waiting, sees_late,
  goes_on, adds_item, marks_item, returns, sees_ready, clears_mark, takes_item, fails, repairs,
  forgets_mark,
}

abbrev pub names : List Node → List String
names = map (λ n. n.name)

abbrev pub system : Controller → List String → List String → HandlerPc → WorkerPc → System
system c added cleared handler worker = record {
  enqueue_map = c.enqueue_map;
  added = added;
  cleared = cleared;
  handler = handler;
  worker = worker;
}

module _ (cleared : List String) (worker : WorkerPc) where
  begins :
      (added : List String) (c : Controller) (node : Node) (t : Trace) (c' : Controller) (u : Trace)
      → Queued c node t c' u
      → (w : List Node) × (adds u ≡ w ++ adds t)
        × Steps
            (system c added cleared idle worker)
            (system c' (names w ++ added) cleared (polling node.name) worker)
  begins added c node t c' u (inl (quiet, same)) =
      ([], quiet, rw same (then_step no_step (goes_on node.name refl)))
  begins added c node t c' u (inr (absent, new, marked)) = (
    node ∷ [],
    new,
    rw marked (
        then_step
          (then_step (then_step no_step (sees_late node.name refl absent))
            (adds_item node.name refl))
          (marks_item node.name refl)),
  )

  finishes :
      (s : System) (node : Node) (c : Controller) (added : List String) (b : Bool)
      → Steps s (system c added cleared (polling node.name) worker)
      → (after : List String) × Steps s (system (rest_of_update node b c) added after idle worker)
  finishes s node c added b steps = elim (Bool-cases (b && contains c.enqueue_map node.name)) [
    | inl both ↦ rw both (
      node.name ∷ cleared,
      then_step (then_step steps (sees_ready node.name refl (ground arith)))
          (clears_mark node.name refl),
    )
    | inr not_both ↦ rw not_both (cleared, then_step steps (returns node.name refl))
  ]

  -- What the handling of an update adds to the queue, and the steps that it takes.
  pub handle_update-extends :
      (env : Env) (added : List String) (node : Node) (c : Controller) (t : Trace)
      → Ensures (handle_update env node c t) (λ c' u.
        (w : List Node) × (after : List String) × (adds u ≡ w ++ adds t)
        × Steps
            (system c added cleared idle worker)
            (system c' (names w ++ added) after idle worker))
  unfolding handle_update check_node_ready_status_after_repairing
  handle_update-extends env added node c t =
      Ensures-bind (enqueue_if_late env node c) _ t _ _ (enqueue_if_late-Queued env node c t)
        λ c' u queued.
          Ensures-bind (ready_loop env node.name 30) _ u _ _ (ready_loop-adds env node.name 30 u)
            λ b v (same, _).
              let (w, grown, steps) = begins added c node t c' u queued in
              let (after, end) = finishes _ node c' (names w ++ added) b steps in
              (w, after, same ∙ grown, end)

  -- Whenever the handling of an update returns, what it has done to the map and the queue is done by
  -- steps of the interleaving, from a handler between updates to one between updates.
  pub handle_update-Steps :
      (env : Env) (node : Node) (c : Controller) (t : Trace)
      → Ensures (handle_update env node c t) (λ c' u.
        (after : List String) × Steps
          (system c (names (adds t)) cleared idle worker)
          (system c' (names (adds u)) after idle worker))
  handle_update-Steps env node c t =
      Ensures-weaken (handle_update env node c t) _ _
        (handle_update-extends env (names (adds t)) node c t)
        λ c' u (w, after, grown, steps).
          (after, rw (grown, map-append (λ (n : Node). n.name) w (adds t)) steps)

module _ (added cleared : List String) (handler : HandlerPc) where
  -- Whenever the handling of a node from the queue returns, what it has done to the map is done by
  -- steps of the worker.
  pub handle_not_ready_node-Steps :
      (env : Env) (fuel : ℕ) (node : Node) (c : Controller) (t : Trace)
      → contains added node.name ≡ true
      → Ensures (handle_not_ready_node env fuel node c t) (λ r u.
        (after : List String) × Steps
          (system c added cleared handler waiting)
          (system r.1 added after handler waiting))
  handle_not_ready_node-Steps env fuel node c t queued =
      Ensures-weaken (handle_not_ready_node env fuel node c t) _ _
        (handle_not_ready_node-Settled env fuel node c t) λ r u settled. by_case r u settled
    where
      by_case :
          (r : Option String × Controller) (u : Trace)
          → Settled c node r u
          → (after : List String) × Steps
              (system c added cleared handler waiting)
              (system r.1 added after handler waiting)
      by_case r u (inl (_, gone)) = rw gone (
        node.name ∷ cleared,
        then_step
            (then_step (then_step no_step (takes_item node.name refl queued))
              (repairs node.name refl))
            (forgets_mark node.name refl),
      )
      by_case r u (inr (_, same)) = rw same (
        cleared,
        then_step (then_step no_step (takes_item node.name refl queued)) (fails node.name refl),
      )
