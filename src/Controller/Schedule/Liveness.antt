-- ===== src/Controller/Schedule/Liveness.antt =====
-- That a late node which is reported to the controller is replaced.
use auto_repair.Common.{
  ℕ, ◌+◌, ◌≤◌, ◌<◌, String, true, false, some, List, [], ◌∷◌, ◌≡◌, ◌∙◌, refl, ap, arith, Any,
  length, eq_iff,
}
use auto_repair.Common.Int.{pos, ◌≤ℤ◌}
use auto_repair.Kube.{Node, NodeCondition}
use auto_repair.Env.{Env, Trace, read_clock, queue_get}
use auto_repair.Calls.{
  naps, IsCalm, adds, posts, Ends, Ends-bind, Ends-weaken, Ends-with, Ensures, Ensures-both,
}
use auto_repair.Calls.Costs.{Price, spent, dequeue}
use auto_repair.NodeChecks.{
  some_ready, conditions_loop, is_node_not_ready_for_too_long,
  check_node_ready_status_after_repairing,
}
use auto_repair.NodeChecks.Polling.{
  IsLate, StaysUnready, is_node_not_ready_for_too_long_lem,
  check_node_ready_status_after_repairing_gives_up,
}
use auto_repair.Controller.{
  Controller, contains, enqueue_if_late, handle_update, handle_item, process_item,
  handle_not_ready_node,
}
use auto_repair.Controller.Queueing.{contains-delete, ready_loop-adds}
use auto_repair.Controller.Outcome.{min_size_in, max_size_in}
use auto_repair.Controller.Reboots.{check_node_ready_status_after_repairing-Costs}
use auto_repair.Controller.Recovery.{IsReachable, ready_loop-posts}
use auto_repair.Controller.Completing.{IsReplaceable, Requested, Requested-from}
use auto_repair.Controller.Fallback.{handle_not_ready_node_replaces}
use auto_repair.Controller.Schedule.{update, work, handle_event, run_events}

-- How often the queue was asked for an item.
abbrev gets : Price
gets dequeue = 1
gets act = 0

conditions_loop-quiet :
    (env : Env) (cs : List NodeCondition) (t : Trace)
    → Ensures
        (conditions_loop env cs t)
        (λ _ u. IsCalm t u × (spent gets u ≡ spent gets t) × (adds u ≡ adds t))
unfolding conditions_loop
conditions_loop-quiet env [] t = ((refl, refl), refl, refl)
conditions_loop-quiet env (c ∷ cs) t =
    ground (arith, conditions_loop-quiet env cs t, conditions_loop-quiet env cs (read_clock ∷ t))

late_test-quiet :
    (env : Env) (node : Node) (t : Trace)
    → Ensures
        (is_node_not_ready_for_too_long env node t)
        (λ _ u. IsCalm t u × (spent gets u ≡ spent gets t) × (adds u ≡ adds t))
unfolding is_node_not_ready_for_too_long
late_test-quiet env node t = conditions_loop-quiet env node.conditions t

-- Once the node has been added to the queue, and nothing has been taken since, the queue hands it
-- out next.
abbrev pub IsNext : Env → Node → Trace → Type 0
IsNext env node t =
    (u : Trace) → adds u ≡ node ∷ adds t → spent gets u ≡ spent gets t → env.next_item u ≡ some node

module _ (env : Env) (node : Node) (c : Controller) (lo hi : ℕ)
    (clock : (t : Trace) → (lo ≤ env.time_now t) × (env.time_now t ≤ hi))
    (late : Any (IsLate lo) node.conditions) (unmarked : contains c.enqueue_map node.name ≡ false)
    (lost : StaysUnready env node.name) where
  -- The node has been queued and marked, and nothing else has been asked for.
  abbrev IsQueued : Trace → Controller → Trace → Type 0
  IsQueued t c' u =
      (c' ≡ record c { enqueue_map = node.name ∷ c.enqueue_map })
      × (adds u ≡ node ∷ adds t)
      × (posts u ≡ posts t)
      × (spent gets u ≡ spent gets t)

  enqueue_ends :
      (t : Trace)
      → Ends (enqueue_if_late env node c t) (λ c' u. IsQueued t c' u × (naps u ≡ naps t))
  unfolding enqueue_if_late
  enqueue_ends t =
      Ends-bind (is_node_not_ready_for_too_long env node) _ t _ _
        (Ends-with (is_node_not_ready_for_too_long env node t) _ _
          (is_node_not_ready_for_too_long_lem env lo hi clock node t) (late_test-quiet env node t))
        λ b u (said, quiet).
          rw (said.0 late, unmarked)
            ((refl, ground arith, ground arith, ground arith), ground arith)

  check_ends :
      (t : Trace)
      → Ends (check_node_ready_status_after_repairing env node t) (λ b u.
        (b ≡ false)
        × (naps u ≡ naps t + 30)
        × (posts u ≡ posts t)
        × (adds u ≡ adds t)
        × (spent gets u ≡ spent gets t))
  unfolding check_node_ready_status_after_repairing
  check_ends t =
      Ends-weaken (check_node_ready_status_after_repairing env node t) _ _
        (Ends-with (check_node_ready_status_after_repairing env node t) _ _
          (check_node_ready_status_after_repairing_gives_up env node t lost)
          (Ensures-both (check_node_ready_status_after_repairing env node t) _ _
            (ready_loop-posts env node.name 30 t)
            (Ensures-both (check_node_ready_status_after_repairing env node t) _ _
              (ready_loop-adds env node.name 30 t)
              ((check_node_ready_status_after_repairing-Costs gets env node).at_most t))))
        λ b u ((said, rested, _), (asked, ((added, _), taken))).
          (said, rested, asked, added, omega (arith, taken))

  handle_update_ends :
      (t : Trace)
      → Ends (handle_update env node c t) (λ c' u. IsQueued t c' u × (naps u ≡ naps t + 30))
  unfolding handle_update
  handle_update_ends t =
      Ends-bind (enqueue_if_late env node c) _ t _ _ (enqueue_ends t)
        λ c' u ((marked, added, asked, taken), awake).
          Ends-bind (check_node_ready_status_after_repairing env node) _ u _ _ (check_ends u)
            λ b v (unready, rested, asked', added', taken'). rw unready (
              (marked, added' ∙ added, asked' ∙ asked, taken' ∙ taken),
              omega (arith, rested, awake),
            )

module _ (env : Env) (fuel k : ℕ) (node : Node) (s m : List (String × String)) (nodes : List Node)
    (able : IsReplaceable env node.name k s m nodes) (some_fuel : 0 < fuel)
    (high : min_size_in m ≤ℤ pos (length nodes)) (others : some_ready nodes ≡ true)
    (reachable : IsReachable env) (lost : StaysUnready env node.name) where
  -- The name has left the map, and the worker has been replaced.
  abbrev IsReplaced : Trace → Controller → Trace → Type 0
  IsReplaced t c' u =
      (contains c'.enqueue_map node.name ≡ false)
      × Requested node.name (pos (length nodes)) (max_size_in m) t u

  handle_item_ends :
      (c : Controller) (t : Trace)
      → k ≤ naps t + 90
      → Ends (handle_item env fuel (some node) c t) (λ r u. IsReplaced t r.1 u)
  unfolding handle_item
  handle_item_ends c t late =
      Ends-bind (handle_not_ready_node env fuel node c) _ t _ _
        (handle_not_ready_node_replaces env fuel k node c s m nodes t able late some_fuel high
          others reachable lost)
        λ r u (ok, gone, asked). (
          ap (λ (d : Controller). contains d.enqueue_map node.name) gone
              ∙ contains-delete c.enqueue_map node.name node.name
              ∙ rw ((eq_iff node.name node.name).1 refl) refl,
          asked,
        )

  process_item_ends :
      (c : Controller) (t : Trace)
      → env.next_item t ≡ some node
      → k ≤ naps t + 90
      → Ends (process_item env fuel c t) (λ r u. IsReplaced (queue_get ∷ t) r.1 u)
  unfolding process_item
  process_item_ends c t given late = rw given (handle_item_ends c (queue_get ∷ t) late)

  work_ends :
      (c : Controller) (t : Trace)
      → env.next_item t ≡ some node
      → k ≤ naps t + 90
      → Ends (handle_event env fuel work c t) (IsReplaced t)
  unfolding handle_event
  work_ends c t given late =
      Ends-bind (process_item env fuel c) _ t _ _ (process_item_ends c t given late)
        λ r u (gone, asked). (gone, asked)

-- If the node is late whenever the clock is read and not marked yet, the queue hands it out next once
-- it has been added, vCloud Director can be reached and does what it is asked, the node never is ready
-- again but can be replaced, the cluster is not below the minimum and some node of it is ready, and the
-- portal says that the cluster has succeeded once the program has paused 120 times more, as it does before
-- it replaces a node, then with some fuel an update that reports the node, and the next item of the queue,
-- are handled: in the end the node's name is not in the map, and the portal has been asked, exactly once
-- each, first for one more worker and then to remove the node if there is room below the maximum, and else
-- the other way round.
pub late_node_replaced :
    (env : Env) (fuel k lo hi : ℕ) (node : Node) (c : Controller) (s m : List (String × String))
    (nodes : List Node) (t : Trace)
    → ((t : Trace) → (lo ≤ env.time_now t) × (env.time_now t ≤ hi))
    → Any (IsLate lo) node.conditions
    → contains c.enqueue_map node.name ≡ false
    → IsNext env node t
    → IsReachable env
    → StaysUnready env node.name
    → IsReplaceable env node.name k s m nodes
    → k ≤ naps t + 120
    → 0 < fuel
    → min_size_in m ≤ℤ pos (length nodes)
    → some_ready nodes ≡ true
    → Ends (run_events env fuel (update node ∷ work ∷ []) c t) (λ c' u.
      (contains c'.enqueue_map node.name ≡ false)
      × Requested node.name (pos (length nodes)) (max_size_in m) t u)
unfolding run_events
late_node_replaced env fuel k lo hi node c s m nodes t clock late unmarked next reachable lost able
      soon some_fuel high others =
    Ends-bind (handle_event env fuel (update node) c) _ t _ _ (update_ends t)
      λ c' u ((marked, added, asked, taken), rested).
        Ends-bind (handle_event env fuel work c') _ u _ _
          (work_ends env fuel k node s m nodes able some_fuel high others reachable lost c' u
            (next u added taken) (omega (arith, soon, rested)))
          λ c'' v (gone, replaced). (
            gone,
            Requested-from node.name (pos (length nodes)) (max_size_in m) (max_size_in m) t u v refl
                asked replaced,
          )
  where
    update_ends :
        (t : Trace)
        → Ends (handle_event env fuel (update node) c t) (λ c' u.
          IsQueued env node c lo hi clock late unmarked lost t c' u × (naps u ≡ naps t + 30))
    update_ends t = handle_update_ends env node c lo hi clock late unmarked lost t
