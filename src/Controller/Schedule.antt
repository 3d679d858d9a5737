-- ===== src/Controller/Schedule.antt =====
-- The controller at work: a sequence of updates, which the informer hands to `handleUpdate`, and of
-- calls of `processItem`. `worker` calls it until it fails, and `wait.Until` starts the worker
-- again a second later, so all in all it is called again and again.
pub mod Lateness
pub mod Safety
pub mod Refinement
pub mod Standstill
pub mod Liveness
use auto_repair.Common.{ℕ, String, List, [], ◌∷◌, ◌≡◌, some, Any}
use auto_repair.Kube.{Node}
use auto_repair.Env.{Env, Io, Trace, pure, ◌>>=◌}
use auto_repair.Calls.{adds}
use auto_repair.Controller.{Controller, handle_update, process_item}

pub data Event : Type 0 where
  update : Node → Event
  work : Event

unfoldable pub handle_event : Env → ℕ → Event → Controller → Io Controller
handle_event env fuel (update node) c = handle_update env node c
handle_event env fuel work c = do r ← process_item env fuel c; pure r.1

unfoldable pub run_events : Env → ℕ → List Event → Controller → Io Controller
unfolding handle_event
run_events env fuel [] c = pure c
run_events env fuel (e ∷ es) c = do c' ← handle_event env fuel e c; run_events env fuel es c'

-- The new states of nodes that the informer reports.
abbrev pub updates : List Event → List Node
updates [] = []
updates (update node ∷ es) = node ∷ updates es
updates (work ∷ es) = updates es

-- The work queue hands out only what has been added to it.
abbrev pub HandsOutAdded : Env → Type 0
HandsOutAdded env =
    (t : Trace) (node : Node) → env.next_item t ≡ some node → Any (λ n. n ≡ node) (adds t)
