-- ===== src/Controller/Queueing.antt =====
-- When the controller puts a node into its work queue: at most once while the node's name is in the
-- map, whatever updates arrive.
use auto_repair.Common.{
  ℕ, zero, suc, ◌+◌, ◌≤◌, String, Bool, false, ◌&&◌, not, some, List, [], ◌∷◌, ◌≡◌, ◌⊎◌, inl, inr,
  refl, sym, ap, arith, eq_iff, str_eq, if◌then◌else◌, Bool-cases, Option-cases, any,
}
use mathlib.Core.Path.{subst}
use auto_repair.Kube.{Node, NodeCondition, says_ready}
use auto_repair.Env.{Env, Trace, Io, pure, sleep, read_clock, lister_get, ◌>>=◌}
use auto_repair.Calls.{adds, adds_of, Ensures, Ensures-bind, Ensures-weaken}
use auto_repair.Controller.{Controller, contains, delete, unmark, enqueue_if_late, handle_update}
use auto_repair.NodeChecks.{
  conditions_loop, is_node_not_ready_for_too_long, poll_node, ready_loop,
  check_node_ready_status_after_repairing, retry_duration,
}

pub contains-delete :
    (ks : List String) (n k : String)
    → contains (delete ks n) k ≡ (if str_eq n k then false else contains ks k)
unfolding contains delete
contains-delete [] n k = ground arith
contains-delete (j ∷ ks) n k =
    ground (arith, eq_iff n k, eq_iff j n, eq_iff j k, contains-delete ks n k)

conditions_loop-adds :
    (env : Env) (cs : List NodeCondition) (t : Trace)
    → Ensures (conditions_loop env cs t) (λ _ u. adds u ≡ adds t)
unfolding conditions_loop
conditions_loop-adds env [] t = refl
conditions_loop-adds env (c ∷ cs) t =
    ground (arith, conditions_loop-adds env cs t, conditions_loop-adds env cs (read_clock ∷ t))

-- The cache never shows the node ready.
abbrev pub NeverReady : Env → String → Type 0
NeverReady env name =
    (t : Trace) (n : Node) → env.cached_node t name ≡ some n → any says_ready n.conditions ≡ false

pub ready_loop-adds :
    (env : Env) (name : String) (rounds : ℕ) (t : Trace)
    → Ensures
        (ready_loop env name rounds t)
        (λ b u. (adds u ≡ adds t) × (NeverReady env name → b ≡ false))
unfolding ready_loop poll_node
ready_loop-adds env name zero t = ground arith
ready_loop-adds env name (suc rounds) t = elim (Option-cases (env.cached_node t name)) [
  | inl missing ↦ ground arith
  | inr (n, found) ↦ ground (
    arith,
    ready_loop-adds env name rounds (sleep retry_duration ∷ lister_get name ∷ t),
    λ (never : NeverReady env name). never t n found,
  )
]

-- The node's name is not in the map and the node is queued, or nothing is queued.
abbrev pub Queued : Controller → Node → Trace → Controller → Trace → Type 0
Queued c node t c' u =
    ((adds u ≡ adds t) × (c' ≡ c))
    ⊎ ((contains c.enqueue_map node.name ≡ false)
        × (adds u ≡ node ∷ adds t)
        × (c' ≡ record c { enqueue_map = node.name ∷ c.enqueue_map }))

pub enqueue_if_late-Queued :
    (env : Env) (node : Node) (c : Controller) (t : Trace)
    → Ensures (enqueue_if_late env node c t) (Queued c node t)
unfolding enqueue_if_late is_node_not_ready_for_too_long
enqueue_if_late-Queued env node c t =
    Ensures-bind (conditions_loop env node.conditions) _ t _ (Queued c node t)
      (conditions_loop-adds env node.conditions t)
      (λ late u quiet. elim (Bool-cases (late && not (contains c.enqueue_map node.name))) [
        | inl e ↦ rw e (inr (ground arith, ground arith, refl))
        | inr e ↦ rw e (inl (quiet, refl))
      ])

abbrev pub mark : Controller → String → ℕ
mark c name = if contains c.enqueue_map name then 1 else 0

-- One update spends at most what it marks.
abbrev Balanced : String → Controller → Trace → Controller → Trace → Type 0
Balanced name c t c' u = adds_of name (adds u) + mark c name ≤ adds_of name (adds t) + mark c' name

-- The second half of `handleUpdate`, after a check that said `b`.
abbrev pub rest_of_update : Node → Bool → Controller → Controller
rest_of_update node b c = if b && contains c.enqueue_map node.name then unmark c node else c

mark-rest_of_update :
    (name : String) (node : Node) (b : Bool) (c : Controller)
    → (node.name ≡ name → b ≡ false)
    → mark (rest_of_update node b c) name ≡ mark c name
mark-rest_of_update name node b c h =
    ground (arith, eq_iff node.name name, contains-delete c.enqueue_map node.name name)

Balanced-of-Queued :
    (name : String) (node : Node) (c : Controller) (t : Trace) (c' : Controller) (u : Trace)
    → Queued c node t c' u
    → Balanced name c t c' u
unfolding contains
Balanced-of-Queued name node c t c' u (inl (quiet, same)) = rw (quiet, same) (omega arith)
Balanced-of-Queued name node c t c' u (inr (fresh, added, marked)) =
    rw (added, marked)
      (elim (Bool-cases (str_eq node.name name)) [
        | inl e ↦
            let here : contains c.enqueue_map name ≡ false =
              rw ((eq_iff node.name name).0 e) at fresh in
            rw (e, here) (omega arith)
        | inr e ↦ rw e (omega arith)
      ])

handle_update-Balanced :
    (env : Env) (name : String) (node : Node) (c : Controller) (t : Trace)
    → NeverReady env name
    → Ensures (handle_update env node c t) (Balanced name c t)
unfolding handle_update check_node_ready_status_after_repairing
handle_update-Balanced env name node c t never =
    Ensures-bind (enqueue_if_late env node c) _ t _ (Balanced name c t)
      (enqueue_if_late-Queued env node c t)
      (λ c' u queued.
        Ensures-bind (ready_loop env node.name 30) _ u _ (Balanced name c t)
          (ready_loop-adds env node.name 30 u)
          (λ b v facts. omega (
            arith,
            Balanced-of-Queued name node c t c' u queued,
            ap (adds_of name) facts.0,
            mark-rest_of_update name node b c'
                (λ e. facts.1 (subst (NeverReady env) (sym e) never)),
          )))

-- The informer's updates, in the order in which it delivers them.
unfoldable pub handle_updates : Env → List Node → Controller → Io Controller
handle_updates env [] c = pure c
handle_updates env (node ∷ nodes) c = do c' ← handle_update env node c; handle_updates env nodes c'

handle_updates-Balanced :
    (env : Env) (name : String) (nodes : List Node) (c : Controller) (t : Trace)
    → NeverReady env name
    → Ensures (handle_updates env nodes c t) (Balanced name c t)
unfolding handle_updates
handle_updates-Balanced env name [] c t never = omega arith
handle_updates-Balanced env name (node ∷ nodes) c t never =
    Ensures-bind (handle_update env node c) _ t _ (Balanced name c t)
      (handle_update-Balanced env name node c t never)
      (λ c' u first.
        Ensures-weaken (handle_updates env nodes c' u) (Balanced name c' u) (Balanced name c t)
          (handle_updates-Balanced env name nodes c' u never)
          (λ c'' v second. omega (arith, first, second)))

-- While the cache never shows the node of a name ready, whenever the handling of a sequence of
-- updates returns, it has queued nodes of this name once at most, and never if the name was in the
-- map.
pub handle_updates_queue_once :
    (env : Env) (name : String) (nodes : List Node) (c : Controller) (t : Trace)
    → NeverReady env name
    → Ensures (handle_updates env nodes c t) (λ c' u.
      adds_of name (adds u)
      ≤ adds_of name (adds t) + (if contains c.enqueue_map name then 0 else 1))
handle_updates_queue_once env name nodes c t never =
    Ensures-weaken (handle_updates env nodes c t) (Balanced name c t) _
      (handle_updates-Balanced env name nodes c t never) (λ c' u h. ground arith)

-- Whenever the handling of an update returns, it has queued nothing, or the updated node alone and
-- its name was not in the map.
handle_update-adds :
    (env : Env) (node : Node) (c : Controller) (t : Trace)
    → Ensures (handle_update env node c t) (λ c' u.
      (adds u ≡ adds t) ⊎ ((contains c.enqueue_map node.name ≡ false) × (adds u ≡ node ∷ adds t)))
unfolding handle_update check_node_ready_status_after_repairing
handle_update-adds env node c t =
    Ensures-bind (enqueue_if_late env node c) _ t _ _ (enqueue_if_late-Queued env node c t)
      (λ c' u queued.
        Ensures-bind (ready_loop env node.name 30) _ u _ _ (ready_loop-adds env node.name 30 u)
          (λ b v facts. ground arith))
