-- ===== src/Controller/Outcome.antt =====
-- The outcome of `replaceNode`: by the sizes of the auto scaler, and by the pods of the node.
use mathlib.Core.Bool.{false≢true}
use mathlib.Core.Path.{subst, subst₂}
use auto_repair.Common.{
  ℕ, String, Option, none, some, List, [], ◌∷◌, ◌≡◌, ◌≢◌, ◌⊎◌, ◌∙◌, inl, inr, length, Bool, false,
  sym, All,
}
use auto_repair.Common.Int.{ℤ, pos, ◌≤ℤ◌, ◌<ℤ◌}
use auto_repair.Kube.{Node, Pod}
use auto_repair.Env.{Env, Trace, done}
use auto_repair.Calls.{posts, Ensures, Ensures-weaken}
use auto_repair.Portal.{Access, target_of, up_request, down_request}
use auto_repair.Settings.{atoi, index}
use auto_repair.Settings.Laws.{IsSize}
use auto_repair.Scaler.{check_worker_node_can_be_scale_down}
use auto_repair.Scaler.Removable.{MayGo, IsOrphan, check_worker_node_can_be_scale_down_refuses}
use auto_repair.Replace.{replace_node}
use auto_repair.Controller.Replacing.{
  UpToTwo, CreatesFirst, RemovesFirst, Choice, Decided, replace_node-Decided,
}

-- While `replaceNode` runs, the auto scaler's config map is `m` and the cache shows `nodes`.
pub record IsSteady (env : Env) (m : List (String × String)) (nodes : List Node) : Type 0 where
  pub same_config : (t : Trace) → env.config_map t "autoscaling-configmap" ≡ some m
  pub same_nodes : (t : Trace) → env.cached_nodes t ≡ nodes

abbrev pub min_size_in : List (String × String) → ℤ
min_size_in m = (atoi (index "min_node_group_size" m)).0

abbrev pub max_size_in : List (String × String) → ℤ
max_size_in m = (atoi (index "max_node_group_size" m)).0

-- The outcome of `replaceNode`, by the sizes and the number of nodes.
abbrev pub Replaced :
    String → List (String × String) → List Node → Trace → Option String → Trace → Type 0
Replaced worker m nodes t e u =
    let current = pos (length nodes) in
    ((e ≢ none) × (posts u ≡ posts t))
    ⊎ ((e ≡ none)
        × (min_size_in m ≤ℤ current)
        × (current <ℤ max_size_in m)
        × ((a : Access) × CreatesFirst a worker (posts t) (posts u)))
    ⊎ ((e ≡ none)
        × (max_size_in m ≤ℤ current)
        × ((a : Access) × RemovesFirst a worker (posts t) (posts u)))

size_of_steady :
    (key : String) (m : List (String × String)) (o : Option (List (String × String))) (n : ℤ)
    → o ≡ some m
    → IsSize key o n
    → n ≡ (atoi (index key m)).0
size_of_steady key m none n e h = absurd h
size_of_steady key m (some m') n e h = cc

Replaced-of-Decided :
    (worker : String) (m : List (String × String)) (nodes : List Node) (t v : Trace) (a : Access)
    (removable : Bool) (current : List Node) (min max : ℤ) (e : Option String) (u : Trace)
    → posts v ≡ posts t
    → current ≡ nodes
    → min ≡ min_size_in m
    → max ≡ max_size_in m
    → Choice a worker v removable (pos (length current)) min max e u
    → Replaced worker m nodes t e u
Replaced-of-Decided worker m nodes t v a removable current min max e u quiet p q r (inl h) =
    inl (h.0, h.1 ∙ quiet)
Replaced-of-Decided worker m nodes t v a removable current min max e u quiet p q r (inr (inl h)) =
    let (mid, first, second) = h.4 in
    inr (
      inl (
        h.0,
        subst₂ (λ (lo : ℤ) (ns : List Node). lo ≤ℤ pos (length ns)) q p h.2,
        subst₂ (λ (hi : ℤ) (ns : List Node). pos (length ns) <ℤ hi) r p h.3,
        (a, (mid, subst (λ old. UpToTwo (up_request (target_of a) 1) old mid) quiet first, second)),
      ))
Replaced-of-Decided worker m nodes t v a removable current min max e u quiet p q r (inr (inr h)) =
    let (mid, first, second) = h.3 in
    inr (
      inr (
        h.0,
        subst₂ (λ (hi : ℤ) (ns : List Node). hi ≤ℤ pos (length ns)) r p h.2,
        (
          a,
          (
            mid,
            subst (λ old. UpToTwo (down_request (target_of a) (worker ∷ [])) old mid) quiet first,
            second,
          ),
        ),
      ))

-- While the sizes and the cache stay as they are, whenever `replaceNode` returns: an error means
-- that it has requested nothing. Without an error it has posted, with two of each at most, either
-- requests for one more worker and then requests to remove this node, and the number of nodes was
-- at least the minimum and below the maximum, or first those to remove it and then those for one
-- more, and the number of nodes was at least the maximum.
pub replace_node-Replaced :
    (env : Env) (fuel : ℕ) (node : Node) (m : List (String × String)) (nodes : List Node)
    → IsSteady env m nodes
    → (t : Trace) → Ensures (replace_node env fuel node t) (Replaced node.name m nodes t)
replace_node-Replaced env fuel node m nodes steady t =
    Ensures-weaken (replace_node env fuel node t) _ (Replaced node.name m nodes t)
      (replace_node-Decided env fuel node (λ n. n ≡ max_size_in m) (λ n. n ≡ min_size_in m)
        (λ current. current ≡ nodes) (λ _. Unit {0})
        (λ t n. size_of_steady _ m _ n (steady.same_config t))
        (λ t n. size_of_steady _ m _ n (steady.same_config t)) steady.same_nodes (λ _ _ _ _. tt) t)
      conclude
  where
    conclude :
        (e : Option String) (u : Trace)
        → Decided
            (λ n. n ≡ max_size_in m)
            (λ n. n ≡ min_size_in m)
            (λ current. current ≡ nodes)
            (λ _. Unit {0})
            node.name
            t
            e
            u
        → Replaced node.name m nodes t e u
    conclude e u (inl h) = inl h
    conclude e u (inr (a, v, removable, current, min, max, quiet, p, q, r, _, h)) =
        Replaced-of-Decided node.name m nodes t v a removable current min max e u quiet r q p h

-- If the pods can be listed, each pod of the node has an owner, the pods and replica sets do not
-- change meanwhile, and some pod of the node may not go, then whenever `replaceNode` returns, it
-- returns an error and has requested nothing.
pub replace_node_guard :
    (env : Env) (fuel : ℕ) (node : Node) (t : Trace) (replicas : String → String → ℕ)
    (ps : List Pod)
    → ((t : Trace) → env.pods t ≡ some ps)
    → ((t : Trace) (namespace name : String)
        → env.replicas t namespace name ≡ replicas namespace name)
    → All (λ p. ¬ IsOrphan node.name p) ps
    → ¬ All (MayGo replicas node.name) ps
    → Ensures (replace_node env fuel node t) (λ e u. (e ≢ none) × (posts u ≡ posts t))
replace_node_guard env fuel node t replicas ps listed steady owned stuck =
    Ensures-weaken (replace_node env fuel node t) _ (λ e u. (e ≢ none) × (posts u ≡ posts t))
      (replace_node-Decided env fuel node (λ _. Unit {0}) (λ _. Unit {0}) (λ _. Unit {0})
        (λ b. b ≡ false) (λ _ _ _. tt) (λ _ _ _. tt) (λ _. tt) refused t)
      conclude
  where
    refused :
        (t : Trace) (b : Bool) (u : Trace)
        → check_worker_node_can_be_scale_down env node.name t ≡ done b u
        → b ≡ false
    refused t b u h = rw h at (
        check_worker_node_can_be_scale_down_refuses env replicas steady node.name ps t (listed t)
          owned stuck)

    conclude :
        (e : Option String) (u : Trace)
        → Decided (λ _. Unit {0}) (λ _. Unit {0}) (λ _. Unit {0}) (λ b. b ≡ false) node.name t e u
        → (e ≢ none) × (posts u ≡ posts t)
    conclude e u (inl h) = h
    conclude e u (inr (a, v, removable, current, min, max, quiet, p, q, r, no_way, inl h)) =
        (h.0, h.1 ∙ quiet)
    conclude e u (inr (a, v, removable, current, min, max, quiet, p, q, r, no_way, inr (inl h))) =
        absurd (false≢true (sym no_way ∙ h.1))
    conclude e u (inr (a, v, removable, current, min, max, quiet, p, q, r, no_way, inr (inr h))) =
        absurd (false≢true (sym no_way ∙ h.1))
