-- ===== src/Core/Confirmed.antt =====
-- What `RunOnce` posts: only for nodes that were not ready at both of its looks at the cache.
use mathlib.Core.Path.{subst}
use auto_repair.Common.{
  ℕ, ◌≤◌, String, Bool, true, List, [], ◌∷◌, ◌≡◌, ◌⊎◌, inl, inr, refl, arith, All, Any,
  contains_text, Bool-cases, length, ◌==◌, eq_iff,
}
use auto_repair.Kube.{Node}
use auto_repair.Env.{Env, Trace, ScaleBodyRequest, minute, lister_list, sleep}
use auto_repair.Calls.{Ensures, Ensures-weaken}
use auto_repair.Portal.{Target, Access, target_of, up_request, down_request}
use auto_repair.Core.{contains_node, common_nodes, repair_nodes, run_once, StaticAutorepair}
use auto_repair.Core.Requests.{Grows, Posts-bind, Posts-next, Posts-pure, Posts-sleep}
use auto_repair.Core.Rounds.{Named, IsWorkerOf, IsRepair, All-mono, repair_nodes-Posts}
use auto_repair.Readiness.{filter_nodes, is_not_node_ready_and_schedulable}

-- The cache shows a node of this name that is not ready.
abbrev pub WasUnready : Env → Trace → String → Type 0
WasUnready env t n =
    Any (λ (node : Node). (node.name ≡ n) × (is_not_node_ready_and_schedulable node ≡ true))
      (env.cached_nodes t)

-- A request for one worker or more, at most as many as the cache showed nodes at `t`, or one to
-- remove workers that were not ready at `t` and at `u`.
abbrev pub IsConfirmed : Env → Target → Trace → Trace → ScaleBodyRequest → Type 0
IsConfirmed env x t u b =
    ((i : ℕ) × (1 ≤ i) × (i ≤ length (env.cached_nodes t)) × (b ≡ up_request x i))
    ⊎ ((names : List String) × (b ≡ down_request x names)
        × All (λ n. (contains_text n "worker" ≡ true) × WasUnready env t n × WasUnready env u n)
            names)

contains_node-Named :
    (node : Node) (nodes : List Node) → contains_node node nodes ≡ true → Named nodes node.name
unfolding contains_node
contains_node-Named node [] h = ground arith
contains_node-Named node (n ∷ ns) h =
    ground (arith, eq_iff node.name n.name, contains_node-Named node ns)

common_nodes-Named :
    (xs ys : List Node) (n : String) → Named (common_nodes xs ys) n → Named xs n × Named ys n
unfolding common_nodes
common_nodes-Named [] ys n h = absurd h
common_nodes-Named (x ∷ xs) ys n h = ground (
  arith,
  common_nodes-Named xs ys n,
  λ (e : x.name ≡ n) (c : contains_node x ys ≡ true).
      subst (Named ys) e (contains_node-Named x ys c),
)

common_nodes_le : (xs ys : List Node) → length (common_nodes xs ys) ≤ length xs
unfolding common_nodes
common_nodes_le [] ys = omega arith
common_nodes_le (x ∷ xs) ys = ground (arith, common_nodes_le xs ys)

filter_nodes-Named :
    (xs : List Node) (p : Node → Bool) (n : String)
    → Named (filter_nodes xs p) n
    → Any (λ (node : Node). (node.name ≡ n) × (p node ≡ true)) xs
unfolding filter_nodes
filter_nodes-Named [] p n h = absurd h
filter_nodes-Named (x ∷ xs) p n h = ground (arith, filter_nodes-Named xs p n)

filter_nodes_le : (xs : List Node) (p : Node → Bool) → length (filter_nodes xs p) ≤ length xs
unfolding filter_nodes
filter_nodes_le [] p = omega arith
filter_nodes_le (x ∷ xs) p = ground (arith, filter_nodes_le xs p)

module _ (env : Env) (a : Access) (t u : Trace) where
  abbrev unready : Trace → List Node
  unready v = filter_nodes (env.cached_nodes v) is_not_node_ready_and_schedulable

  confirmed :
      (b : ScaleBodyRequest)
      → IsRepair (target_of a) (common_nodes (unready t) (unready u)) b
      → IsConfirmed env (target_of a) t u b
  confirmed b (inl (i, one, le, e)) = inl (
    i,
    one,
    omega (
      arith,
      le,
      common_nodes_le (unready t) (unready u),
      filter_nodes_le (env.cached_nodes t) is_not_node_ready_and_schedulable,
    ),
    e,
  )
  confirmed b (inr (names, e, workers)) = inr (
    names,
    e,
    All-mono (IsWorkerOf (common_nodes (unready t) (unready u))) _ names
        (λ n (is_worker, h).
          let (first, second) = common_nodes-Named (unready t) (unready u) n h in
          (
            is_worker,
            filter_nodes-Named (env.cached_nodes t) is_not_node_ready_and_schedulable n first,
            filter_nodes-Named (env.cached_nodes u) is_not_node_ready_and_schedulable n second,
          ))
        workers,
  )

-- Whenever `RunOnce` returns, each request that it has posted is for one worker or more, and at
-- most as many as the cache showed nodes at its start, or is to remove workers that the cache showed
-- not ready both at its start and after the pause.
pub run_once-IsConfirmed :
    (env : Env) (fuel repairtime : ℕ) (a : Access) (s : StaticAutorepair) (t : Trace)
    → Ensures
        (run_once env fuel repairtime a s t)
        (λ _ v. Grows (IsConfirmed env (target_of a) t (sleep repairtime ∷ lister_list ∷ t)) t v)
unfolding run_once
run_once-IsConfirmed env fuel repairtime a s t =
    let u = sleep repairtime ∷ lister_list ∷ t in
    let Q = IsConfirmed env (target_of a) t u in
    let to_be_repaired = common_nodes (unready env a t u t) (unready env a t u u) in
    let R = IsRepair (target_of a) to_be_repaired in
    elim (Bool-cases (length (unready env a t u t) == 0)) [
      | inl healthy ↦ rw healthy ([], refl, tt)
      | inr first ↦ rw first (elim (Bool-cases (length to_be_repaired == 0)) [
        | inl recovered ↦ rw recovered ([], refl, tt)
        | inr still ↦ rw still (
            Ensures-weaken _ (λ _ v. Grows R (lister_list ∷ u) v) (λ _ v. Grows Q t v)
              ((Posts-bind R (repair_nodes env fuel a to_be_repaired s) _
                  (repair_nodes-Posts env fuel a to_be_repaired s)
                  (λ s'. Posts-next R _ _ (Posts-sleep R minute) (Posts-pure R s'))).posts_only
                (lister_list ∷ u))
              (λ _ v (new, e, h). (new, e, All-mono R Q new (confirmed env a t u) h)))
      ])
    ]
