-- ===== src/Core/Rounds.antt =====
-- What a round of the repair posts, and that the rounds come to an end.
use auto_repair.Common.{
  ℕ, zero, suc, ◌≤◌, String, true, List, [], ◌∷◌, ◌≡◌, ◌⊎◌, inl, inr, refl, arith, ◌∙◌, All, Any,
  take, drop, contains_text, Bool-cases, length, ◌==◌, if◌then◌else◌,
}
use auto_repair.Common.Int.{ℤ, leb_ℤ, pos, negsuc, ◌≤ℤ◌, ◌-ℤ◌}
use auto_repair.Kube.{Node}
use auto_repair.Env.{Env, Trace, ScaleBodyRequest, pure, read_clock}
use auto_repair.Calls.{posts, Ensures, Ensures-bind, Ensures-weaken}
use auto_repair.Portal.{Target, Access, target_of, up_request, down_request}
use auto_repair.Settings.{get_max_size_node_group, size_loop, atoi, config_data}
use auto_repair.Core.{
  worker_node_count, calc_expand_size, asg_repair_nodes, bound_or_crash, repair_nodes,
  StaticAutorepair,
}
use auto_repair.Core.Requests.{
  Posts, Posts-bind, Posts-known, Posts-no_fuel, Posts-ask, Posts-next, Posts-if, Posts-test,
  Posts-pure, Posts-nodes, increase_size-Posts, delete_nodes-Posts,
}

abbrev pub Named : List Node → String → Type 0
Named nodes n = Any (λ (node : Node). node.name ≡ n) nodes

-- The name of a worker among the nodes.
abbrev pub IsWorkerOf : List Node → String → Type 0
IsWorkerOf nodes n = (contains_text n "worker" ≡ true) × Named nodes n

-- A request for at least one and at most as many workers as there are nodes, or one to remove
-- workers among the nodes.
abbrev pub IsRepair : Target → List Node → ScaleBodyRequest → Type 0
IsRepair x nodes b =
    ((i : ℕ) × (1 ≤ i) × (i ≤ length nodes) × (b ≡ up_request x i))
    ⊎ ((names : List String) × (b ≡ down_request x names) × All (IsWorkerOf nodes) names)

-- The nodes of the first list are among those of the second, which is at least as long.
abbrev IsPart : List Node → List Node → Type 0
IsPart nodes all = ((n : String) → Named nodes n → Named all n) × (length nodes ≤ length all)

pub All-mono :
    {A : Type 0} (P Q : A → Type 0) (xs : List A) → ((a : A) → P a → Q a) → All P xs → All Q xs
All-mono P Q [] h g = tt
All-mono P Q (x ∷ xs) h (g, gs) = (h x g, All-mono P Q xs h gs)

worker_node_count-IsWorkerOf :
    (nodes : List Node) → All (IsWorkerOf nodes) (worker_node_count nodes).1
unfolding worker_node_count
worker_node_count-IsWorkerOf [] = tt
worker_node_count-IsWorkerOf (n ∷ ns) =
    let rest =
      All-mono (IsWorkerOf ns) (IsWorkerOf (n ∷ ns)) (worker_node_count ns).1
        (λ k (is_worker, named). (is_worker, inr named)) (worker_node_count-IsWorkerOf ns) in
    elim (Bool-cases (contains_text n.name "worker")) [
      | inl found ↦ rw found ((found, inl refl), rest)
      | inr other ↦ rw other rest
    ]

pub worker_node_count_le : (nodes : List Node) → (worker_node_count nodes).0 ≤ length nodes
unfolding worker_node_count
worker_node_count_le [] = omega arith
worker_node_count_le (n ∷ ns) = ground (arith, worker_node_count_le ns)

Named-take : (k : ℕ) (nodes : List Node) (n : String) → Named (take k nodes) n → Named nodes n
Named-take zero nodes n h = absurd h
Named-take (suc k) [] n h = absurd h
Named-take (suc k) (m ∷ ms) n (inl h) = inl h
Named-take (suc k) (m ∷ ms) n (inr h) = inr (Named-take k ms n h)

drop-IsPart : (k : ℕ) (nodes : List Node) → IsPart (drop k nodes) nodes
drop-IsPart zero nodes = ((λ n h. h), omega arith)
drop-IsPart (suc k) [] = ((λ n h. h), omega arith)
drop-IsPart (suc k) (m ∷ ms) =
    let (named, shorter) = drop-IsPart k ms in ((λ n h. inr (named n h)), omega (arith, shorter))

IsPart-trans : (xs ys zs : List Node) → IsPart xs ys → IsPart ys zs → IsPart xs zs
IsPart-trans xs ys zs (f, a) (g, b) = ((λ n h. g n (f n h)), omega (arith, a, b))

size_loop-posts :
    (key : String) (m : List (String × String)) (n : ℤ) (t : Trace)
    → Ensures (size_loop key m n t) (λ _ u. posts u ≡ posts t)
unfolding size_loop
size_loop-posts key [] n t = refl
size_loop-posts key ((k, v) ∷ m) n t =
    ground (arith, size_loop-posts key m (atoi v).0 t, size_loop-posts key m n t)

get_max_size_node_group-posts :
    (env : Env) (t : Trace) → Ensures (get_max_size_node_group env t) (λ _ u. posts u ≡ posts t)
unfolding get_max_size_node_group
get_max_size_node_group-posts env t =
    Ensures-bind (config_data env "autoscaling-configmap") _ t (λ _ u. posts u ≡ posts t) _
      (ground arith)
      (λ m u h.
        Ensures-weaken (size_loop "max_node_group_size" m (pos 0) u) (λ _ v. posts v ≡ posts u)
          (λ _ v. posts v ≡ posts t) (size_loop-posts "max_node_group_size" m (pos 0) u)
          (λ _ v g. g ∙ h))

min_le : (a b : ℤ) → (if leb_ℤ a b then a else b) ≤ℤ a
min_le a b = ground arith

calc_expand_size_le :
    (env : Env) (nodes : List Node) (t : Trace)
    → Ensures
        (calc_expand_size env nodes t)
        (λ z u. (z ≤ℤ pos (worker_node_count nodes).0) × (posts u ≡ posts t))
unfolding calc_expand_size
calc_expand_size_le env nodes t =
    Ensures-bind (get_max_size_node_group env) _ _ _ _ (get_max_size_node_group-posts env _)
      (λ max u h. (
        min_le (pos (worker_node_count nodes).0)
            (max -ℤ pos (worker_node_count (env.cached_nodes t)).0),
        h,
      ))

-- A bound that does not exceed the number of workers, and what it leaves of a list.
bound_or_crash_le :
    (env : Env) (z : ℤ) (k : ℕ) (t : Trace)
    → z ≤ℤ pos k
    → Ensures (bound_or_crash z t) (λ n u. (n ≤ k) × (posts u ≡ posts t))
bound_or_crash_le env (pos n) k t h = (omega (arith, h), refl)
bound_or_crash_le env (negsuc n) k t h = tt

module _ (env : Env) (x : Target) (all : List Node) where
  ups :
      (nodes : List Node) (n : ℕ)
      → length nodes ≤ length all
      → n ≤ length nodes
      → (j : ℕ) → 1 ≤ j
      → j ≤ n
      → IsRepair x all (up_request x j)
  ups nodes n h g j one le = inl (j, one, omega (arith, h, g, le), refl)

  downs :
      (k : ℕ) (nodes : List Node)
      → IsPart nodes all
      → IsRepair x all (down_request x (worker_node_count (take k nodes)).1)
  downs k nodes (named, _) = inr (
    (worker_node_count (take k nodes)).1,
    refl,
    All-mono (IsWorkerOf (take k nodes)) (IsWorkerOf all) (worker_node_count (take k nodes)).1
        (λ n (is_worker, h). (is_worker, named n (Named-take k nodes n h)))
        (worker_node_count-IsWorkerOf (take k nodes)),
  )

  -- The rounds post nothing but such requests, for the nodes that they are given.
  asg_repair_nodes-Posts :
      (fuel : ℕ) (nodes : List Node)
      → IsPart nodes all
      → Posts (IsRepair x all) (asg_repair_nodes env x fuel nodes)
  unfolding asg_repair_nodes
  asg_repair_nodes-Posts zero nodes part = Posts-no_fuel (IsRepair x all)
  asg_repair_nodes-Posts (suc fuel) nodes part =
      let Q = IsRepair x all in
      let count = (worker_node_count nodes).0 in
      let smaller = worker_node_count_le nodes in
      Posts-bind Q _ _ (Posts-nodes Q env) λ cached.
        Posts-known Q _ _ (λ _. Unit {0})
          (λ t.
            Ensures-weaken (get_max_size_node_group env t) (λ _ u. posts u ≡ posts t)
              (λ _ u. Unit {0} × (posts u ≡ posts t)) (get_max_size_node_group-posts env t)
              (λ _ _ same. (tt, same)))
          λ max _.
            Posts-if Q (count == 0) (pure tt) _ (λ _. Posts-pure Q tt)
              λ some_left.
                Posts-test Q (leb_ℤ max (pos (worker_node_count cached).0)) _ _
                  (Posts-next Q _ _ (delete_nodes-Posts Q env x (take 1 nodes) (downs 1 nodes part))
                    (Posts-next Q _ _
                      (increase_size-Posts Q env x 1
                        (ups nodes 1 part.1 (ground (arith, smaller, some_left))))
                      (asg_repair_nodes-Posts fuel (drop 1 nodes)
                        (IsPart-trans (drop 1 nodes) nodes all (drop-IsPart 1 nodes) part))))
                  (Posts-known Q _ _ (λ z. z ≤ℤ pos count) (calc_expand_size_le env nodes)
                    λ size bound.
                      Posts-known Q _ _ (λ n. n ≤ count)
                        (λ t. bound_or_crash_le env size count t bound)
                        λ inc le.
                          Posts-next Q _ _
                            (increase_size-Posts Q env x inc
                              (ups nodes inc part.1 (omega (arith, smaller, le))))
                            (Posts-next Q _ _
                              (delete_nodes-Posts Q env x (take inc nodes) (downs inc nodes part))
                              (asg_repair_nodes-Posts fuel (drop inc nodes) (
                                IsPart-trans (drop inc nodes) nodes all (drop-IsPart inc nodes)
                                  part))))

pub repair_nodes-Posts :
    (env : Env) (fuel : ℕ) (a : Access) (nodes : List Node) (s : StaticAutorepair)
    → Posts (IsRepair (target_of a) nodes) (repair_nodes env fuel a nodes s)
unfolding repair_nodes
repair_nodes-Posts env fuel a nodes s =
    let Q = IsRepair (target_of a) nodes in
    Posts-bind Q _ _ (Posts-ask Q read_clock env.time_now (λ t. refl)) λ current_time.
      Posts-next Q _ _
        (asg_repair_nodes-Posts env (target_of a) nodes fuel nodes ((λ n h. h), omega arith))
        (Posts-pure Q (record s { last_scale_down_fail_time = current_time }))
