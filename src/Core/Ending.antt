-- ===== src/Core/Ending.antt =====
-- That the rounds of the repair come to an end.
use auto_repair.Common.{
  ℕ, zero, suc, ◌≤◌, ◌<◌, false, List, [], ◌∷◌, ◌≡◌, arith, take, drop, length, ◌==◌, Bool-cases,
  inl, inr, if◌then◌else◌, leb, ◌-◌,
}
use auto_repair.Common.Int.{ℤ, leb_ℤ, pos, negsuc, ◌-ℤ◌}
use auto_repair.Kube.{Node}
use auto_repair.Env.{Env, Trace, done, test◌then◌else◌, pure, lister_list}
use auto_repair.Portal.{Target}
use auto_repair.Settings.{get_max_size_node_group}
use auto_repair.Core.{worker_node_count, calc_expand_size, asg_repair_nodes, bound_or_crash}
use auto_repair.Core.Rounds.{worker_node_count_le}
use auto_repair.Readiness.{all_nodes}
use auto_repair.Core.Halting.{
  Halts, Halts-next, Halts-nodes, Stops, StopsAt, StopsAt-bind, StopsAt-if, StopsAt-of-Halts,
  bound_or_crash-Halts, calc_expand_size-Halts, delete_nodes-Halts, increase_size-Halts,
  max_size-Halts,
}

-- The cache and the maximal size are the same at two readings one right after the other.
abbrev pub ReadsTwice : Env → Type 0
ReadsTwice env =
    (t u : Trace) (max : ℤ)
    → get_max_size_node_group env (lister_list ∷ t) ≡ done max u
    → (env.cached_nodes u ≡ env.cached_nodes t)
      × ((v : Trace) × (get_max_size_node_group env (lister_list ∷ u) ≡ done max v))

drop_shorter :
    {A : Type 0} (k : ℕ) (xs : List A) → 1 ≤ k → 1 ≤ length xs → length (drop k xs) < length xs
drop_shorter zero xs h g = absurd (omega arith)
drop_shorter (suc k) [] h g = absurd (omega arith)
drop_shorter (suc zero) (x ∷ xs) h g = omega arith
drop_shorter (suc (suc k)) (x ∷ []) h g = omega arith
drop_shorter (suc (suc k)) (x ∷ y ∷ ys) h g =
    omega (arith, drop_shorter (suc k) (y ∷ ys) (omega arith) (omega arith))

-- Below the maximum, the number of workers to add is positive.
room_positive :
    (max : ℤ) (desired count : ℕ)
    → leb_ℤ max (pos desired) ≡ false
    → 1 ≤ count
    → (k : ℕ) × (1 ≤ k)
      × ((if leb_ℤ (pos count) (max -ℤ pos desired) then pos count else max -ℤ pos desired) ≡ pos k)
room_positive (pos m) desired count h g =
    let room : desired < m = ground arith in
    elim (Bool-cases (leb count (m - desired))) [
      | inl fits ↦ (count, g, ground arith)
      | inr short ↦ (m - desired, omega (arith, room), ground arith)
    ]
room_positive (negsuc m) desired count h g = ground arith

module _ (env : Env) (x : Target) (steady : ReadsTwice env) where
  calc_expand_size_positive :
      (nodes : List Node) (t u : Trace) (max : ℤ)
      → get_max_size_node_group env (lister_list ∷ t) ≡ done max u
      → leb_ℤ max (pos (worker_node_count (env.cached_nodes t)).0) ≡ false
      → 1 ≤ (worker_node_count nodes).0
      → (k : ℕ) × (1 ≤ k) × ((v : Trace) × (calc_expand_size env nodes u ≡ done (pos k) v))
  unfolding calc_expand_size
  calc_expand_size_positive nodes t u max e under some_left =
      let (same, (v, again)) = steady t u max e in
      let desired = (worker_node_count (env.cached_nodes t)).0 in
      let (k, one, is_k) = room_positive max desired (worker_node_count nodes).0 under some_left in
      (k, one, (v, ground (arith, same, again, is_k)))

  asg_repair_nodes-StopsAt :
      (fuel : ℕ) (nodes : List Node) (t : Trace)
      → length nodes < fuel
      → StopsAt (asg_repair_nodes env x fuel nodes) t
  unfolding asg_repair_nodes
  asg_repair_nodes-StopsAt zero nodes t h = absurd (omega arith)
  asg_repair_nodes-StopsAt (suc fuel) nodes t h =
      let count = (worker_node_count nodes).0 in
      StopsAt-bind (all_nodes env) _ t (Halts-nodes env) λ cached t1 listed.
        StopsAt-bind (get_max_size_node_group env) _ t1 (max_size-Halts env x) λ max u read.
          StopsAt-if (count == 0) (pure tt) _ u (λ _. record { stops = tt })
            λ some_left.
              let one : 1 ≤ count = ground arith in
              let nonempty : 1 ≤ length nodes = omega (arith, one, worker_node_count_le nodes) in
              let rest : (k : ℕ) → 1 ≤ k → Halts (asg_repair_nodes env x fuel (drop k nodes)) =
                λ k h1. record {
                  halts = λ v.
                      (asg_repair_nodes-StopsAt fuel (drop k nodes) v
                        (omega (arith, h, drop_shorter k nodes h1 nonempty))).stops;
                } in
              StopsAt-if (leb_ℤ max (pos (worker_node_count cached).0)) _ _ u
                (λ _. StopsAt-of-Halts _ u (
                  Halts-next _ _ (delete_nodes-Halts env x (take 1 nodes))
                    (Halts-next _ _ (increase_size-Halts env x 1) (rest 1 (omega arith)))))
                (λ under.
                  let at_t : done (env.cached_nodes t) (lister_list ∷ t) ≡ done cached t1 =
                    listed in
                  let same : cached ≡ env.cached_nodes t = ground arith in
                  let next : t1 ≡ lister_list ∷ t = ground arith in
                  let (k, positive, (v, run)) =
                    calc_expand_size_positive nodes t u max (rw next at read) (rw same at under)
                      one in
                  StopsAt-bind (calc_expand_size env nodes) _ u (calc_expand_size-Halts env x nodes)
                    λ size w sized.
                      StopsAt-bind (bound_or_crash size) _ w (bound_or_crash-Halts env x size)
                        λ inc w' bounded.
                          let is_k : size ≡ pos k = ground arith in
                          let some_more : 1 ≤ inc = ground arith in
                          StopsAt-of-Halts _ w' (
                            Halts-next _ _ (increase_size-Halts env x inc) (
                              Halts-next _ _ (delete_nodes-Halts env x (take inc nodes))
                                (rest inc some_more))))

  -- If two readings of the cache and of the maximal size, one right after the other, agree, then
  -- the rounds never use up fuel that is more than the number of nodes to repair.
  pub asg_repair_nodes-Stops :
      (fuel : ℕ) (nodes : List Node) (t : Trace)
      → length nodes < fuel
      → Stops (asg_repair_nodes env x fuel nodes t)
  asg_repair_nodes-Stops fuel nodes t h = (asg_repair_nodes-StopsAt fuel nodes t h).stops
