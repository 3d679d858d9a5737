-- ===== src/Controller/Replacing.antt =====
-- What `replaceNode` asks of the portal: which requests, in which order, and when none at all.
use auto_repair.Common.{
  ℕ, String, Option, none, List, [], ◌∷◌, ◌≡◌, ◌⊎◌, inl, inr, arith, length, Bool, true, false,
  Option-cases, Bool-cases, ◌≢◌, refl, ◌∙◌, ◌&&◌,
}
use auto_repair.Common.Int.{ℤ, pos, leb_ℤ, ltb_ℤ, ◌≤ℤ◌, ◌<ℤ◌}
use auto_repair.Kube.{Node}
use auto_repair.Env.{Env, Trace, done, ScaleBodyRequest}
use auto_repair.Calls.{posts, Ensures, Ensures-bind, Ensures-intro, Ensures-weaken}
use auto_repair.Portal.{Access, target_of, up_request, down_request}
use auto_repair.Portal.Laws.{get_id_cluster-posts}
use auto_repair.Settings.Laws.{
  IsSize, get_access_token-posts, get_vpc_id-posts, get_cluster_id-posts, get_call_back_url-posts,
  get_max_size-posts, get_min_size-posts,
}
use auto_repair.Scaler.Laws.{
  scale_up-posts, scale_down-posts, check_worker_node_can_be_scale_down-posts,
}
use auto_repair.Settings.{
  get_access_token, get_vpc_id, get_call_back_url, get_cluster_id, get_max_size, get_min_size,
}
use auto_repair.Portal.{get_id_cluster}
use auto_repair.Scaler.{scale_up, scale_down, check_worker_node_can_be_scale_down}
use auto_repair.Replace.{create_then_remove, remove_then_create, replace_node, choose}

-- The later list is the earlier one after none, one or two requests of the given form.
abbrev pub UpToTwo : ScaleBodyRequest → List ScaleBodyRequest → List ScaleBodyRequest → Type 0
UpToTwo b old new = (new ≡ old) ⊎ (new ≡ b ∷ old) ⊎ (new ≡ b ∷ b ∷ old)

-- From the earlier requests to the later ones: first those for one more worker, then those to
-- remove this one, with two of each at most.
abbrev pub CreatesFirst : Access → String → List ScaleBodyRequest → List ScaleBodyRequest → Type 0
CreatesFirst a worker old new =
    (mid : List ScaleBodyRequest) × UpToTwo (up_request (target_of a) 1) old mid
    × UpToTwo (down_request (target_of a) (worker ∷ [])) mid new

-- The same, the other way round.
abbrev pub RemovesFirst : Access → String → List ScaleBodyRequest → List ScaleBodyRequest → Type 0
RemovesFirst a worker old new =
    (mid : List ScaleBodyRequest) × UpToTwo (down_request (target_of a) (worker ∷ [])) old mid
    × UpToTwo (up_request (target_of a) 1) mid new

-- What the if statements of `replaceNode` do, for the sizes that they are given.
abbrev pub Choice : Access → String → Trace → Bool → ℤ → ℤ → ℤ → Option String → Trace → Type 0
Choice a worker t removable current min max e u =
    ((e ≢ none) × (posts u ≡ posts t) × ((removable ≡ false) ⊎ (current <ℤ min) × (current <ℤ max)))
    ⊎ ((e ≡ none)
        × (removable ≡ true)
        × (min ≤ℤ current)
        × (current <ℤ max)
        × CreatesFirst a worker (posts t) (posts u))
    ⊎ ((e ≡ none)
        × (removable ≡ true)
        × (max ≤ℤ current)
        × RemovesFirst a worker (posts t) (posts u))

module _ (env : Env) (fuel : ℕ) (a : Access) (worker : String) (t : Trace) where
  -- Whenever this branch returns it reports no error, and all its requests for one more worker come
  -- before its requests to remove the node, with two of each at most.
  pub create_then_remove-posts :
      Ensures
        (create_then_remove env fuel a worker t)
        (λ e u. (e ≡ none) × CreatesFirst a worker (posts t) (posts u))
  unfolding create_then_remove
  create_then_remove-posts =
      Ensures-bind (scale_up env fuel a 1) _ t _ _ (scale_up-posts env fuel a t 1) (λ r u facts.
        rw facts.0 (
          Ensures-bind (scale_down env fuel a worker) _ _ _ _ (scale_down-posts env fuel a _ worker)
            (λ r' v facts'. (ground arith, (posts u, ground arith, ground arith)))))

  pub remove_then_create-posts :
      Ensures
        (remove_then_create env fuel a worker t)
        (λ e u. (e ≡ none) × RemovesFirst a worker (posts t) (posts u))
  unfolding remove_then_create
  remove_then_create-posts =
      Ensures-bind (scale_down env fuel a worker) _ t _ _ (scale_down-posts env fuel a t worker)
        (λ r u facts. rw facts.0 (
          Ensures-bind (scale_up env fuel a 1) _ _ _ _ (scale_up-posts env fuel a _ 1)
            (λ r' v facts'. (ground arith, (posts u, ground arith, ground arith)))))

  choose-Choice :
      (removable : Bool) (current min max : ℤ)
      → Ensures
          (choose env fuel a worker removable current min max t)
          (Choice a worker t removable current min max)
  unfolding choose
  choose-Choice false current min max = inl (ground arith, refl, inl refl)
  choose-Choice true current min max = elim (Bool-cases (leb_ℤ min current && ltb_ℤ current max)) [
    | inl room ↦ rw room (
        Ensures-weaken (create_then_remove env fuel a worker t)
          (λ e u. (e ≡ none) × CreatesFirst a worker (posts t) (posts u))
          (Choice a worker t true current min max) create_then_remove-posts
          (λ e u h. inr (inl (h.0, refl, ground arith, ground arith, h.1))))
    | inr no_room ↦ rw no_room (elim (Bool-cases (leb_ℤ max current)) [
      | inl full ↦ rw full (
          Ensures-weaken (remove_then_create env fuel a worker t)
            (λ e u. (e ≡ none) × RemovesFirst a worker (posts t) (posts u))
            (Choice a worker t true current min max) remove_then_create-posts
            (λ e u h. inr (inr (h.0, refl, ground arith, h.1))))
      | inr under ↦ rw under (inl (ground arith, refl, ground arith))
    ])
  ]

-- Either there was an error before the if statements, or they have run with known values.
abbrev pub Decided :
    (ℤ → Type 0)
    → (ℤ → Type 0)
    → (List Node → Type 0)
    → (Bool → Type 0)
    → String
    → Trace
    → Option String
    → Trace
    → Type 0
Decided IsMax IsMin IsCached IsAnswer worker t e u =
    ((e ≢ none) × (posts u ≡ posts t))
    ⊎ ((a : Access) × (v : Trace) × (removable : Bool) × (current : List Node) × (min max : ℤ)
        × (posts v ≡ posts t)
        × IsMax max
        × IsMin min
        × IsCached current
        × IsAnswer removable
        × Choice a worker v removable (pos (length current)) min max e u)

-- The way of `replaceNode` to its if statements, with what is known of each value on the way.
module _ (env : Env) (fuel : ℕ) (node : Node) (IsMax IsMin : ℤ → Type 0)
    (IsCached : List Node → Type 0) (IsAnswer : Bool → Type 0)
    (max_known : (t : Trace) (n : ℤ)
      → IsSize "max_node_group_size" (env.config_map t "autoscaling-configmap") n
      → IsMax n)
    (min_known : (t : Trace) (n : ℤ)
      → IsSize "min_node_group_size" (env.config_map t "autoscaling-configmap") n
      → IsMin n)
    (cache_known : (t : Trace) → IsCached (env.cached_nodes t))
    (answer_known : (t : Trace) (b : Bool) (u : Trace)
      → check_worker_node_can_be_scale_down env node.name t ≡ done b u
      → IsAnswer b) where
  pub replace_node-Decided :
      (t : Trace)
      → Ensures (replace_node env fuel node t) (Decided IsMax IsMin IsCached IsAnswer node.name t)
  unfolding replace_node
  replace_node-Decided t = elim (Option-cases (env.nodes t)) [
    | inl unlisted ↦ rw unlisted (inl (ground arith, ground arith))
    | inr (found, listed) ↦ rw listed (
        Ensures-bind (get_access_token env) _ _ _ _ (get_access_token-posts env _) λ x1 t1 p1.
          Ensures-bind (get_vpc_id env) _ _ _ _ (get_vpc_id-posts env _) λ x2 t2 p2.
            Ensures-bind (get_call_back_url env) _ _ _ _ (get_call_back_url-posts env _) λ x3 t3 p3.
              Ensures-bind (get_cluster_id env) _ _ _ _ (get_cluster_id-posts env _) λ x4 t4 p4.
                Ensures-bind (get_id_cluster env _) _ _ _ _ (get_id_cluster-posts env _ _)
                  λ x5 t5 p5.
                    Ensures-bind (get_max_size env) _ _ _ _ (get_max_size-posts env _) λ x6 t6 p6.
                      Ensures-bind (get_min_size env) _ _ _ _ (get_min_size-posts env _) λ x7 t7 p7.
                        Ensures-bind (check_worker_node_can_be_scale_down env node.name) _ _ _ _
                          (Ensures-intro _ (λ b v. (posts v ≡ posts t7) × IsAnswer b)
                            (λ b v h. (
                              check_worker_node_can_be_scale_down-posts env node.name _ h,
                              answer_known _ b v h,
                            )))
                          λ x8 t8 p8.
                            let a : Access = record {
                              access_token = x1;
                              vpc_id = x2;
                              id_cluster = x5;
                              cluster_id_portal = x4;
                              callback_url = x3;
                            } in
                            let current = env.cached_nodes t7 in
                            Ensures-weaken
                              (choose env fuel a node.name x8 (pos (length current)) x7 x6 t8)
                              (Choice a node.name t8 x8 (pos (length current)) x7 x6)
                              (Decided IsMax IsMin IsCached IsAnswer node.name t)
                              (choose-Choice env fuel a node.name t8 x8 (pos (length current)) x7
                                x6)
                              (λ e u h. inr (
                                a,
                                t8,
                                x8,
                                current,
                                x7,
                                x6,
                                p8.0 ∙ p7.0 ∙ p6.0 ∙ p5 ∙ p4 ∙ p3 ∙ p2 ∙ p1,
                                max_known t5 x6 p6.1,
                                min_known t6 x7 p7.1,
                                cache_known t7,
                                p8.1,
                                h,
                              )))
  ]
