-- ===== src/Controller/Completing.antt =====
-- That a node which does not come back is replaced, where the portal and the pods allow it.
use auto_repair.Common.{
  ℕ, ◌*◌, ◌≤◌, ◌<◌, String, none, some, true, List, ◌∷◌, ◌≡◌, inl, inr, refl, arith, length, [], ap,
  ◌∙◌, ◌⊎◌, Bool-cases, ◌&&◌,
}
use auto_repair.Common.Int.{ℤ, pos, leb_ℤ, ltb_ℤ, ◌≤ℤ◌, ◌<ℤ◌}
use auto_repair.Kube.{Node}
use auto_repair.Env.{Env, Trace, list_nodes, lister_list, sleep, second}
use auto_repair.Calls.{posts, naps, IsCalm, Ends, Ends-bind, Ends-with, Ends-weaken, Ensures-intro}
use auto_repair.Portal.{Access, Target, target_of, get_id_cluster, up_request, down_request}
use auto_repair.Settings.{
  scan, get_access_token, get_vpc_id, get_call_back_url, get_cluster_id, get_max_size, get_min_size,
}
use auto_repair.Scaler.{scale_up, scale_down, check_worker_node_can_be_scale_down}
use auto_repair.Scaler.Laws.{check_worker_node_can_be_scale_down-IsCalm}
use auto_repair.Scaler.Waiting.{Answers, RecoversBy}
use auto_repair.Scaler.Removing.{Replies}
use auto_repair.Scaler.Settled.{scale_up_settled, scale_down_settled}
use auto_repair.Replace.{create_then_remove, remove_then_create, choose, replace_node}
use auto_repair.Controller.Outcome.{IsSteady, min_size_in, max_size_in}

-- The settings and the cache can be read and stay as they are, the pods of the worker may go, and the
-- portal answers, and says of the cluster that it has succeeded once the program has slept k times.
pub record IsReplaceable (env : Env) (worker : String) (k : ℕ) (s m : List (String × String))
    (nodes : List Node) : Type 0 where
  pub steady : IsSteady env m nodes
  pub lists : (t : Trace) → (ns : List Node) × (env.nodes t ≡ some ns)
  pub secrets : (t : Trace) → env.secret t "fke-secret" ≡ some s
  pub removable :
      (t : Trace) → Ends (check_worker_node_can_be_scale_down env worker t) (λ b _. b ≡ true)
  pub answers : (x : Target) → Answers env x
  pub replies : Replies env
  pub recovers : (x : Target) → x.cluster_id_portal ≡ scan "cluster_id" s "" → RecoversBy env x k

-- The portal has been asked exactly once for one more worker, and then exactly once to remove this one.
abbrev pub CreatedFirst : Access → String → Trace → Trace → Type 0
CreatedFirst a worker t u =
    let x = target_of a in posts u ≡ down_request x (worker ∷ []) ∷ up_request x 1 ∷ posts t

-- The other way round.
abbrev pub RemovedFirst : Access → String → Trace → Trace → Type 0
RemovedFirst a worker t u =
    let x = target_of a in posts u ≡ up_request x 1 ∷ down_request x (worker ∷ []) ∷ posts t

-- The requests between the traces replace the worker, in the order that the sizes ask for.
abbrev pub Requested : String → ℤ → ℤ → Trace → Trace → Type 0
Requested worker current high t u =
    (a : Access) × (((current <ℤ high) × CreatedFirst a worker t u)
      ⊎ ((high ≤ℤ current) × RemovedFirst a worker t u))

pub Requested-from :
    (worker : String) (current high high' : ℤ) (t t' u : Trace)
    → high ≡ high'
    → posts t' ≡ posts t
    → Requested worker current high t' u
    → Requested worker current high' t u
Requested-from worker current high high' t t' u e same h = rw (e, same) at h

module _ (env : Env) (worker : String) (k fuel : ℕ) (s m : List (String × String))
    (nodes : List Node) (able : IsReplaceable env worker k s m nodes) (some_fuel : 0 < fuel) where
  module _ (a : Access) (known : a.cluster_id_portal ≡ scan "cluster_id" s "") where
    up_ends :
        (t : Trace)
        → k ≤ naps t
        → Ends (scale_up env fuel a 1 t) (λ r u.
          (r.1 ≡ none) × (posts u ≡ up_request (target_of a) 1 ∷ posts t) × (naps t ≤ naps u))
    up_ends t late =
        Ends-weaken (scale_up env fuel a 1 t) _ _
          (scale_up_settled env a (able.answers (target_of a)) k fuel
            (able.recovers (target_of a) known) some_fuel 1 t late)
          λ r u (fine, asked, awake). (ap (λ r. r.1) fine, asked, awake)

    down_ends :
        (t : Trace)
        → k ≤ naps t
        → Ends (scale_down env fuel a worker t) (λ r u.
          (r.1 ≡ none)
          × (posts u ≡ down_request (target_of a) (worker ∷ []) ∷ posts t)
          × (naps t ≤ naps u))
    down_ends t late =
        Ends-weaken (scale_down env fuel a worker t) _ _
          (scale_down_settled env a (able.answers (target_of a)) k fuel
            (able.recovers (target_of a) known) some_fuel worker t able.replies (able.removable t)
            late)
          λ r u (fine, asked, awake). (ap (λ r. r.1) fine, asked, awake)

    create_then_remove_ends :
        (t : Trace)
        → k ≤ naps t
        → Ends
            (create_then_remove env fuel a worker t)
            (λ e u. (e ≡ none) × CreatedFirst a worker t u)
    unfolding create_then_remove
    create_then_remove_ends t late =
        Ends-bind (scale_up env fuel a 1) _ t _ _ (up_ends t late) λ up u (fine, asked, awake).
          rw fine (
            Ends-bind (scale_down env fuel a worker) _ _ _ _
              (down_ends (sleep (10 * second) ∷ u) (omega arith))
              λ down v (fine', asked', _).
                rw fine'
                  (refl, asked' ∙ ap (λ ps. down_request (target_of a) (worker ∷ []) ∷ ps) asked))

    remove_then_create_ends :
        (t : Trace)
        → k ≤ naps t
        → Ends
            (remove_then_create env fuel a worker t)
            (λ e u. (e ≡ none) × RemovedFirst a worker t u)
    unfolding remove_then_create
    remove_then_create_ends t late =
        Ends-bind (scale_down env fuel a worker) _ t _ _ (down_ends t late)
          λ down u (fine, asked, awake). rw fine (
            Ends-bind (scale_up env fuel a 1) _ _ _ _
              (up_ends (sleep (10 * second) ∷ u) (omega arith))
              λ up v (fine', asked', _).
                rw fine' (refl, asked' ∙ ap (λ ps. up_request (target_of a) 1 ∷ ps) asked))

    choose_ends :
        (current low high : ℤ) (t : Trace)
        → low ≤ℤ current
        → k ≤ naps t
        → Ends
            (choose env fuel a worker true current low high t)
            (λ e u. (e ≡ none) × Requested worker current high t u)
    unfolding choose
    choose_ends current low high t h late =
        elim (Bool-cases (leb_ℤ low current && ltb_ℤ current high)) [
          | inl room ↦ rw room (
              Ends-weaken (create_then_remove env fuel a worker t) _ _
                (create_then_remove_ends t late)
                λ e u (fine, asked). (fine, (a, inl (ground arith, asked))))
          | inr no_room ↦
              let full : leb_ℤ high current ≡ true = ground arith in
              rw (no_room, full)
                (Ends-weaken (remove_then_create env fuel a worker t) _ _
                  (remove_then_create_ends t late)
                  λ e u (fine, asked). (fine, (a, inr (ground arith, asked))))
        ]

  get_access_token_ends : (t : Trace) → Ends (get_access_token env t) (λ _ u. IsCalm t u)
  unfolding get_access_token
  get_access_token_ends t = ground (arith, able.secrets t)

  get_vpc_id_ends : (t : Trace) → Ends (get_vpc_id env t) (λ _ u. IsCalm t u)
  unfolding get_vpc_id
  get_vpc_id_ends t = ground (arith, able.secrets t)

  get_cluster_id_ends :
      (t : Trace) → Ends (get_cluster_id env t) (λ id u. (id ≡ scan "cluster_id" s "") × IsCalm t u)
  unfolding get_cluster_id
  get_cluster_id_ends t = ground (arith, able.secrets t)

  get_call_back_url_ends : (t : Trace) → Ends (get_call_back_url env t) (λ _ u. IsCalm t u)
  unfolding get_call_back_url
  get_call_back_url_ends t = ground (arith, able.steady.same_config t)

  get_max_size_ends :
      (t : Trace) → Ends (get_max_size env t) (λ n u. (n ≡ max_size_in m) × IsCalm t u)
  unfolding get_max_size
  get_max_size_ends t = ground (arith, able.steady.same_config t)

  get_min_size_ends :
      (t : Trace) → Ends (get_min_size env t) (λ n u. (n ≡ min_size_in m) × IsCalm t u)
  unfolding get_min_size
  get_min_size_ends t = ground (arith, able.steady.same_config t)

  get_id_cluster_ends : (x : Target) (t : Trace) → Ends (get_id_cluster env x t) (λ _ u. IsCalm t u)
  unfolding get_id_cluster
  get_id_cluster_ends x t = let (items, e) = able.answers x t in ground (arith, e)

  check_ends :
      (t : Trace)
      → Ends (check_worker_node_can_be_scale_down env worker t) (λ b u. (b ≡ true) × IsCalm t u)
  check_ends t =
      Ends-with (check_worker_node_can_be_scale_down env worker t) _ (λ _ u. IsCalm t u)
        (able.removable t)
        (Ensures-intro _ _ λ b u run. check_worker_node_can_be_scale_down-IsCalm env worker t run)

  pub replace_node_returns :
      (node : Node) (t : Trace)
      → node.name ≡ worker
      → min_size_in m ≤ℤ pos (length nodes)
      → k ≤ naps t
      → Ends
          (replace_node env fuel node t)
          (λ e u. (e ≡ none) × Requested worker (pos (length nodes)) (max_size_in m) t u)
  unfolding replace_node
  replace_node_returns node t named h late =
      let (found, listed) = able.lists t in
      rw (listed, named)
        (Ends-bind (get_access_token env) _ (list_nodes ∷ t) _ _ (get_access_token_ends _)
          λ x1 t1 p1. Ends-bind (get_vpc_id env) _ t1 _ _ (get_vpc_id_ends t1) λ x2 t2 p2.
            Ends-bind (get_call_back_url env) _ t2 _ _ (get_call_back_url_ends t2) λ x3 t3 p3.
              Ends-bind (get_cluster_id env) _ t3 _ _ (get_cluster_id_ends t3) λ x4 t4 (p4, c4).
                Ends-bind (get_id_cluster env _) _ t4 _ _ (get_id_cluster_ends _ t4) λ x5 t5 p5.
                  Ends-bind (get_max_size env) _ t5 _ _ (get_max_size_ends t5) λ x6 t6 (p6, c6).
                    Ends-bind (get_min_size env) _ t6 _ _ (get_min_size_ends t6) λ x7 t7 (p7, c7).
                      Ends-bind (check_worker_node_can_be_scale_down env worker) _
                        (lister_list ∷ t7) _ _ (check_ends (lister_list ∷ t7))
                        λ x8 t8 (p8, c8).
                          let calm : (naps t8 ≡ naps t) × (posts t8 ≡ posts t) = ground arith in
                          let b : Access = record {
                            access_token = x1;
                            vpc_id = x2;
                            id_cluster = x5;
                            cluster_id_portal = x4;
                            callback_url = x3;
                          } in
                          rw (p8, able.steady.same_nodes t7)
                            (Ends-weaken
                              (choose env fuel b worker true (pos (length nodes)) x7 x6 t8) _ _
                              (choose_ends b p4 (pos (length nodes)) x7 x6 t8 (rw p7 h)
                                (omega (arith, late, calm.0)))
                              λ e u (fine, asked). (
                                fine,
                                Requested-from worker (pos (length nodes)) x6 (max_size_in m) t t8 u
                                    p6 calm.1 asked,
                              )))
