-- ===== src/Core/Requests.antt =====
-- Which requests the repair in rounds posts.
use auto_repair.Common.{
  ℕ, zero, suc, ◌+◌, ◌≤◌, String, Bool, true, false, List, [], ◌∷◌, ◌++◌, ◌≡◌, refl, arith, ap, ◌∙◌,
  All, ◌==◌, ◌*◌, if◌then◌else◌,
}
use auto_repair.Kube.{Node}
use auto_repair.Env.{
  Env, Io, Trace, no_fuel, ask, tell, sleep, ◌>>◌, second, ScaleBodyRequest, ◌>>=◌, test◌then◌else◌,
  Call, pure,
}
use auto_repair.Calls.{posts, Ensures, Ensures-bind, Ensures-intro, Ensures-weaken}
use auto_repair.Portal.{
  Target, up_request, down_request, check_status_cluster, check_error_status_cluster,
  perform_scale_up, perform_scale_down,
}
use auto_repair.Portal.Laws.{perform_scale_up-posts, perform_scale_down-posts}
use auto_repair.Readiness.{all_nodes}
use auto_repair.Core.{
  worker_node_count, request_loop, increase_loop, increase_size, delete_loop, delete_nodes,
}

-- From `t` to `u`, only requests that satisfy `Q` have been posted.
abbrev pub Grows : (ScaleBodyRequest → Type 0) → Trace → Trace → Type 0
Grows Q t u = (new : List ScaleBodyRequest) × (posts u ≡ new ++ posts t) × All Q new

-- The run posts only such requests, whenever it returns.
pub record Posts {A : Type 0} (Q : ScaleBodyRequest → Type 0) (m : Io A) : Type 0 where
  pub posts_only : (t : Trace) → Ensures (m t) (λ _ u. Grows Q t u)

All-append : {A : Type 0} (P : A → Type 0) (xs ys : List A) → All P xs → All P ys → All P (xs ++ ys)
All-append P [] ys h g = g
All-append P (x ∷ xs) ys (h, hs) g = (h, All-append P xs ys hs g)

append_assoc : {A : Type 0} (xs ys zs : List A) → xs ++ (ys ++ zs) ≡ (xs ++ ys) ++ zs
append_assoc [] ys zs = refl
append_assoc (x ∷ xs) ys zs = ap (λ rest. x ∷ rest) (append_assoc xs ys zs)

module _ (Q : ScaleBodyRequest → Type 0) where
  Grows-trans : (t u v : Trace) → Grows Q t u → Grows Q u v → Grows Q t v
  Grows-trans t u v (a, p, h) (b, q, g) =
      (b ++ a, q ∙ ap (λ old. b ++ old) p ∙ append_assoc b a (posts t), All-append Q b a g h)

  pub Posts-bind :
      {A B : Type 0} (m : Io A) (f : A → Io B)
      → Posts Q m
      → ((a : A) → Posts Q (f a))
      → Posts Q (m >>= f)
  Posts-bind m f h k = record {
    posts_only = λ t.
        Ensures-bind m f t (λ _ u. Grows Q t u) (λ _ v. Grows Q t v) (h.posts_only t)
          (λ a u first.
            Ensures-weaken (f a u) (λ _ v. Grows Q u v) (λ _ v. Grows Q t v) ((k a).posts_only u)
              (λ b v second. Grows-trans t u v first second));
  }

  -- The same, where the first part posts nothing and something is known of its result.
  pub Posts-known :
      {A B : Type 0} (m : Io A) (f : A → Io B) (R : A → Type 0)
      → ((t : Trace) → Ensures (m t) (λ a u. R a × (posts u ≡ posts t)))
      → ((a : A) → R a → Posts Q (f a))
      → Posts Q (m >>= f)
  Posts-known m f R h k = record {
    posts_only = λ t.
        Ensures-bind m f t (λ a u. R a × (posts u ≡ posts t)) (λ _ v. Grows Q t v) (h t)
          (λ a u (r, same).
            Ensures-weaken (f a u) (λ _ v. Grows Q u v) (λ _ v. Grows Q t v) ((k a r).posts_only u)
              (λ b v second. Grows-trans t u v ([], same, tt) second));
  }

  pub Posts-no_fuel : {A : Type 0} → Posts Q (no_fuel {A = A})
  Posts-no_fuel = record { posts_only = λ t. tt }

  pub Posts-next : {A B : Type 0} (m : Io A) (k : Io B) → Posts Q m → Posts Q k → Posts Q (m >> k)
  Posts-next m k h g = Posts-bind m (λ _. k) h (λ _. g)

  pub Posts-sleep : (n : ℕ) → Posts Q (tell (sleep n))
  Posts-sleep n = record { posts_only = λ t. ([], refl, tt) }

  pub Posts-nodes : (env : Env) → Posts Q (all_nodes env)
  Posts-nodes env = record { posts_only = λ t. ([], refl, tt) }

  pub Posts-pure : {A : Type 0} (a : A) → Posts Q (pure a)
  Posts-pure a = record { posts_only = λ t. ([], refl, tt) }

  pub Posts-ask :
      {A : Type 0} (c : Call) (answer : Trace → A)
      → ((t : Trace) → posts (c ∷ t) ≡ posts t)
      → Posts Q (ask c answer)
  Posts-ask c answer same = record { posts_only = λ t. ([], same t, tt) }

  Posts-of-quiet :
      {A : Type 0} (m : Io A) → ((t : Trace) → Ensures (m t) (λ _ u. posts u ≡ posts t)) → Posts Q m
  Posts-of-quiet m h = record {
    posts_only = λ t.
        Ensures-weaken (m t) (λ _ u. posts u ≡ posts t) (λ _ u. Grows Q t u) (h t)
          (λ a u same. ([], same, tt));
  }

  pub Posts-if :
      {A : Type 0} (b : Bool) (m k : Io A)
      → (b ≡ true → Posts Q m)
      → (b ≡ false → Posts Q k)
      → Posts Q (test b then m else k)
  Posts-if true m k h g = h refl
  Posts-if false m k h g = g refl

  pub Posts-test :
      {A : Type 0} (b : Bool) (m k : Io A) → Posts Q m → Posts Q k → Posts Q (test b then m else k)
  Posts-test true m k h g = h
  Posts-test false m k h g = g

  module _ (env : Env) (x : Target) where
    pub Posts-check : Posts Q (check_status_cluster env x)
    unfolding check_status_cluster
    Posts-check = Posts-of-quiet (check_status_cluster env x) (λ t. ground arith)

    pub Posts-check_error : Posts Q (check_error_status_cluster env x)
    unfolding check_error_status_cluster
    Posts-check_error = Posts-of-quiet (check_error_status_cluster env x) (λ t. ground arith)

    pub Posts-down :
        (names : List String) → Q (down_request x names) → Posts Q (perform_scale_down env x names)
    Posts-down names q = record {
      posts_only = λ t.
          Ensures-intro (perform_scale_down env x names t) (λ _ u. Grows Q t u)
            (λ r u h.
              (down_request x names ∷ [], perform_scale_down-posts env x t names h, (q, tt)));
    }

    pub Posts-up : (n : ℕ) → Q (up_request x n) → Posts Q (perform_scale_up env x n)
    Posts-up n q = record {
      posts_only = λ t.
          Ensures-intro (perform_scale_up env x n t) (λ _ u. Grows Q t u)
            (λ r u h. (up_request x n ∷ [], perform_scale_up-posts env x t n h, (q, tt)));
    }

    request_loop-Posts :
        (n i : ℕ)
        → ((j : ℕ) → 1 ≤ j → j ≤ n → Q (up_request x j))
        → i ≤ n
        → Posts Q (request_loop env x i)
    unfolding request_loop
    request_loop-Posts n zero up h = Posts-pure tt
    request_loop-Posts n (suc i) up h =
        Posts-bind _ _ (Posts-up (suc i) (up (suc i) (omega arith) h))
          (λ reply. Posts-test _ _ _ (request_loop-Posts n i up (omega arith)) (Posts-pure tt))

    increase_loop-Posts :
        (inc prev rounds curr : ℕ)
        → ((j : ℕ) → 1 ≤ j → j ≤ inc → Q (up_request x j))
        → Posts Q (increase_loop env x inc prev rounds curr)
    unfolding increase_loop
    increase_loop-Posts inc prev zero curr up = Posts-pure tt
    increase_loop-Posts inc prev (suc rounds) curr up =
        Posts-test (curr == prev + inc) (pure tt) _ (Posts-pure tt) (
          Posts-next _ _ (Posts-sleep _) (
            Posts-bind _ _ Posts-check λ ok. Posts-test ok (pure tt) _ (Posts-pure tt) (
              Posts-bind _ _ Posts-check_error λ bad.
                Posts-next _ _
                  (Posts-test bad _ (pure tt)
                    (Posts-next _ _ (request_loop-Posts inc inc up (omega arith)) (Posts-sleep _))
                    (Posts-pure tt))
                  (Posts-next _ _ (Posts-sleep _) (
                    Posts-bind _ _ (Posts-nodes env) λ nodes.
                      increase_loop-Posts inc prev rounds (worker_node_count nodes).0 up)))))

    pub increase_size-Posts :
        (inc : ℕ)
        → ((j : ℕ) → 1 ≤ j → j ≤ inc → Q (up_request x j))
        → Posts Q (increase_size env x inc)
    unfolding increase_size
    increase_size-Posts inc up = Posts-bind _ _ (Posts-nodes env) λ nodes.
        Posts-bind _ _ Posts-check λ ok.
          Posts-test ok _ _
            (Posts-next _ _ (request_loop-Posts inc inc up (omega arith)) (
              Posts-next _ _
                (increase_loop-Posts inc (worker_node_count nodes).0 30 (worker_node_count nodes).0
                  up)
                (Posts-sleep (60 * second * 3))))
            (Posts-next _ _ Posts-check (Posts-pure tt))

    delete_loop-Posts : (dec prev rounds curr : ℕ) → Posts Q (delete_loop env dec prev rounds curr)
    unfolding delete_loop
    delete_loop-Posts dec prev zero curr = Posts-pure curr
    delete_loop-Posts dec prev (suc rounds) curr =
        Posts-test (curr + dec == prev) (pure curr) _ (Posts-pure curr) (
          Posts-bind _ _ (Posts-nodes env) λ nodes.
            Posts-next _ _ (Posts-sleep (4 * (30 * second)))
              (delete_loop-Posts dec prev rounds (worker_node_count nodes).0))

    pub delete_nodes-Posts :
        (nodes : List Node)
        → Q (down_request x (worker_node_count nodes).1)
        → Posts Q (delete_nodes env x nodes)
    unfolding delete_nodes
    delete_nodes-Posts nodes q =
        let w = worker_node_count nodes in
        Posts-bind _ _ (Posts-nodes env) λ cached.
          let size = (worker_node_count cached).0 in
          Posts-bind _ _ Posts-check λ ok.
            Posts-test ok _ _
              (Posts-next _ _ (Posts-down w.1 q) (
                Posts-bind _ _ (delete_loop-Posts w.0 size 6 size) λ curr.
                  Posts-bind _ _ Posts-check_error λ bad.
                    Posts-next _ _
                      (Posts-test bad _ (pure tt)
                        (Posts-next _ _ (Posts-down w.1 q) (
                          Posts-next _ _ (delete_loop-Posts w.0 size 6 curr)
                            (Posts-sleep (3 * (30 * second)))))
                        (Posts-pure tt))
                      (Posts-next _ _ (Posts-sleep (30 * second)) (Posts-sleep (30 * second * 6)))))
              (Posts-next _ _ Posts-check (Posts-pure tt))
