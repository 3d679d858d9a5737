-- ===== src/Core/Halting.antt =====
-- That the loops of a round of the repair do not use fuel.
use auto_repair.Common.{
  ℕ, zero, suc, ◌+◌, String, Bool, true, false, List, [], ◌∷◌, ◌≡◌, refl, arith, ◌==◌,
  if◌then◌else◌, ◌*◌,
}
use auto_repair.Common.Int.{ℤ, leb_ℤ, pos, negsuc, ◌-ℤ◌}
use auto_repair.Kube.{Node}
use auto_repair.Env.{
  Env, Io, Trace, Run, done, crashed, unfinished, ◌>>=◌, ◌>>◌, test◌then◌else◌, pure, tell, sleep,
  second,
}
use auto_repair.Portal.{
  Target, check_status_cluster, check_error_status_cluster, perform_scale_up, perform_scale_down,
}
use auto_repair.Settings.{get_max_size_node_group, size_loop, atoi, config_data}
use auto_repair.Core.{
  worker_node_count, calc_expand_size, request_loop, increase_loop, increase_size, delete_loop,
  delete_nodes, bound_or_crash,
}
use auto_repair.Readiness.{all_nodes}

-- The run returns or ends the process: it does not run out of fuel.
abbrev pub Stops : {A : Type 0} → Run A → Type 0
Stops (done a t) = Unit
Stops (crashed c t) = Unit
Stops (unfinished t) = ⊥

pub record Halts {A : Type 0} (m : Io A) : Type 0 where
  pub halts : (t : Trace) → Stops (m t)

pub Stops-bind :
    {A B : Type 0} (m : Io A) (f : A → Io B) (t : Trace)
    → Stops (m t)
    → ((a : A) (u : Trace) → m t ≡ done a u → Stops (f a u))
    → Stops ((m >>= f) t)
Stops-bind {A} {B} m f t h k = split (m t) refl h
  where
    split :
        (r : Run A)
        → m t ≡ r
        → Stops r
        → Stops
            (elim r [ done a v ↦ f a v | crashed c v ↦ crashed c v | unfinished v ↦ unfinished v ])
    split (done a v) e g = k a v e
    split (crashed c v) e g = tt
    split (unfinished v) e g = g

-- The same, for the run from one trace.
pub record StopsAt {A : Type 0} (m : Io A) (t : Trace) : Type 0 where
  pub stops : Stops (m t)

pub StopsAt-bind :
    {A B : Type 0} (m : Io A) (f : A → Io B) (t : Trace)
    → Halts m
    → ((a : A) (u : Trace) → m t ≡ done a u → StopsAt (f a) u)
    → StopsAt (m >>= f) t
StopsAt-bind m f t h k = record { stops = Stops-bind m f t (h.halts t) (λ a u e. (k a u e).stops) }

pub StopsAt-if :
    {A : Type 0} (b : Bool) (m k : Io A) (t : Trace)
    → (b ≡ true → StopsAt m t)
    → (b ≡ false → StopsAt k t)
    → StopsAt (test b then m else k) t
StopsAt-if true m k t h g = record { stops = (h refl).stops }
StopsAt-if false m k t h g = record { stops = (g refl).stops }

pub StopsAt-of-Halts : {A : Type 0} (m : Io A) (t : Trace) → Halts m → StopsAt m t
StopsAt-of-Halts m t h = record { stops = h.halts t }

pub Halts-bind :
    {A B : Type 0} (m : Io A) (f : A → Io B) → Halts m → ((a : A) → Halts (f a)) → Halts (m >>= f)
Halts-bind m f h k = record { halts = λ t. Stops-bind m f t (h.halts t) (λ a u e. (k a).halts u) }

pub Halts-next : {A B : Type 0} (m : Io A) (k : Io B) → Halts m → Halts k → Halts (m >> k)
Halts-next m k h g = Halts-bind m (λ _. k) h (λ _. g)

pub Halts-pure : {A : Type 0} (a : A) → Halts (pure a)
Halts-pure a = record { halts = λ t. tt }

pub Halts-sleep : (n : ℕ) → Halts (tell (sleep n))
Halts-sleep n = record { halts = λ t. tt }

pub Halts-nodes : (env : Env) → Halts (all_nodes env)
Halts-nodes env = record { halts = λ t. tt }

pub Halts-test :
    {A : Type 0} (b : Bool) (m k : Io A) → Halts m → Halts k → Halts (test b then m else k)
Halts-test true m k h g = h
Halts-test false m k h g = g

pub size_loop-Stops :
    (key : String) (m : List (String × String)) (n : ℤ) (t : Trace) → Stops (size_loop key m n t)
unfolding size_loop
size_loop-Stops key [] n t = tt
size_loop-Stops key ((k, v) ∷ m) n t =
    ground (arith, size_loop-Stops key m (atoi v).0 t, size_loop-Stops key m n t)

module _ (env : Env) (x : Target) where
  pub Halts-check : Halts (check_status_cluster env x)
  unfolding check_status_cluster
  Halts-check = record { halts = λ t. ground arith }

  pub Halts-check_error : Halts (check_error_status_cluster env x)
  unfolding check_error_status_cluster
  Halts-check_error = record { halts = λ t. ground arith }

  pub Halts-up : (n : ℕ) → Halts (perform_scale_up env x n)
  unfolding perform_scale_up
  Halts-up n = record { halts = λ t. ground arith }

  pub Halts-down : (names : List String) → Halts (perform_scale_down env x names)
  unfolding perform_scale_down
  Halts-down names = record { halts = λ t. ground arith }

  pub request_loop-Halts : (n : ℕ) → Halts (request_loop env x n)
  unfolding request_loop
  request_loop-Halts zero = Halts-pure tt
  request_loop-Halts (suc i) =
      Halts-bind _ _ (Halts-up (suc i))
        λ reply. Halts-test _ _ (pure tt) (request_loop-Halts i) (Halts-pure tt)

  pub increase_loop-Halts :
      (inc prev rounds curr : ℕ) → Halts (increase_loop env x inc prev rounds curr)
  unfolding increase_loop
  increase_loop-Halts inc prev zero curr = Halts-pure tt
  increase_loop-Halts inc prev (suc rounds) curr =
      Halts-test (curr == prev + inc) (pure tt) _ (Halts-pure tt) (
        Halts-next _ _ (Halts-sleep _) (
          Halts-bind _ _ Halts-check λ ok. Halts-test ok (pure tt) _ (Halts-pure tt) (
            Halts-bind _ _ Halts-check_error λ bad.
              Halts-next _ _
                (Halts-test bad _ (pure tt)
                  (Halts-next _ _ (request_loop-Halts inc) (Halts-sleep _)) (Halts-pure tt))
                (Halts-next _ _ (Halts-sleep _) (
                  Halts-bind _ _ (Halts-nodes env)
                    λ nodes. increase_loop-Halts inc prev rounds (worker_node_count nodes).0)))))

  pub increase_size-Halts : (inc : ℕ) → Halts (increase_size env x inc)
  unfolding increase_size
  increase_size-Halts inc = Halts-bind _ _ (Halts-nodes env) λ nodes.
      let size = (worker_node_count nodes).0 in
      Halts-bind _ _ Halts-check λ ok.
        Halts-test ok _ _
          (Halts-next _ _ (request_loop-Halts inc)
            (Halts-next _ _ (increase_loop-Halts inc size 30 size) (Halts-sleep (60 * second * 3))))
          (Halts-next _ _ Halts-check (Halts-pure tt))

  pub delete_loop-Halts : (dec prev rounds curr : ℕ) → Halts (delete_loop env dec prev rounds curr)
  unfolding delete_loop
  delete_loop-Halts dec prev zero curr = Halts-pure curr
  delete_loop-Halts dec prev (suc rounds) curr =
      Halts-test (curr + dec == prev) (pure curr) _ (Halts-pure curr) (
        Halts-bind _ _ (Halts-nodes env) λ nodes.
          Halts-next _ _ (Halts-sleep (4 * (30 * second)))
            (delete_loop-Halts dec prev rounds (worker_node_count nodes).0))

  pub delete_nodes-Halts : (nodes : List Node) → Halts (delete_nodes env x nodes)
  unfolding delete_nodes
  delete_nodes-Halts nodes =
      let w = worker_node_count nodes in
      Halts-bind _ _ (Halts-nodes env) λ cached.
        let size = (worker_node_count cached).0 in
        Halts-bind _ _ Halts-check λ ok.
          Halts-test ok _ _
            (Halts-next _ _ (Halts-down w.1) (
              Halts-bind _ _ (delete_loop-Halts w.0 size 6 size) λ curr.
                Halts-bind _ _ Halts-check_error λ bad.
                  Halts-next _ _
                    (Halts-test bad _ (pure tt)
                      (Halts-next _ _ (Halts-down w.1) (
                        Halts-next _ _ (delete_loop-Halts w.0 size 6 curr)
                          (Halts-sleep (3 * (30 * second)))))
                      (Halts-pure tt))
                    (Halts-next _ _ (Halts-sleep (30 * second)) (Halts-sleep (30 * second * 6)))))
            (Halts-next _ _ Halts-check (Halts-pure tt))

  pub max_size-Halts : Halts (get_max_size_node_group env)
  unfolding get_max_size_node_group
  max_size-Halts = record {
    halts = λ t.
        Stops-bind (config_data env "autoscaling-configmap") _ t (ground arith)
          (λ m u e. size_loop-Stops "max_node_group_size" m (pos 0) u);
  }

  pub calc_expand_size-Halts : (nodes : List Node) → Halts (calc_expand_size env nodes)
  unfolding calc_expand_size
  calc_expand_size-Halts nodes = Halts-bind _ _ (Halts-nodes env) λ cached.
      Halts-bind _ _ max_size-Halts λ max. Halts-pure (
        if leb_ℤ (pos (worker_node_count nodes).0) (max -ℤ pos (worker_node_count cached).0)
        then pos (worker_node_count nodes).0
        else max -ℤ pos (worker_node_count cached).0)

  pub bound_or_crash-Halts : (z : ℤ) → Halts (bound_or_crash z)
  bound_or_crash-Halts (pos n) = record { halts = λ t. tt }
  bound_or_crash-Halts (negsuc n) = record { halts = λ t. tt }
