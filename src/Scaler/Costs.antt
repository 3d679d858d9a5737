-- ===== src/Scaler/Costs.antt =====
-- Scaling costs nothing but its own requests: it touches the power of no machine and queues no node.
use auto_repair.Common.{ℕ, zero, suc, ◌+◌, ◌≡◌, String, Bool, true, List, [], ◌∷◌, arith, ltb}
use auto_repair.Kube.{Pod, OwnerReference}
use auto_repair.Env.{Env, pure, list_pods}
use auto_repair.Calls.Costs.{
  Price, Costs, Costs-bind, Costs-next, Costs-ask, Costs-pure, Costs-crash, Costs-no_fuel,
  Costs-test, Costs-sleep, request,
}
use auto_repair.Portal.{
  Target, Access, target_of, check_status_cluster, check_error_status_cluster, perform_scale_up,
  perform_scale_down, get_id_cluster, up_request, down_request,
}
use auto_repair.Scaler.{
  scale_up, scale_down, wait_succeeded, wait_scale_up, wait_scale_down, owner_check, visit,
  pods_loop, check_worker_node_can_be_scale_down, pods_or_exit,
}

-- Requests for more workers and requests to remove the one worker are free.
pub record Allows (p : Price) (worker : String) : Type 0 where
  pub more : (x : Target) (n : ℕ) → p (request (up_request x n)) ≡ 0
  pub fewer : (x : Target) → p (request (down_request x (worker ∷ []))) ≡ 0

module _ (p : Price) (env : Env) where
  module _ (x : Target) where
    pub get_id_cluster-Costs : Costs p 0 (get_id_cluster env x)
    unfolding get_id_cluster
    get_id_cluster-Costs = record { at_most = λ t. ground arith }

    check_status_cluster-Costs : Costs p 0 (check_status_cluster env x)
    unfolding check_status_cluster
    check_status_cluster-Costs = record { at_most = λ t. ground arith }

    check_error_status_cluster-Costs : Costs p 0 (check_error_status_cluster env x)
    unfolding check_error_status_cluster
    check_error_status_cluster-Costs = record { at_most = λ t. ground arith }

    wait_succeeded-Costs : (fuel : ℕ) → Costs p 0 (wait_succeeded env x fuel)
    unfolding wait_succeeded
    wait_succeeded-Costs zero = Costs-no_fuel p
    wait_succeeded-Costs (suc fuel) = Costs-next p _ _ (Costs-sleep p _) (
        Costs-bind p _ _ check_status_cluster-Costs
          λ ok. Costs-test p _ _ _ (Costs-pure p _) (wait_succeeded-Costs fuel))

    module _ (worker : String) (ok : Allows p worker) where
      perform_scale_up-Costs : (n : ℕ) → Costs p 0 (perform_scale_up env x n)
      unfolding perform_scale_up
      perform_scale_up-Costs n = record { at_most = λ t. ground (arith, ok.more x n) }

      perform_scale_down-Costs : Costs p 0 (perform_scale_down env x (worker ∷ []))
      unfolding perform_scale_down
      perform_scale_down-Costs = record { at_most = λ t. ground (arith, ok.fewer x) }

      wait_scale_up-Costs : (n fuel : ℕ) → Costs p 0 (wait_scale_up env x n fuel)
      unfolding wait_scale_up
      wait_scale_up-Costs n zero = Costs-no_fuel p
      wait_scale_up-Costs n (suc fuel) = Costs-next p _ _ (Costs-sleep p _) (
          Costs-bind p _ _ check_status_cluster-Costs λ ok. Costs-test p _ _ _ (Costs-pure p _) (
            Costs-bind p _ _ check_error_status_cluster-Costs λ bad.
              Costs-test p _ _ _
                (Costs-bind p _ _ (perform_scale_up-Costs n) λ reply. wait_succeeded-Costs fuel)
                (wait_scale_up-Costs n fuel)))

      wait_scale_down-Costs : (fuel : ℕ) → Costs p 0 (wait_scale_down env x (worker ∷ []) fuel)
      unfolding wait_scale_down
      wait_scale_down-Costs zero = Costs-no_fuel p
      wait_scale_down-Costs (suc fuel) = Costs-next p _ _ (Costs-sleep p _) (
          Costs-bind p _ _ check_status_cluster-Costs λ ok.
            Costs-test p ok (pure tt) _ (Costs-pure p _) (
              Costs-test p (ltb 100 (0 + 1)) (pure tt) _ (Costs-pure p _) (
                Costs-bind p _ _ check_error_status_cluster-Costs λ bad.
                  Costs-test p bad _ _
                    (Costs-next p _ _ perform_scale_down-Costs (wait_succeeded-Costs fuel))
                    (wait_scale_down-Costs fuel))))

  owner_check-Costs :
      (pod : Pod) (os : List OwnerReference) (b : Bool) → Costs p 0 (owner_check env pod os b)
  unfolding owner_check
  owner_check-Costs pod [] b = Costs-crash p _
  owner_check-Costs pod (o ∷ os) b = record { at_most = λ t. ground arith }

  pods_loop-Costs :
      (worker : String) (ps : List Pod) (b : Bool) → Costs p 0 (pods_loop env worker ps b)
  unfolding pods_loop visit
  pods_loop-Costs worker [] b = Costs-pure p _
  pods_loop-Costs worker (pod ∷ ps) b =
      Costs-bind p _ _
        (Costs-test p _ _ _ (owner_check-Costs pod pod.owner_references b) (Costs-pure p _))
        λ c. pods_loop-Costs worker ps c

  pub check_worker_node_can_be_scale_down-Costs :
      (worker : String) → Costs p 0 (check_worker_node_can_be_scale_down env worker)
  unfolding check_worker_node_can_be_scale_down
  check_worker_node_can_be_scale_down-Costs worker =
      Costs-bind p _ _ (Costs-ask p list_pods env.pods (omega arith)) λ reply.
        Costs-bind p (pods_or_exit reply) _ (record { at_most = λ t. ground arith })
          λ ps. pods_loop-Costs worker ps true

  module _ (worker : String) (ok : Allows p worker) where
    pub scale_up-Costs : (fuel : ℕ) (a : Access) (n : ℕ) → Costs p 0 (scale_up env fuel a n)
    unfolding scale_up
    scale_up-Costs fuel a n = Costs-bind p _ _ (check_status_cluster-Costs (target_of a)) λ steady.
        Costs-test p _ _ _
          (Costs-bind p _ _ (perform_scale_up-Costs (target_of a) worker ok n) λ reply.
            Costs-next p _ _ (wait_scale_up-Costs (target_of a) worker ok n fuel) (Costs-pure p _))
          (Costs-bind p _ _ (check_status_cluster-Costs (target_of a)) λ again. Costs-pure p _)

    pub scale_down-Costs : (fuel : ℕ) (a : Access) → Costs p 0 (scale_down env fuel a worker)
    unfolding scale_down
    scale_down-Costs fuel a =
        Costs-bind p _ _ (check_worker_node_can_be_scale_down-Costs worker) λ removable.
          Costs-test p _ _ _ (Costs-pure p _) (
            Costs-bind p _ _ (check_status_cluster-Costs (target_of a)) λ steady.
              Costs-test p _ _ _
                (Costs-next p _ _ (perform_scale_down-Costs (target_of a) worker ok) (
                  Costs-next p _ _ (wait_scale_down-Costs (target_of a) worker ok fuel)
                    (Costs-pure p _)))
                (Costs-pure p _))
