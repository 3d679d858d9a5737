-- ===== src/Controller/Costs.antt =====
-- Replacing a node costs nothing but the requests of scaling.
use auto_repair.Common.{ℕ, ◌*◌, String, Bool, Option, none, some, not, ◌&&◌, List, arith, length}
use auto_repair.Common.Int.{ℤ, pos, leb_ℤ, ltb_ℤ}
use auto_repair.Kube.{Node}
use auto_repair.Env.{Env, Io, pure, second, list_nodes, lister_list}
use auto_repair.Calls.Costs.{
  Price, Costs, Costs-bind, Costs-next, Costs-ask, Costs-pure, Costs-test, Costs-sleep,
}
use auto_repair.Errors.{AutorepairError}
use auto_repair.Portal.{Access}
use auto_repair.Settings.{
  get_access_token, get_vpc_id, get_call_back_url, get_cluster_id, get_max_size, get_min_size,
}
use auto_repair.Scaler.Costs.{
  Allows, scale_up-Costs, scale_down-Costs, get_id_cluster-Costs,
  check_worker_node_can_be_scale_down-Costs,
}
use auto_repair.Replace.{
  no_action, unless_error, create_then_remove, remove_then_create, choose, replace_listed,
  if_listed, replace_node,
}

module _ (p : Price) (env : Env) where
  unless_error-Costs :
      (e : Option AutorepairError) (next : Io (Option String))
      → Costs p 0 next
      → Costs p 0 (unless_error e next)
  unless_error-Costs none next h = h
  unless_error-Costs (some e) next h = Costs-pure p _

  module _ (fuel : ℕ) (a : Access) (worker : String) (ok : Allows p worker) where
    create_then_remove-Costs : Costs p 0 (create_then_remove env fuel a worker)
    unfolding create_then_remove
    create_then_remove-Costs = Costs-bind p _ _ (scale_up-Costs p env worker ok fuel a 1) λ up.
        unless_error-Costs up.1 _ (
          Costs-next p _ _ (Costs-sleep p (10 * second))
            (Costs-bind p _ _ (scale_down-Costs p env worker ok fuel a) λ down. Costs-pure p _))

    remove_then_create-Costs : Costs p 0 (remove_then_create env fuel a worker)
    unfolding remove_then_create
    remove_then_create-Costs = Costs-bind p _ _ (scale_down-Costs p env worker ok fuel a) λ down.
        unless_error-Costs down.1 _ (
          Costs-next p _ _ (Costs-sleep p (10 * second))
            (Costs-bind p _ _ (scale_up-Costs p env worker ok fuel a 1) λ up. Costs-pure p _))

    choose-Costs :
        (removable : Bool) (size low high : ℤ)
        → Costs p 0 (choose env fuel a worker removable size low high)
    unfolding choose
    choose-Costs removable size low high =
        Costs-test p (not removable) (pure (some "auto repairer can not delete node")) _
          (Costs-pure p _)
          (Costs-test p (leb_ℤ low size && ltb_ℤ size high) _ _ create_then_remove-Costs (
            Costs-test p (leb_ℤ high size) _ (pure (some no_action)) remove_then_create-Costs
              (Costs-pure p _)))

  getters-Costs :
      Costs p 0 (get_access_token env)
      × Costs p 0 (get_vpc_id env)
      × Costs p 0 (get_call_back_url env)
      × Costs p 0 (get_cluster_id env)
      × Costs p 0 (get_max_size env)
      × Costs p 0 (get_min_size env)
  unfolding get_access_token get_vpc_id get_call_back_url get_cluster_id get_max_size get_min_size
  getters-Costs = (
    record { at_most = λ t. ground arith },
    record { at_most = λ t. ground arith },
    record { at_most = λ t. ground arith },
    record { at_most = λ t. ground arith },
    record { at_most = λ t. ground arith },
    record { at_most = λ t. ground arith },
  )

  replace_listed-Costs :
      (fuel : ℕ) (node : Node) → Allows p node.name → Costs p 0 (replace_listed env fuel node)
  replace_listed-Costs fuel node ok =
      let (token, vpc, url, cluster, high, low) = getters-Costs in
      Costs-bind p _ _ token λ access_token. Costs-bind p _ _ vpc λ vpc_id.
        Costs-bind p _ _ url λ callback_url. Costs-bind p _ _ cluster λ cluster_id.
          Costs-bind p _ _ (get_id_cluster-Costs p env _) λ id_cluster.
            Costs-bind p _ _ high λ max_size. Costs-bind p _ _ low λ min_size.
              Costs-bind p _ _ (Costs-ask p lister_list env.cached_nodes (omega arith)) λ cached.
                Costs-bind p _ _ (check_worker_node_can_be_scale_down-Costs p env node.name)
                  λ removable.
                    choose-Costs fuel
                      (record {
                        access_token = access_token;
                        vpc_id = vpc_id;
                        id_cluster = id_cluster;
                        cluster_id_portal = cluster_id;
                        callback_url = callback_url;
                      })
                      node.name ok removable (pos (length cached)) min_size max_size

  pub replace_node-Costs :
      (fuel : ℕ) (node : Node) → Allows p node.name → Costs p 0 (replace_node env fuel node)
  unfolding replace_node
  replace_node-Costs fuel node ok =
      Costs-bind p _ (λ nodes. if_listed nodes (replace_listed env fuel node))
        (Costs-ask p list_nodes env.nodes (omega arith)) listed
    where
      listed :
          (nodes : Option (List Node)) → Costs p 0 (if_listed nodes (replace_listed env fuel node))
      listed none = Costs-pure p _
      listed (some nodes) = replace_listed-Costs fuel node ok
