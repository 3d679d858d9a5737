-- ===== src/Controller/Recovery.antt =====
-- That a node which comes back after its reboot is handled without being replaced.
use auto_repair.Common.{
  ℕ, zero, suc, ap, ◌∷◌, inl, inr, Option-cases, eq_iff, ◌+◌, ◌≤◌, String, true, none, some, List,
  ◌≡◌, refl, arith, ◌∙◌,
}
use auto_repair.Kube.{Node}
use auto_repair.Env.{
  Env, Trace, done, Config, sleep, lister_get, find_org, find_vdc, find_vapp, power_on, power_off,
  wait_task, read_vm_status,
}
use auto_repair.Calls.{IsCalm, naps, posts, Ends, Ends-run, Ends-bind, Ensures}
use auto_repair.Settings.{get_user_name, get_password, get_host, get_org, get_vdc, get_vcd_config}
use auto_repair.Vm.{new_client, reboot_vm, get_vm_from_name, restart_vm}
use auto_repair.Replace.{create_go_vcloud_client}
use auto_repair.Controller.{
  Controller, handle_not_ready_node, reboot_rounds, after_connect, after_reboot, unmark,
}
use auto_repair.NodeChecks.{
  ready_loop, poll_node, retry_duration, check_node_ready_status_after_repairing,
}
use auto_repair.NodeChecks.Polling.{ComesBackBy, check_node_ready_status_after_repairing_sees}

-- The settings can be read, and vCloud Director lets the program in, has the node's machine, which
-- is on, and carries out what it is asked.
pub record IsReachable (env : Env) : Type 0 where
  pub has_secret :
      (t : Trace) (name : String) → (m : List (String × String)) × (env.secret t name ≡ some m)
  pub has_config_map :
      (t : Trace) (name : String) → (m : List (String × String)) × (env.config_map t name ≡ some m)
  pub valid_uri : (s : String) → env.uri_error s ≡ none
  pub authenticates : (t : Trace) (c : Config) → env.auth_error t c ≡ none
  pub finds_org : (t : Trace) (s : String) → env.has_org t s ≡ true
  pub finds_vdc : (t : Trace) (s : String) → env.has_vdc t s ≡ true
  pub finds_vapp : (t : Trace) (s : String) → env.has_vapp t s ≡ true
  pub finds_vm : (t : Trace) (s : String) → env.has_vm t s ≡ true
  pub is_on : (t : Trace) (s : String) → env.vm_status t s ≡ "POWERED_ON"
  pub turns_off : (t : Trace) (s : String) → env.accepts_power_off t s ≡ true
  pub turns_on : (t : Trace) (s : String) → env.accepts_power_on t s ≡ true
  pub completes : (t : Trace) (s : String) → env.task_succeeds t s ≡ true

pub ready_loop-posts :
    (env : Env) (name : String) (rounds : ℕ) (t : Trace)
    → Ensures (ready_loop env name rounds t) (λ _ u. posts u ≡ posts t)
unfolding ready_loop poll_node
ready_loop-posts env name zero t = refl
ready_loop-posts env name (suc rounds) t = elim (Option-cases (env.cached_node t name)) [
  | inl missing ↦ ground arith
  | inr (n, found) ↦
      ground (arith, ready_loop-posts env name rounds (sleep retry_duration ∷ lister_get name ∷ t))
]

-- A check that sees the node ready has posted nothing.
check-posts :
    (env : Env) (node : Node) (k : ℕ) (t : Trace)
    → ComesBackBy env node.name k
    → k ≤ naps t + 29
    → (u : Trace) × (check_node_ready_status_after_repairing env node t ≡ done true u)
      × (posts u ≡ posts t)
unfolding check_node_ready_status_after_repairing
check-posts env node k t back h =
    let (b, u, e, (ready, _)) =
      Ends-run (check_node_ready_status_after_repairing env node t)
        (λ b u. (b ≡ true) × (naps u ≤ naps t + 30))
        (check_node_ready_status_after_repairing_sees env node k t back h) in
    (u, e ∙ ap (λ c. done c u) ready, rw (e, Ensures) at (ready_loop-posts env node.name 30 t))

module _ (env : Env) (reachable : IsReachable env) where
  get_user_name-IsCalm : (t : Trace) → Ends (get_user_name env t) (λ _ u. IsCalm t u)
  unfolding get_user_name
  get_user_name-IsCalm t =
      let (m, e) = reachable.has_secret t "csi-fptcloud-basic-auth" in ground arith

  get_password-IsCalm : (t : Trace) → Ends (get_password env t) (λ _ u. IsCalm t u)
  unfolding get_password
  get_password-IsCalm t =
      let (m, e) = reachable.has_secret t "csi-fptcloud-basic-auth" in ground arith

  get_host-IsCalm : (t : Trace) → Ends (get_host env t) (λ _ u. IsCalm t u)
  unfolding get_host get_vcd_config
  get_host-IsCalm t =
      let (m, e) = reachable.has_config_map t "fptcloud-csi-configmap" in ground arith

  get_org-IsCalm : (t : Trace) → Ends (get_org env t) (λ _ u. IsCalm t u)
  unfolding get_org get_vcd_config
  get_org-IsCalm t =
      let (m, e) = reachable.has_config_map t "fptcloud-csi-configmap" in ground arith

  get_vdc-IsCalm : (t : Trace) → Ends (get_vdc env t) (λ _ u. IsCalm t u)
  unfolding get_vdc get_vcd_config
  get_vdc-IsCalm t =
      let (m, e) = reachable.has_config_map t "fptcloud-csi-configmap" in ground arith

  new_client-IsCalm :
      (c : Config) (t : Trace) → Ends (new_client env c t) (λ e u. (e ≡ none) × IsCalm t u)
  unfolding new_client
  new_client-IsCalm c t = ground (arith, reachable.valid_uri c.href, reachable.authenticates t c)

  pub create_go_vcloud_client-IsCalm :
      (t : Trace) → Ends (create_go_vcloud_client env t) (λ r u. (r.0 ≡ none) × IsCalm t u)
  unfolding create_go_vcloud_client
  create_go_vcloud_client-IsCalm t =
      Ends-bind (get_user_name env) _ t _ _ (get_user_name-IsCalm t) λ user t1 p1.
        Ends-bind (get_password env) _ t1 _ _ (get_password-IsCalm t1) λ password t2 p2.
          Ends-bind (get_host env) _ t2 _ _ (get_host-IsCalm t2) λ host t3 p3.
            Ends-bind (get_org env) _ t3 _ _ (get_org-IsCalm t3) λ org t4 p4.
              Ends-bind (get_vdc env) _ t4 _ _ (get_vdc-IsCalm t4) λ vdc t5 p5.
                Ends-bind (new_client env _) _ t5 _ _ (new_client-IsCalm _ t5)
                  λ e t6 p6. ground arith

  get_vm_from_name-IsCalm :
      (org vdc vapp vm : String) (t : Trace)
      → Ends (get_vm_from_name env org vdc vapp vm t) (λ e u. (e ≡ none) × IsCalm t u)
  unfolding get_vm_from_name
  get_vm_from_name-IsCalm org vdc vapp vm t = ground (
    arith,
    reachable.finds_org t org,
    reachable.finds_vdc (find_org org ∷ t) vdc,
    reachable.finds_vapp (find_vdc vdc ∷ find_org org ∷ t) vapp,
    reachable.finds_vm (find_vapp vapp ∷ find_vdc vdc ∷ find_org org ∷ t) vm,
  )

  restart_vm-IsCalm :
      (vm : String) (t : Trace) → Ends (restart_vm env vm t) (λ e u. (e ≡ none) × IsCalm t u)
  restart_vm-IsCalm vm t = ground (
    arith,
    reachable.turns_off t vm,
    reachable.completes (power_off vm ∷ t) vm,
    reachable.turns_on (wait_task vm ∷ power_off vm ∷ t) vm,
    reachable.completes (power_on vm ∷ wait_task vm ∷ power_off vm ∷ t) vm,
  )

  pub reboot_vm-IsCalm :
      (org vdc vm : String) (t : Trace)
      → Ends (reboot_vm env org vdc vm t) (λ e u. (e ≡ none) × IsCalm t u)
  unfolding reboot_vm
  reboot_vm-IsCalm org vdc vm t =
      Ends-bind (get_vm_from_name env org vdc _ vm) _ t _ _ (get_vm_from_name-IsCalm org vdc _ vm t)
        λ e u (ok, calm). rw ok (
          ground (
            arith,
            eq_iff (env.vm_status u vm) "POWERED_ON",
            reachable.is_on u vm,
            restart_vm-IsCalm vm (read_vm_status vm ∷ u),
          ))

-- If vCloud Director can be reached and does what it is asked, and the cache shows the node ready
-- once the program has slept 29 times at most, then the handling of the node ends with success: the
-- node's name leaves the map, and nothing is requested of the portal.
pub handle_not_ready_node_recovers :
    (env : Env) (fuel k : ℕ) (node : Node) (c : Controller) (t : Trace)
    → IsReachable env
    → ComesBackBy env node.name k
    → k ≤ naps t + 29
    → Ends
        (handle_not_ready_node env fuel node c t)
        (λ r u. (r.0 ≡ none) × (r.1 ≡ unmark c node) × (posts u ≡ posts t))
unfolding handle_not_ready_node reboot_rounds after_connect after_reboot
    check_node_ready_status_after_repairing
handle_not_ready_node_recovers env fuel k node c t reachable back h =
    Ends-bind (create_go_vcloud_client env) _ t _ _ (create_go_vcloud_client-IsCalm env reachable t)
      λ client u (connected, calm). rw connected (
        Ends-bind (reboot_vm env client.1 client.2 node.name) _ u _ _
          (reboot_vm-IsCalm env reachable client.1 client.2 node.name u)
          λ e v (rebooted, calm').
            let (w, checked, quiet) =
              check-posts env node k v back (omega (arith, h, calm.0, calm'.0)) in
            rw rebooted (rw checked (refl, refl, quiet ∙ calm'.1 ∙ calm.1)))
