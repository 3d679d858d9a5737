-- ===== src/Tests/Working.antt =====
-- The controller at work at concrete inputs.
use auto_repair.Common.{
  ℕ, zero, suc, ◌*◌, String, some, List, [], ◌∷◌, ◌≡◌, refl, inl, arith, All, Any,
}
use auto_repair.Kube.{Node, says_ready}
use auto_repair.Env.{Env, minute}
use auto_repair.Calls.{adds, adds_of, Ensures, Ends}
use auto_repair.NodeChecks.{
  is_node_not_ready_for_too_long, check_node_ready_status_after_repairing,
  check_all_nodes_ready_status,
}
use auto_repair.Settings.{
  get_user_name, get_password, get_host, get_org, get_vdc, get_access_token, get_vpc_id,
  get_call_back_url, get_cluster_id, get_max_size, get_min_size,
}
use auto_repair.Vm.{new_client, reboot_vm}
use auto_repair.Portal.{
  get_id_cluster, get_domain_api_conform_env, check_status_cluster, perform_scale_up,
  perform_scale_down, itoa,
}
use auto_repair.Scaler.{scale_up, scale_down, check_worker_node_can_be_scale_down}
use auto_repair.Replace.{create_go_vcloud_client, replace_node}
use auto_repair.Controller.{new_controller, handle_update, process_item, handle_not_ready_node}
use auto_repair.Controller.Schedule.{Event, update, work, run_events, HandsOutAdded}
use auto_repair.Controller.Schedule.Lateness.{LateIn, touched}
use auto_repair.Controller.Schedule.Safety.{run_events-LateIn}
use mathlib.Core.Path.{subst}
use auto_repair.Common.{false, any}
use auto_repair.Controller.Queueing.{NeverReady, mark}
use auto_repair.Controller.Schedule.Standstill.{run_events-mark}
use auto_repair.Tests.World.{head, queueing, healthy, broken}

abbrev replicate : ℕ → String → List String
replicate zero s = []
replicate (suc n) s = s ∷ replicate n s

head-mem : (ns : List Node) (node : Node) → head ns ≡ some node → Any (λ n. n ≡ node) ns
head-mem [] node h = absurd (ground arith)
head-mem (n ∷ ns) node h = inl (ground arith)

hands_out : HandsOutAdded queueing
hands_out t node h = head-mem (adds t) node h

abbrev day : List Event
day = update broken ∷ update healthy ∷ work ∷ []

run_events-LateIn_example :
    Ensures
      (run_events queueing 2 day new_controller [])
      (λ c u. All (LateIn (10 * minute) (broken ∷ healthy ∷ [])) (touched u))
run_events-LateIn_example =
    run_events-LateIn queueing 2 (10 * minute) day (λ t. omega arith) hands_out

-- The late node is rebooted three times and then replaced.
worked :
    Ends
      (run_events queueing 2 day new_controller [])
      (λ c u. touched u ≡ replicate 7 "k8s-worker2")
unfolding run_events new_controller handle_update is_node_not_ready_for_too_long
    check_node_ready_status_after_repairing process_item handle_not_ready_node
    create_go_vcloud_client get_user_name get_password get_host get_org get_vdc new_client reboot_vm
    replace_node get_access_token get_vpc_id get_call_back_url get_cluster_id get_id_cluster
    get_max_size get_min_size get_domain_api_conform_env check_worker_node_can_be_scale_down
    check_all_nodes_ready_status scale_up scale_down check_status_cluster perform_scale_up
    perform_scale_down itoa
worked = refl

-- The same controller, in a cluster of which the cache shows the broken node alone.
abbrev broken_only : Env
broken_only = record queueing {
  cached_nodes = λ t. broken ∷ [];
  cached_node = λ t name. some broken;
}

all_broken : (name : String) → NeverReady broken_only name
all_broken name t n e =
    let one : broken ≡ n = ground arith in
    subst (λ (m : Node). any says_ready m.conditions ≡ false) one refl

run_events-mark_example :
    Ensures
      (run_events broken_only 2 day new_controller [])
      (λ c u. (name : String) → adds_of name (adds u) ≡ mark c name)
run_events-mark_example = run_events-mark broken_only 2 day (λ t. refl) all_broken
