-- ===== src/Tests/Repairing.antt =====
-- The theorems on the controller, the reboots and the replacements at concrete inputs.
use mathlib.Core.Path.{subst}
use auto_repair.Common.{
  ◌+◌, ◌*◌, ◌≤◌, true, false, none, List, [], ◌∷◌, ◌≡◌, ◌≢◌, ◌⊎◌, refl, arith, eq_iff, All, Any,
  any, if◌then◌else◌, ltb,
}
use auto_repair.Kube.{Node, Pod, says_ready}
use auto_repair.Env.{Env, minute, find_org, find_vdc, find_vapp}
use auto_repair.Calls.{naps, slept, posts, adds, adds_of, Ends, Ensures}
use auto_repair.Scaler.Removable.{MayGo, IsOrphan}
use auto_repair.Vm.{reboot_vm, get_vapp_name_from_vm_name}
use auto_repair.Vm.Laws.{EndsStarted, lookups, reboot_vm_lem}
use auto_repair.Replace.{replace_node}
use auto_repair.Controller.{Controller, contains, unmark, replace_rounds, handle_not_ready_node}
use auto_repair.NodeChecks.{is_node_not_ready_for_too_long, check_node_ready_status_after_repairing}
use auto_repair.NodeChecks.Polling.{
  IsLate, ComesBackBy, StaysUnready, is_node_not_ready_for_too_long_lem,
  check_node_ready_status_after_repairing_sees, check_node_ready_status_after_repairing_gives_up,
}
use auto_repair.Controller.Outcome.{IsSteady, Replaced, replace_node-Replaced, replace_node_guard}
use auto_repair.Controller.Marks.{Settled, handle_not_ready_node-Settled, replace_rounds_forgives}
use auto_repair.Calls.Costs.{spent}
use auto_repair.Controller.Reboots.{starts, elsewhere, handle_not_ready_node-reboots}
use auto_repair.Controller.Recovery.{IsReachable, handle_not_ready_node_recovers}
use auto_repair.Controller.Queueing.{NeverReady, handle_updates, handle_updates_queue_once}
use auto_repair.Tests.World.{
  world, world_with, config, healthy, broken, pod_of, no_items, ready_since, node_of,
}

abbrev nodes : List Node
nodes = healthy ∷ broken ∷ []

steady : IsSteady world config nodes
steady = record { same_config = λ t. refl; same_nodes = λ t. refl }

replace_node-Replaced_example :
    Ensures (replace_node world 2 broken []) (Replaced "k8s-worker2" config nodes [])
replace_node-Replaced_example = replace_node-Replaced world 2 broken config nodes steady []

handle_not_ready_node-Settled_example :
    Ensures (handle_not_ready_node world 2 broken no_items []) (Settled no_items broken)
handle_not_ready_node-Settled_example = handle_not_ready_node-Settled world 2 broken no_items []

never_ready : NeverReady world "k8s-worker2"
never_ready t n e =
    let one : broken ≡ n = ground arith in
    subst (λ (m : Node). any says_ready m.conditions ≡ false) one refl

handle_updates_queue_once_example :
    Ensures
      (handle_updates world (broken ∷ healthy ∷ broken ∷ []) no_items [])
      (λ c' u. adds_of "k8s-worker2" (adds u) ≤ 0 + (if contains [] "k8s-worker2" then 0 else 1))
handle_updates_queue_once_example =
    handle_updates_queue_once world "k8s-worker2" (broken ∷ healthy ∷ broken ∷ []) no_items []
      never_ready

handle_not_ready_node-reboots_example :
    Ensures (handle_not_ready_node world 2 broken no_items []) (λ r u.
      (spent starts u ≤ 3 + spent starts [])
      × (spent (elsewhere "k8s-worker2") u ≤ spent (elsewhere "k8s-worker2") []))
handle_not_ready_node-reboots_example = handle_not_ready_node-reboots world 2 broken no_items []

abbrev local_pods : List Pod
local_pods = pod_of "k8s-worker2" true ∷ []

abbrev crowded : Env
crowded = world_with local_pods (λ _. "SUCCEEDED") (λ _. broken)

owned : All (λ p. ¬ IsOrphan "k8s-worker2" p) local_pods
owned = ((λ (here, alone). ground arith), tt)

stuck : ¬ All (MayGo (λ _ _. 2) "k8s-worker2") local_pods
stuck h = ground (arith, eq_iff "ReplicaSet" "DaemonSet")

replace_node_guard_example :
    Ensures (replace_node crowded 2 broken []) (λ e u. (e ≢ none) × (posts u ≡ []))
replace_node_guard_example =
    replace_node_guard crowded 2 broken [] (λ _ _. 2) local_pods (λ _. refl) (λ _ _ _. refl) owned
      stuck

is_node_not_ready_for_too_long_lem_example :
    Ends (is_node_not_ready_for_too_long world broken []) (λ b u.
      (Any (IsLate (10 * minute)) broken.conditions → b ≡ true)
      × (b ≡ true → Any (IsLate (10 * minute)) broken.conditions))
is_node_not_ready_for_too_long_lem_example =
    is_node_not_ready_for_too_long_lem world (10 * minute) (10 * minute)
      (λ t. (omega arith, omega arith)) broken []

-- A node that is ready again once the program has slept twice.
abbrev recovering : Env
recovering =
    world_with [] (λ _. "SUCCEEDED")
      (λ n. if ltb n 2 then broken else node_of "k8s-worker2" (ready_since 0))

comes_back : ComesBackBy recovering "k8s-worker2" 2
comes_back t = (_, refl, λ h. ground arith)

stays_unready : StaysUnready world "k8s-worker2"
stays_unready t = (broken, refl, refl)

check_node_ready_status_after_repairing_gives_up_example :
    Ends
      (check_node_ready_status_after_repairing world broken [])
      (λ b u. (b ≡ false) × (naps u ≡ 0 + 30) × (slept u ≡ 0 + 5 * minute))
check_node_ready_status_after_repairing_gives_up_example =
    check_node_ready_status_after_repairing_gives_up world broken [] stays_unready

replace_rounds_forgives_example :
    Ensures
      (replace_rounds world 2 broken 1 no_items [])
      (λ r u. (r.0 ≡ none) × (r.1 ≡ unmark no_items broken))
replace_rounds_forgives_example = replace_rounds_forgives world 2 broken no_items [] (λ t. refl)

reboot_vm_lem_example : Ends (reboot_vm world "org" "vdc" "k8s-worker2" []) (λ e u.
    e ≡ none
    → (world.has_org [] "org" ≡ true)
      × (world.has_vdc (find_org "org" ∷ []) "vdc" ≡ true)
      × (world.has_vapp
            (find_vdc "vdc" ∷ find_org "org" ∷ [])
            (get_vapp_name_from_vm_name "k8s-worker2")
          ≡ true)
      × (world.has_vm
            (find_vapp (get_vapp_name_from_vm_name "k8s-worker2")
              ∷ find_vdc "vdc"
              ∷ find_org "org"
              ∷ [])
            "k8s-worker2"
          ≡ true)
      × ((world.vm_status (lookups "org" "vdc" "k8s-worker2" []) "k8s-worker2" ≡ "POWERED_ON")
          ⊎ (world.vm_status (lookups "org" "vdc" "k8s-worker2" []) "k8s-worker2" ≡ "POWERED_OFF"))
      × EndsStarted world "k8s-worker2" u)
reboot_vm_lem_example = reboot_vm_lem world "org" "vdc" "k8s-worker2" []

reachable : IsReachable recovering
reachable = record {
  has_secret = λ t name. (_, refl);
  has_config_map = λ t name. (_, refl);
  valid_uri = λ s. refl;
  authenticates = λ t c. refl;
  finds_org = λ t s. refl;
  finds_vdc = λ t s. refl;
  finds_vapp = λ t s. refl;
  finds_vm = λ t s. refl;
  is_on = λ t s. refl;
  turns_off = λ t s. refl;
  turns_on = λ t s. refl;
  completes = λ t s. refl;
}

abbrev marked : Controller
marked = record { enqueue_map = "k8s-worker2" ∷ [] }

handle_not_ready_node_recovers_example :
    Ends
      (handle_not_ready_node recovering 0 broken marked [])
      (λ r u. (r.0 ≡ none) × (r.1 ≡ unmark marked broken) × (posts u ≡ []))
handle_not_ready_node_recovers_example =
    handle_not_ready_node_recovers recovering 0 2 broken marked [] reachable comes_back
      (omega arith)

check_node_ready_status_after_repairing_sees_example :
    Ends
      (check_node_ready_status_after_repairing recovering broken [])
      (λ b u. (b ≡ true) × (naps u ≤ 0 + 30))
check_node_ready_status_after_repairing_sees_example =
    check_node_ready_status_after_repairing_sees recovering broken 2 [] comes_back (omega arith)
