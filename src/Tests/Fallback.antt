-- ===== src/Tests/Fallback.antt =====
-- A node that its reboots do not bring back is replaced, at a concrete input.
use auto_repair.Common.{String, true, false, List, [], ◌∷◌, ◌≡◌, ◌*◌, inl, inr, ap, refl, arith}
use auto_repair.Kube.{Node, Pod}
use auto_repair.Env.{Trace, minute}
use auto_repair.Calls.{Ends, Ends-weaken}
use auto_repair.Settings.{scan, index, atoi}
use auto_repair.Portal.{Target, Access}
use auto_repair.NodeChecks.Polling.{StaysUnready}
use auto_repair.Scaler.{check_worker_node_can_be_scale_down}
use auto_repair.Scaler.Removable.{check_worker_node_can_be_scale_down_lem}
use auto_repair.Scaler.Waiting.{RecoversBy}
use auto_repair.Controller.{contains}
use auto_repair.Controller.Recovery.{IsReachable}
use auto_repair.Controller.Outcome.{max_size_in}
use auto_repair.Common.Int.{pos}
use auto_repair.Controller.Completing.{IsReplaceable}
use auto_repair.Controller.Completing.{Requested}
use auto_repair.Controller.Schedule.{update, work, run_events}
use auto_repair.Controller.Schedule.Liveness.{late_node_replaced}
use auto_repair.Tests.World.{head, queueing, config, healthy, broken, pod_of, no_items}

abbrev secret : List (String × String)
secret = ("cluster_id", "c1") ∷ ("access_token", "t") ∷ ("vpc_id", "v") ∷ []

abbrev nodes : List Node
nodes = healthy ∷ broken ∷ []

abbrev pods : List Pod
pods = pod_of "k8s-worker2" false ∷ []

goes :
    (t : Trace)
    → Ends (check_worker_node_can_be_scale_down queueing "k8s-worker2" t) (λ b _. b ≡ true)
goes t =
    Ends-weaken (check_worker_node_can_be_scale_down queueing "k8s-worker2" t) _ _
      (check_worker_node_can_be_scale_down_lem queueing (λ _ _. 2) (λ _ _ _. refl) "k8s-worker2"
        pods t refl ((λ (here, alone). ground arith), tt))
      λ b u iff. iff.1 (inr (inr (ground arith, (refl, tt))), tt)

succeeded :
    (x : Target) → x.cluster_id_portal ≡ scan "cluster_id" secret "" → RecoversBy queueing x 0
unfolding scan
succeeded x known t items h e = ground (arith, known)

replaceable : IsReplaceable queueing "k8s-worker2" 0 secret config nodes
replaceable = record {
  steady = record { same_config = λ t. refl; same_nodes = λ t. refl };
  lists = λ t. (_, refl);
  secrets = λ t. refl;
  removable = goes;
  answers = λ x t. (_, refl);
  replies = λ t url token body. (_, refl);
  recovers = succeeded;
}

reachable : IsReachable queueing
reachable = record {
  has_secret = λ t name. (_, refl);
  has_config_map = λ t name. (_, refl);
  valid_uri = λ s. refl;
  authenticates = λ t c. refl;
  finds_org = λ t s. refl;
  finds_vdc = λ t s. refl;
  finds_vapp = λ t s. refl;
  finds_vm = λ t s. refl;
  is_on = λ t s. refl;
  turns_off = λ t s. refl;
  turns_on = λ t s. refl;
  completes = λ t s. refl;
}

stays_unready : StaysUnready queueing "k8s-worker2"
stays_unready t = (broken, refl, refl)

late_node_replaced_example :
    Ends (run_events queueing 1 (update broken ∷ work ∷ []) no_items []) (λ c' u.
      (contains c'.enqueue_map "k8s-worker2" ≡ false)
      × Requested "k8s-worker2" (pos 2) (max_size_in config) [] u)
unfolding index atoi contains
late_node_replaced_example =
    late_node_replaced queueing 1 0 (10 * minute) (10 * minute) broken no_items secret config nodes
      [] (λ t. (omega arith, omega arith)) (inl (refl, refl, omega arith)) refl
      (λ u added taken. ap head added) reachable stays_unready replaceable (omega arith)
      (omega arith) (omega arith) refl

abbrev access : Access
access = record {
  access_token = "t";
  vpc_id = "v";
  id_cluster = "";
  cluster_id_portal = "c1";
  callback_url = "";
}
