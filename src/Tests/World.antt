-- ===== src/Tests/World.antt =====
-- A small cluster: one worker is ready and one is not, the portal says that the cluster has
-- succeeded, and the auto scaler allows one to three workers.
use auto_repair.Common.{
  ℕ, String, Bool, true, false, Option, none, some, List, [], ◌∷◌, if◌then◌else◌, ltb, str_eq, ◌*◌,
}
use auto_repair.Kube.{Node, NodeCondition, Pod, node_ready, cond_true, cond_unknown}
use auto_repair.Env.{Env, ClusterItem, answered, not_found, has_map, evict_failed, minute}
use auto_repair.Calls.{naps, adds}
use auto_repair.Portal.{Access, Target, target_of}
use auto_repair.Controller.{Controller}

abbrev pub ready_since : ℕ → NodeCondition
ready_since t = record {
  type = node_ready;
  status = cond_true;
  last_transition_time = t;
  reason = "KubeletReady";
}

abbrev pub lost_since : ℕ → NodeCondition
lost_since t = record {
  type = node_ready;
  status = cond_unknown;
  last_transition_time = t;
  reason = "NodeStatusUnknown";
}

abbrev pub node_of : String → NodeCondition → Node
node_of name c = record {
  name = name;
  creation_timestamp = 0;
  unschedulable = false;
  taints = [];
  conditions = c ∷ [];
  annotations = [];
  labels = [];
  capacity = [];
}

abbrev pub healthy : Node
healthy = node_of "k8s-worker1" (ready_since 0)

abbrev pub broken : Node
broken = node_of "k8s-worker2" (lost_since 0)

abbrev pub pod_of : String → Bool → Pod
pod_of node local = record {
  name = "web";
  namespace = "default";
  node_name = node;
  owner_references = record { kind = "ReplicaSet"; name = "web-rs" } ∷ [];
  volumes = record { empty_dir = local } ∷ [];
  termination_grace_period_seconds = none;
  creation_timestamp = 0;
}

abbrev pub orphan : Pod
orphan = record {
  name = "debug";
  namespace = "default";
  node_name = "k8s-worker2";
  owner_references = [];
  volumes = [];
  termination_grace_period_seconds = none;
  creation_timestamp = 0;
}

abbrev pub config : List (String × String)
config = ("min_node_group_size", "1") ∷ ("max_node_group_size", "3") ∷ []

abbrev pub item_of : String → ClusterItem
item_of status = record { id = "id-1"; cluster_id = "c1"; status = status }

abbrev pub access : Access
access = record {
  access_token = "t";
  vpc_id = "v";
  id_cluster = "id-1";
  cluster_id_portal = "c1";
  callback_url = "https://portal/api/cb";
}

abbrev pub target : Target
target = target_of access

-- The world with the given pods, and the portal's status and the broken node as functions of how
-- often the program has slept.
abbrev pub world_with : List Pod → (ℕ → String) → (ℕ → Node) → Env
world_with ps status second = record {
  secret = λ t name. some (("cluster_id", "c1") ∷ ("access_token", "t") ∷ ("vpc_id", "v") ∷ []);
  config_map = λ t name. some config;
  pods = λ t. some ps;
  nodes = λ t. some (healthy ∷ second (naps t) ∷ []);
  cached_node =
      λ t name. if str_eq name "k8s-worker1" then some healthy else some (second (naps t));
  cached_nodes = λ t. healthy ∷ broken ∷ [];
  replicas = λ t namespace name. 2;
  clusters = λ t url token. answered (item_of (status (naps t)) ∷ []);
  scale_reply = λ t url token body. answered "ok";
  parse_yaml = λ s. record { host = "https://vcd"; org = "org"; vdc = "vdc" };
  uri_error = λ s. none;
  auth_error = λ t c. none;
  has_org = λ t s. true;
  has_vdc = λ t s. true;
  has_vapp = λ t s. true;
  has_vm = λ t s. true;
  vm_status = λ t s. "POWERED_ON";
  accepts_power_off = λ t s. true;
  accepts_power_on = λ t s. true;
  task_succeeds = λ t s. true;
  next_item = λ t. none;
  time_now = λ t. 10 * minute;
  map_of = λ t namespace name. not_found "not found";
  created = λ t m. has_map m;
  updated = λ t m. has_map m;
  delete_error = λ t namespace name. none;
  format_time = λ t. "now";
  evict_reply = λ t namespace name. evict_failed "too many requests";
  cache_error = λ t name. "not found";
}

abbrev pub no_items : Controller
no_items = record { enqueue_map = [] }

-- The portal is busy until the program has slept twice.
abbrev pub busy_then_done : ℕ → String
busy_then_done n = if ltb n 2 then "SCALING" else "SUCCEEDED"

abbrev pub world : Env
world = world_with (pod_of "k8s-worker2" false ∷ []) (λ _. "SUCCEEDED") (λ _. broken)

abbrev pub head : List Node → Option Node
head [] = none
head (n ∷ ns) = some n

-- The queue hands out what was added last.
abbrev pub queueing : Env
queueing = record world { next_item = λ t. head (adds t) }
