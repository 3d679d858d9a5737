-- ===== src/Env.antt =====
-- The outside world and the monad in which the program talks to it.
--
-- Every call that leaves the program is a `Call`. What the world answers is an arbitrary function
-- of the calls made so far (the trace, newest call first) and of the arguments, so a theorem over
-- every `Env` covers every behaviour of the API server, the cloud portal, vCloud Director and the
-- clock, with whatever state they keep and whatever other clients do between two calls.
use auto_repair.Common.{ℕ, String, Bool, true, false, Option, List, ◌∷◌}
use auto_repair.Common.Int.{ℤ}
use auto_repair.Kube.{Node, Pod, ConfigMap}

-- `ScaleUpBodyRequest` and `ScaleDownBodyRequest` of core/utils/utils.go and utils.go: the two
-- types have the same fields.
pub record ScaleBodyRequest : Type 0 where
  pub cluster_id : String
  pub worker_count : String
  pub scale_type : String
  pub worker_name_list : List String

-- What the API server answers about a config map: the map, that there is none, or another error.
pub data MapReply : Type 0 where
  has_map : ConfigMap → MapReply
  not_found : String → MapReply
  map_error : String → MapReply

-- What the API server answers to an eviction: nil, that there is no such pod, or another error.
pub data EvictReply : Type 0 where
  evicted : EvictReply
  no_such_pod evict_failed : String → EvictReply

-- One item of `Cluster.Data`, with the fields that the program reads.
pub record ClusterItem : Type 0 where
  pub id : String
  pub cluster_id : String
  pub status : String

-- `client.Do` and `ioutil.ReadAll`: no response at all, a body that cannot be read, or an answer.
pub data HttpReply (A : Type 0) : Type 0 where
  no_response : String → HttpReply A
  unreadable : String → HttpReply A
  answered : A → HttpReply A

-- `VCDConfig.VCD` of vcd/FetchVcdInformation.go, with the fields that the program reads.
pub record VcdConfig : Type 0 where
  pub host : String
  pub org : String
  pub vdc : String

-- `Config` of vcd/CreateClient.go
pub record Config : Type 0 where
  pub user : String
  pub password : String
  pub org : String
  pub href : String
  pub vdc : String

pub data Call : Type 0 where
  -- the cloud portal's API
  list_clusters : String → String → Call
  post_scale : String → String → ScaleBodyRequest → Call
  -- the Kubernetes API server
  get_secret : String → Call
  get_config_map : String → Call
  list_pods : Call
  get_replica_set : String → String → Call
  list_nodes : Call
  get_map delete_map : String → String → Call
  create_map update_map : ConfigMap → Call
  -- an eviction with its grace period, the patch that makes a node unschedulable, a deletion with its
  -- grace period, and an event on a pod
  evict : String → String → ℤ → Call
  cordon : String → Call
  delete_pod : String → String → ℕ → Call
  pod_event : Pod → String → String → String → Call
  record_event : ConfigMap → String → String → String → Call
  -- the informer's cache
  lister_get : String → Call
  lister_list : Call
  -- vCloud Director
  authenticate : Config → Call
  find_org find_vdc find_vapp find_vm : String → Call
  read_vm_status : String → Call
  power_off : String → Call
  power_on : String → Call
  wait_task : String → Call
  -- the controller's work queue
  queue_add : Node → Call
  queue_get : Call
  queue_forget : Node → Call
  -- the clock
  read_clock : Call
  sleep : ℕ → Call

abbrev pub Trace : Type 0
Trace = List Call

pub record Env : Type 0 where
  -- A `none` of the next five is an error of the API server.
  pub secret : Trace → String → Option (List (String × String))
  pub config_map : Trace → String → Option (List (String × String))
  pub pods : Trace → Option (List Pod)
  pub nodes : Trace → Option (List Node)
  -- The node of a name in the informer's cache; `none` is the nil that comes with an error.
  pub cached_node : Trace → String → Option Node
  pub cached_nodes : Trace → List Node
  -- Status.Replicas of a replica set, by namespace and name; 0 in the empty object that the client
  -- returns with an error.
  pub replicas : Trace → String → String → ℕ
  -- The items that json.Unmarshal reads from the portal's answer; none if it is no such JSON.
  pub clusters : Trace → String → String → HttpReply (List ClusterItem)
  pub scale_reply : Trace → String → String → ScaleBodyRequest → HttpReply String
  -- yaml.Unmarshal into a `VCDConfig`
  pub parse_yaml : String → VcdConfig
  -- An error of url.ParseRequestURI, if any.
  pub uri_error : String → Option String
  pub auth_error : Trace → Config → Option String
  -- Whether `GetOrgByName`, `GetVDCByName`, `GetVAppByName` and `GetVMByName` find the name.
  pub has_org : Trace → String → Bool
  pub has_vdc : Trace → String → Bool
  pub has_vapp : Trace → String → Bool
  pub has_vm : Trace → String → Bool
  -- The status of a VM, empty with an error.
  pub vm_status : Trace → String → String
  -- Whether a power request, and then its task, ends without an error.
  pub accepts_power_off : Trace → String → Bool
  pub accepts_power_on : Trace → String → Bool
  pub task_succeeds : Trace → String → Bool
  -- The next item of the work queue; none when it shuts down.
  pub next_item : Trace → Option Node
  pub time_now : Trace → ℕ
  -- A config map of a namespace and a name, and the answers to a request to create or update one and
  -- to delete one.
  pub map_of : Trace → String → String → MapReply
  pub created : Trace → ConfigMap → MapReply
  pub updated : Trace → ConfigMap → MapReply
  pub delete_error : Trace → String → String → Option String
  pub evict_reply : Trace → String → String → EvictReply
  -- The text of the error with which the informer's cache has no node of a name.
  pub cache_error : Trace → String → String
  -- The method Format of time.Time, with the layout `ConfigMapLastUpdateFormat`.
  pub format_time : ℕ → String

-- How the process can end inside a call: klog.Fatalf or log.Fatal, a nil pointer, an index or a
-- slice bound out of range, or an assignment to a nil map.
pub data Crash : Type 0 where
  fatal nil_pointer out_of_range nil_map : Crash

-- `unfinished` means that the fuel of a loop ran out.
pub data Run (A : Type 0) : Type 0 where
  done : A → Trace → Run A
  crashed : Crash → Trace → Run A
  unfinished : Trace → Run A

abbrev pub Io : Type 0 → Type 0
Io A = Trace → Run A

abbrev pub pure : {A : Type 0} → A → Io A
pure a t = done a t

abbrev pub crash : {A : Type 0} → Crash → Io A
crash c t = crashed c t

abbrev pub no_fuel : {A : Type 0} → Io A
no_fuel t = unfinished t

infixl 5 ◌>>=◌ ◌>>◌
abbrev pub ◌>>=◌ : {A B : Type 0} → Io A → (A → Io B) → Io B
◌>>=◌ m f t = elim (m t) [
  | done a u ↦ f a u
  | crashed c u ↦ crashed c u
  | unfinished u ↦ unfinished u
]

abbrev pub ◌>>◌ : {A B : Type 0} → Io A → Io B → Io B
m >> k = m >>= λ _. k

-- Go's if statement: the branch that is not taken is not run.
infix 1 test◌then◌else◌
abbrev pub test◌then◌else◌ : {A : Type 0} → Bool → Io A → Io A → Io A
test◌then◌else◌ b m k t = elim b [ true ↦ m t | false ↦ k t ]

-- A call, answered from the calls before it.
abbrev pub ask : {A : Type 0} → Call → (Trace → A) → Io A
ask c answer t = done (answer t) (c ∷ t)

abbrev pub tell : Call → Io (Unit {0})
tell c = ask c (λ _. tt)

-- time.Second and time.Minute, in nanoseconds
abbrev pub second : ℕ
second = 1_000_000_000

abbrev pub minute : ℕ
minute = 60_000_000_000
