-- ===== src/Main.antt =====
-- utils.go of package main: the functions that it has word for word in common with core/utils/utils.go.
-- The controller calls `GetIDCluster`, `GetClusterID` and `GetDomainApiConformEnv` of this file.
use auto_repair.Common.{ℕ, String, Bool, Option, List}
use auto_repair.Common.Int.{ℤ}
use auto_repair.Kube.{Node, Pod}
use auto_repair.Env.{Env, Io}
use auto_repair.Env
use auto_repair.NodeUtils.{Affinity}
use auto_repair.Portal.{Target}
use auto_repair.NodeUtils
use auto_repair.Portal
use auto_repair.Settings

abbrev pub is_virtual_node : Node → Bool
is_virtual_node = NodeUtils.is_virtual_node

abbrev pub has_hard_inter_pod_affinity : Option Affinity → Bool
has_hard_inter_pod_affinity = NodeUtils.has_hard_inter_pod_affinity

abbrev pub get_node_cores_and_memory : Node → ℤ × ℤ
get_node_cores_and_memory = NodeUtils.get_node_cores_and_memory

abbrev pub get_node_resource : Node → String → ℤ
get_node_resource = NodeUtils.get_node_resource

abbrev pub get_oldest_create_time : Env → List Pod → Io ℕ
get_oldest_create_time = NodeUtils.get_oldest_create_time

abbrev pub get_min_size_node_group : Env → Io ℤ
get_min_size_node_group = Settings.get_min_size_node_group

abbrev pub get_max_size_node_group : Env → Io ℤ
get_max_size_node_group = Settings.get_max_size_node_group

abbrev pub get_call_back_url : Env → Io String
get_call_back_url = Settings.get_call_back_url

abbrev pub get_access_token : Env → Io String
get_access_token = Settings.get_access_token

abbrev pub get_vpc_id : Env → Io String
get_vpc_id = Settings.get_vpc_id

abbrev pub get_cluster_id : Env → Io String
get_cluster_id = Settings.get_cluster_id

abbrev pub get_id_cluster : Env → Target → Io String
get_id_cluster = Portal.get_id_cluster

abbrev pub check_status_cluster : Env → Target → Io Bool
check_status_cluster = Portal.check_status_cluster

abbrev pub check_error_status_cluster : Env → Target → Io Bool
check_error_status_cluster = Portal.check_error_status_cluster

abbrev pub perform_scale_up : Env → Target → ℕ → Io (String × Option String)
perform_scale_up = Portal.perform_scale_up

abbrev pub perform_scale_down : Env → Target → List String → Io (Unit {0})
perform_scale_down = Portal.perform_scale_down

abbrev pub get_domain_api_conform_env : String → String
get_domain_api_conform_env = Portal.get_domain_api_conform_env

-- The type `Cluster`, by the items of its `Data`, and the two types of request bodies.
abbrev pub Cluster : Type 0
Cluster = List Env.ClusterItem

abbrev pub ScaleUpBodyRequest : Type 0
ScaleUpBodyRequest = Env.ScaleBodyRequest

abbrev pub ScaleDownBodyRequest : Type 0
ScaleDownBodyRequest = Env.ScaleBodyRequest
