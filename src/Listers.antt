-- ===== src/Listers.antt =====
-- utils/kubernetes/listers.go: the registry of listers. The client library, which keeps a store of
-- each resource up to date in the background, is a parameter: a lister reads its store as it is after
-- the calls of a trace. An error is its text.
pub mod Laws
use auto_repair.Common.{String, Bool, Option, none, some, List, ◌⊎◌, inl, inr, ℕ}
use auto_repair.Kube.{Node, Pod, PodCondition}
use auto_repair.Env.{Trace}
use auto_repair.NodeUtils.{unschedulable_pods}
use auto_repair.Readiness.{
  filter_nodes, is_node_ready_and_schedulable, is_not_node_ready_and_schedulable,
}

-- `List` with the selector that selects everything, and `Get`.
pub record Store (A : Type 0) : Type 0 where
  pub list : Trace → String ⊎ List A
  pub get : Trace → String → String ⊎ A

-- Of each resource the lister over a new store, by the number of the store, counted in the order in
-- which the program makes them, the resource's name, the namespace and the field selector of the watch.
-- Each store has a reflector of its own, so two stores of one resource may differ.
pub record Client : Type 1 where
  pub Budget : Type 0
  pub DaemonSetLister : Type 0
  pub ReplicationControllerLister : Type 0
  pub JobLister : Type 0
  pub ReplicaSetLister : Type 0
  pub StatefulSetLister : Type 0
  pub ConfigMapLister : Type 0
  pub nodes : ℕ → String → String → String → Store Node
  pub pods : ℕ → String → String → String → Store Pod
  pub budgets : ℕ → String → String → String → Store Budget
  pub daemon_sets : ℕ → String → String → String → DaemonSetLister
  pub replication_controllers : ℕ → String → String → String → ReplicationControllerLister
  pub jobs : ℕ → String → String → String → JobLister
  pub replica_sets : ℕ → String → String → String → ReplicaSetLister
  pub stateful_sets : ℕ → String → String → String → StatefulSetLister
  pub config_maps : ℕ → String → String → String → ConfigMapLister
  -- `GetPodCondition`
  pub get_pod_condition : Pod → String → Option PodCondition

-- `NodeLister`
pub record NodeLister : Type 0 where
  pub list : Trace → String ⊎ List Node
  pub get : Trace → String → String ⊎ Node

-- `PodLister` and `PodDisruptionBudgetLister`
pub record Lister (A : Type 0) : Type 0 where
  pub list : Trace → String ⊎ List A

-- apiv1.NamespaceAll and fields.Everything()
abbrev pub namespace_all : String
namespace_all = ""

abbrev pub everything : String
everything = ""

-- The filter may be nil.
unfoldable pub filtered : Option (Node → Bool) → String ⊎ List Node → String ⊎ List Node
filtered filter (inl e) = inl e
filtered none (inr nodes) = inr nodes
filtered (some filter) (inr nodes) = inr (filter_nodes nodes filter)

-- Each function is given the number of the store that it makes.
module _ (client : Client) where
  unfoldable pub new_node_lister : ℕ → Option (Node → Bool) → NodeLister
  unfolding filtered
  new_node_lister n filter =
      let store = client.nodes n "nodes" namespace_all everything in
      record { list = λ t. filtered filter (store.list t); get = store.get }

  unfoldable pub new_not_ready_node_lister : ℕ → NodeLister
  unfolding new_node_lister
  new_not_ready_node_lister n = new_node_lister n (some is_not_node_ready_and_schedulable)

  unfoldable pub new_ready_node_lister : ℕ → NodeLister
  unfolding new_node_lister
  new_ready_node_lister n = new_node_lister n (some is_node_ready_and_schedulable)

  unfoldable pub new_all_node_lister : ℕ → NodeLister
  unfolding new_node_lister
  new_all_node_lister n = new_node_lister n none

  unfoldable pub new_unschedulable_pod_in_namespace_lister : ℕ → String → Lister Pod
  unfolding unschedulable_pods
  new_unschedulable_pod_in_namespace_lister n namespace =
      let store =
        client.pods n "pods" namespace
          "spec.nodeName==,status.phase!=Succeeded,status.phase!=Failed" in
      record { list = λ t. unschedulable_pods client.get_pod_condition (store.list t) }

  unfoldable pub new_unschedulable_pod_lister : ℕ → Lister Pod
  unfolding new_unschedulable_pod_in_namespace_lister
  new_unschedulable_pod_lister n = new_unschedulable_pod_in_namespace_lister n namespace_all

  unfoldable pub new_scheduled_pod_lister : ℕ → Lister Pod
  new_scheduled_pod_lister n =
      let store =
        client.pods n "pods" namespace_all
          "spec.nodeName!=,status.phase!=Succeeded,status.phase!=Failed" in
      record { list = store.list }

  unfoldable pub new_pod_disruption_budget_lister : ℕ → Lister client.Budget
  new_pod_disruption_budget_lister n =
      let store = client.budgets n "poddisruptionbudgets" namespace_all everything in
      record { list = store.list }

  unfoldable pub new_daemon_set_lister : ℕ → client.DaemonSetLister
  new_daemon_set_lister n = client.daemon_sets n "daemonsets" namespace_all everything

  unfoldable pub new_replication_controller_lister : ℕ → client.ReplicationControllerLister
  new_replication_controller_lister n =
      client.replication_controllers n "replicationcontrollers" namespace_all everything

  unfoldable pub new_job_lister : ℕ → client.JobLister
  new_job_lister n = client.jobs n "jobs" namespace_all everything

  unfoldable pub new_replica_set_lister : ℕ → client.ReplicaSetLister
  new_replica_set_lister n = client.replica_sets n "replicasets" namespace_all everything

  unfoldable pub new_stateful_set_lister : ℕ → client.StatefulSetLister
  new_stateful_set_lister n = client.stateful_sets n "statefulsets" namespace_all everything

  unfoldable pub new_config_map_lister_for_namespace : ℕ → String → client.ConfigMapLister
  new_config_map_lister_for_namespace n namespace =
      client.config_maps n "configmaps" namespace everything

  -- `ListerRegistry`, whose methods return the fields of `listerRegistryImpl`; `NewListerRegistry`
  -- is its constructor.
  pub record ListerRegistry : Type 0 where
    pub all_node_lister : NodeLister
    pub ready_node_lister : NodeLister
    pub not_ready_node_lister : NodeLister
    pub scheduled_pod_lister : Lister Pod
    pub unschedulable_pod_lister : Lister Pod
    pub pod_disruption_budget_lister : Lister client.Budget
    pub daemon_set_lister : client.DaemonSetLister
    pub replication_controller_lister : client.ReplicationControllerLister
    pub job_lister : client.JobLister
    pub replica_set_lister : client.ReplicaSetLister
    pub stateful_set_lister : client.StatefulSetLister

  unfoldable pub new_lister_registry_with_default_listers : ListerRegistry
  unfolding new_all_node_lister new_ready_node_lister new_not_ready_node_lister
      new_scheduled_pod_lister new_unschedulable_pod_lister
  new_lister_registry_with_default_listers = record {
    all_node_lister = new_all_node_lister 4;
    ready_node_lister = new_ready_node_lister 2;
    not_ready_node_lister = new_not_ready_node_lister 3;
    scheduled_pod_lister = new_scheduled_pod_lister 1;
    unschedulable_pod_lister = new_unschedulable_pod_lister 0;
    pod_disruption_budget_lister = new_pod_disruption_budget_lister 5;
    daemon_set_lister = new_daemon_set_lister 6;
    replication_controller_lister = new_replication_controller_lister 7;
    job_lister = new_job_lister 8;
    replica_set_lister = new_replica_set_lister 9;
    stateful_set_lister = new_stateful_set_lister 10;
  }
