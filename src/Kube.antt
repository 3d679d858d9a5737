-- ===== src/Kube.antt =====
-- The Kubernetes objects that the program reads, with the fields that it reads.
use auto_repair.Common.Int.{ℤ}
use auto_repair.Common.{ℕ, String, Bool, true, false, ◌&&◌, Option, List}

-- `corev1.NodeConditionType`, by the values that the program tests for.
pub data ConditionType : Type 0 where
  node_ready disk_pressure network_unavailable : ConditionType
  other_type : String → ConditionType

-- `corev1.ConditionStatus`
pub data ConditionStatus : Type 0 where
  cond_true cond_false cond_unknown : ConditionStatus
  other_status : String → ConditionStatus

-- Times are nanoseconds since the zero value of Go's time.Time.
pub record NodeCondition : Type 0 where
  pub type : ConditionType
  pub status : ConditionStatus
  pub last_transition_time : ℕ
  pub reason : String

-- The keys of taints that the program tests for: `corev1.TaintNodeNotReady`,
-- `corev1.TaintNodeDiskPressure` and `corev1.TaintNodeNetworkUnavailable`.
pub data TaintKey : Type 0 where
  taint_not_ready taint_disk_pressure taint_network_unavailable : TaintKey
  other_key : String → TaintKey

-- `corev1.Taint`; TimeAdded is a pointer.
pub record Taint : Type 0 where
  pub key : TaintKey
  pub time_added : Option ℕ

pub record Node : Type 0 where
  pub name : String
  pub creation_timestamp : ℕ
  pub unschedulable : Bool
  pub taints : List Taint
  pub conditions : List NodeCondition
  pub annotations : List (String × String)
  pub labels : List (String × String)
  -- Status.Capacity, each quantity by its Value().
  pub capacity : List (String × ℤ)

pub record OwnerReference : Type 0 where
  pub kind : String
  pub name : String

-- `corev1.Volume`, by whether its EmptyDir is set.
pub record Volume : Type 0 where
  pub empty_dir : Bool

-- `corev1.PodCondition`; its type and reason are texts.
pub record PodCondition : Type 0 where
  pub type : String
  pub status : ConditionStatus
  pub reason : String

pub record Pod : Type 0 where
  pub name : String
  pub namespace : String
  pub node_name : String
  pub owner_references : List OwnerReference
  pub volumes : List Volume
  -- A pointer to an int64, of the Spec.
  pub termination_grace_period_seconds : Option ℤ
  pub creation_timestamp : ℕ

-- `corev1.ConfigMap`; a map of Go that is nil is none.
pub record ConfigMap : Type 0 where
  pub namespace : String
  pub name : String
  pub annotations : Option (List (String × String))
  pub data_map : Option (List (String × String))

-- `condition.Type == corev1.NodeReady`
abbrev pub is_node_ready : ConditionType → Bool
is_node_ready node_ready = true
is_node_ready disk_pressure = false
is_node_ready network_unavailable = false
is_node_ready (other_type s) = false

-- `condition.Status == corev1.ConditionTrue`
abbrev pub is_true : ConditionStatus → Bool
is_true cond_true = true
is_true cond_false = false
is_true cond_unknown = false
is_true (other_status s) = false

-- The test that the controller makes of each condition of a node.
abbrev pub says_ready : NodeCondition → Bool
says_ready c = is_node_ready c.type && is_true c.status
