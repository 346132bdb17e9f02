-- ===== src/Kube.antt =====
-- The Kubernetes API objects that Noe reads and writes (k8s.io/api, outside the repository), with
-- the fields that it uses. A pointer or a map that may be nil is an `Option`; a slice is a list,
-- since the code treats a nil slice as an empty one. `unread` stands for all other fields.
pub mod Scheduling
use noe.Common.{Bool, ℕ, String, Option, List}
use noe.Common.Maps.{Map}

-- The operators of a node selector requirement.
pub data Operator : Type 0 where
  is_in not_in exists does_not_exist gt lt : Operator

-- v1.NodeSelectorRequirement
pub record Requirement : Type 0 where
  pub key : String
  pub operator : Operator
  pub values : List String

-- v1.NodeSelectorTerm
pub record Term : Type 0 where
  pub match_expressions : List Requirement
  pub match_fields : List Requirement

-- v1.NodeSelector
pub record NodeSelector : Type 0 where
  pub terms : List Term

-- v1.NodeAffinity; `required` is RequiredDuringSchedulingIgnoredDuringExecution
pub record NodeAffinity : Type 0 where
  pub required : Option NodeSelector
  pub unread : String

-- v1.Affinity
pub record Affinity : Type 0 where
  pub node_affinity : Option NodeAffinity
  pub unread : String

-- v1.Container
pub record Container : Type 0 where
  pub image : String
  pub unread : String

-- v1.PodSpec
pub record PodSpec : Type 0 where
  pub node_name : String
  pub node_selector : Option (Map String)
  pub affinity : Option Affinity
  pub containers : List Container
  pub init_containers : List Container
  pub image_pull_secrets : List String
  pub unread : String

-- metav1.OwnerReference
pub record OwnerReference : Type 0 where
  pub api_version : String
  pub kind : String
  pub name : String
  pub uid : String
  pub controller : Option Bool

-- What an event says of the object that it is about, and what is read of any client.Object.
pub record Object : Type 0 where
  pub api_version : String
  pub kind : String
  pub name : String
  pub namespace : String
  pub uid : String

-- v1.PodCondition
pub record Condition : Type 0 where
  pub type_name : String
  pub status : String

-- v1.Pod
pub record Pod : Type 0 where
  pub object : Object
  pub labels : Map String
  pub owner_references : List OwnerReference
  pub spec : PodSpec
  pub phase : String
  pub conditions : List Condition

-- appsv1.DaemonSet, with its pod template
pub record DaemonSet : Type 0 where
  pub object : Object
  pub template_labels : Map String
  pub template_spec : PodSpec

-- v1.Node
pub record Node : Type 0 where
  pub name : String
  pub labels : Map String

-- v1.Event; a time is a number, and 0 is the zero time
pub record Event : Type 0 where
  pub message : String
  pub type_name : String
  pub count : ℕ
  pub series_count : Option ℕ
  pub last_observed_time : ℕ
  pub reason : String
  pub component : String
  pub first_timestamp : ℕ
  pub last_timestamp : ℕ
  pub involved_object : Object
