-- ===== src/Controller.antt =====
-- pkg/controllers/pod.go: the pod reconciler. Its state is the cache of the images of each pod, the
-- reference counts of the images, and what it did to metrics, pods and events.
pub mod Statistics
pub mod Events
pub mod Reconcile
pub mod Counting
pub mod Invariant
pub mod Leaks
pub mod Evictions
pub mod Gauge
mod Examples
use noe.Common.{String, List}
pub use noe.Common.Integers.{ℤ, pos, negsuc, increment, decrement, is_zero}
use noe.Common.Maps.{Map}
use noe.Kube.{Object}
use noe.Hook.{Platform}

-- imageUsage
pub record ImageUsage : Type 0 where
  pub platforms : List Platform
  pub refcount : ℤ

-- A change of the gauge vector ImageCount at an image and a platform.
pub data GaugeOp : Type 0 where
  inc dec delete_values : String → Platform → GaugeOp

-- A call of Client.Delete with its pod, and the namespace and the status of the increment of
-- PodDeletedTotal that follows it.
pub record Deletion : Type 0 where
  pub pod : Object
  pub namespace : String
  pub status : String

-- The arguments of a call of upsertPodDeletionEvent.
pub record DeletionEvent : Type 0 where
  pub owner : Object
  pub pod_name : String
  pub event_type : String
  pub name_suffix : String
  pub message_prefix : String

-- PodReconciler
pub record Reconciler : Type 0 where
  pub pod_images : Map (List String)
  pub image_platforms : Map ImageUsage
  pub gauge : List GaugeOp
  pub deletions : List Deletion
  pub events : List DeletionEvent
