-- ===== src/Kubernetes.antt =====
-- The Kubernetes objects that the code reads, with the fields that it reads.
use wing.Base.{ℤ, Dict, Time, String, Option, List}

pub record PodCondition : Type 0 where
  pub type : String
  pub status : String
  pub last_transition_time : Time

-- A container's resource requests, in thousandths.
pub record Container : Type 0 where
  pub name : String
  pub requests : Dict ℤ

pub record PodStatus : Type 0 where
  pub phase : String
  pub conditions : List PodCondition
  pub start_time : Option Time

pub record Pod : Type 0 where
  pub name : String
  pub creation_timestamp : Time
  pub deletion_timestamp : Option Time
  pub containers : List Container
  pub status : PodStatus

abbrev pub pod_pending : String
pod_pending = "Pending"

abbrev pub pod_failed : String
pod_failed = "Failed"

-- The subresource Scale of `autoscaling/v1`.
pub record Scale : Type 0 where
  pub namespace : String
  pub name : String
  pub spec_replicas : ℤ
  pub status_replicas : ℤ
  pub status_selector : String
