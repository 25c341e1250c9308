-- ===== src/Api/Types.antt =====
-- api/v1/replicaautoscaler_types.go and the types of condition.go. A pointer that may be nil is an
-- Option, an int32 or int64 an integer, a map a dictionary in which a nil map is the empty one.
use wing.Base.{String, List, Option, ℤ, pos, Dict, Time}
use wing.Api.Gvkr.{CrossVersionObjectReference}

-- A `resource.Quantity`, by the thousandths that its `MilliValue` returns.
abbrev pub Quantity : Type 0
Quantity = ℤ

-- The bytes of a `runtime.RawExtension`.
abbrev pub Raw : Type 0
Raw = String

-- `intstr.IntOrString`.
pub data IntOrString : Type 0 where
  int_value : ℤ → IntOrString
  text_value : String → IntOrString

abbrev pub utilization_metric_type : String
utilization_metric_type = "Utilization"

abbrev pub average_value_metric_type : String
average_value_metric_type = "AverageValue"

pub record MetricTarget : Type 0 where
  pub type : String
  pub value : Option Quantity
  pub average_value : Option Quantity
  pub average_utilization : Option ℤ

pub record ScheduleTargetSettings : Type 0 where
  pub timezone : String
  pub start : String
  pub end : String
  pub settings : Option Raw

pub record TargetSettings : Type 0 where
  pub default : Option Raw
  pub schedules : List ScheduleTargetSettings

pub record ReplicaAutoscalerTarget : Type 0 where
  pub metric : String
  pub metric_type : String
  pub settings : TargetSettings

pub record ReplicaAutoscalerStrategy : Type 0 where
  pub panic_window_seconds : Option ℤ
  pub panic_threshold : Option Quantity

pub record ExhaustPending : Type 0 where
  pub threshold : IntOrString
  pub timeout_seconds : ℤ

abbrev pub exhaust_on_pending : String
exhaust_on_pending = "Pending"

pub record Exhaust : Type 0 where
  pub type : String
  pub pending : Option ExhaustPending

abbrev pub default_min_replicas : ℤ
default_min_replicas = pos 1

pub record ReplicaAutoscalerSpec : Type 0 where
  pub replicator : Option String
  pub replicator_settings : Option Raw
  pub scale_target_ref : CrossVersionObjectReference
  pub min_replicas : Option ℤ
  pub max_replicas : ℤ
  pub targets : List ReplicaAutoscalerTarget
  pub strategy : Option ReplicaAutoscalerStrategy
  pub exhaust : Option Exhaust

pub record TargetStatus : Type 0 where
  pub target : String
  pub scaler : String
  pub desired_replicas : ℤ
  pub metric : MetricTarget

pub record Condition : Type 0 where
  pub type : String
  pub status : String
  pub reason : String
  pub message : String
  pub last_transition_time : Time

abbrev pub Conditions : Type 0
Conditions = List Condition

pub record ReplicaAutoscalerStatus : Type 0 where
  pub observed_generation : Option ℤ
  pub last_scale_time : Option Time
  pub current_replicas : ℤ
  pub desired_replicas : ℤ
  pub targets : List TargetStatus
  pub conditions : Conditions

-- Of the object's metadata the fields that the code reads.
pub record ReplicaAutoscaler : Type 0 where
  pub name : String
  pub namespace : String
  pub generation : ℤ
  pub deletion_timestamp : Option Time
  pub annotations : Dict String
  pub spec : ReplicaAutoscalerSpec
  pub status : ReplicaAutoscalerStatus

pub record ReplicaPatch : Type 0 where
  pub timezone : String
  pub start : String
  pub end : String
  pub retention_seconds : Option ℤ
  pub min_replicas : ℤ
  pub max_replicas : ℤ

abbrev pub replica_patches_annotation : String
replica_patches_annotation = "wing.xscaling.dev/replica-patches"

abbrev pub dry_run_annotation : String
dry_run_annotation = "wing.xscaling.dev/dry-run"
