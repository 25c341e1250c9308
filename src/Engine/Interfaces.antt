-- ===== src/Engine/Interfaces.antt =====
-- core/engine/scaler.go and replicator.go. A scaler may change the status that its context points
-- to, a replicator its own state `R`; both read the clock. The informer factory of a scaler's context
-- is an argument of the scalers that use it.
use wing.Base.{ℤ, Dict, ◌<>◌, Result, explain, M, Clock, String, List}
use wing.Api.Types.{Raw, ReplicaAutoscaler, ReplicaAutoscalerStatus}
use wing.Api.Gvkr.{CrossVersionObjectReference}
use wing.Kubernetes.{Scale}

pub record ScalerOutput : Type 0 where
  pub desired_replicas : ℤ
  pub managed_target_status : List String

pub record ScalerContext : Type 0 where
  pub raw_settings : Raw
  pub scale_target_ref : CrossVersionObjectReference
  pub namespace : String
  pub scaled_object_selector : String
  pub current_replicas : ℤ

pub record ScalerState : Type 0 where
  pub status : ReplicaAutoscalerStatus
  pub clock : Clock

abbrev pub Scaler : Type 0
Scaler = ScalerContext → M ScalerState ScalerOutput

-- `unmarshal` is json.Unmarshal into the receiver's type.
unfoldable pub load_settings {ℓ} : {A : Type ℓ} → (Raw → Result A) → ScalerContext → Result A
load_settings unmarshal c =
    explain ("invalid settings `" <> c.raw_settings <> "`: ") (unmarshal c.raw_settings)

pub record ReplicatorContext : Type 0 where
  pub autoscaler : ReplicaAutoscaler
  pub scale : Scale
  pub scalers_output : Dict ScalerOutput

pub record ReplicatorState (R : Type 0) : Type 0 where
  pub own : R
  pub clock : Clock

abbrev pub Replicator : Type 0 → Type 0
Replicator R = ReplicatorContext → M (ReplicatorState R) ℤ
