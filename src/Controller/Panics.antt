-- ===== src/Controller/Panics.antt =====
-- Where controllers/replicaautoscaler_reconcile.go may panic, and what it relies on not to.
pub mod Steps
pub mod Whole
pub mod Returns
pub mod Exhausting
use wing.Base.{
  if◌then◌else◌, ℤ, All, lookup, Result, M, bind_at, ok, err, panic, String, ◌≡◌, refl, ◌≢◌, Bool,
  true, false, none, some,
}
use wing.Api.Types.{Raw, ReplicaAutoscalerSpec, ReplicaAutoscalerTarget, IntOrString, Exhaust}
use wing.Api.Gvkr.{GroupResource}
use wing.Utils.ReplicaPatches.{PatchCodec}
use wing.Engine.Interfaces.{
  Scaler, ScalerContext, ScalerState, Replicator, ReplicatorContext, ReplicatorState,
}
use wing.Controller.State.{State, Cluster, Plugins}
use wing.Controller.Exhaust.{on_pending}

-- The libraries behind the cluster return errors, and do not panic.
pub record IsCalmCluster (cluster : Cluster) : Type 0 where
  pub parse_group_version_calm : (text : String) → cluster.mapper.parse_group_version text ≢ panic
  pub rest_mapping_calm :
      (group kind version : String) → cluster.mapper.rest_mapping group kind version ≢ panic
  pub get_scale_calm :
      (gr : GroupResource) (namespace name : String) → cluster.get_scale gr namespace name ≢ panic
  pub parse_selector_calm : (text : String) → cluster.parse_selector text ≢ panic
  pub list_pods_calm : (namespace selector : String) → cluster.list_pods namespace selector ≢ panic
  pub scaled_value_calm : (v : IntOrString) (total : ℤ) → cluster.scaled_value v total ≢ panic
  pub merge_patch_calm : (a b : Raw) → cluster.merge_patch a b ≢ panic

-- No plugin panics.
pub record IsCalmEngine {R : Type 0} (plugins : Plugins R) : Type 0 where
  pub scaler_calm :
      (name : String) (scaler : Scaler) (c : ScalerContext) (x : ScalerState)
      → lookup name plugins.scalers ≡ some scaler
      → (scaler c x).0 ≢ panic
  pub replicator_calm :
      (name : String) (replicator : Replicator R) (c : ReplicatorContext) (x : ReplicatorState R)
      → lookup name plugins.replicators ≡ some replicator
      → (replicator c x).0 ≢ panic

-- A target with default settings, and with settings for each of its schedules.
abbrev pub IsFilledTarget : ReplicaAutoscalerTarget → Type 0
IsFilledTarget t = (t.settings.default ≢ none) × All (λ s. s.settings ≢ none) t.settings.schedules

-- The optional parts that the code dereferences are there.
pub record IsFilled (spec : ReplicaAutoscalerSpec) : Type 0 where
  pub targets_filled : All IsFilledTarget spec.targets
  pub pending_filled : (e : Exhaust) → on_pending spec.exhaust ≡ some e → e.pending ≢ none

module _ {S : Type 0} where
  pub bind_at-ne-panic {ℓ κ} :
      {A : Type ℓ} {B : Type κ} (x : Result A × S) (g : A → M S B)
      → x.0 ≢ panic
      → ((a : A) (t : S) → (g a t).0 ≢ panic)
      → (bind_at x g).0 ≢ panic
  bind_at-ne-panic (ok a, t) g h k = k a t
  bind_at-ne-panic (err e, t) g h k = λ q. cc
  bind_at-ne-panic (panic, t) g h k = absurd (h refl)

  pub if_at-ne-panic {ℓ} :
      {A : Type ℓ} (b : Bool) (x y : Result A × S)
      → x.0 ≢ panic
      → y.0 ≢ panic
      → (if b then x else y).0 ≢ panic
  if_at-ne-panic true x y h k = h
  if_at-ne-panic false x y h k = k
