-- ===== src/Controller/Reconcile.antt =====
-- controllers: `reconcile`, the finalizer, and `Reconcile` of replicaautoscaler_controller.go.
pub mod Ready
pub mod Answers
use wing.Base.{
  ℤ, ◌<>◌, error_text, Result, M, ok, err, panic, Time, Duration, Float64, Option, none, some,
}
use wing.Api.Types.{ReplicaAutoscaler, ReplicaAutoscalerStatus}
use wing.Api.Condition.{new_condition, condition_ready, condition_true}
use wing.Api.Gvkr.{GroupVersionKindResource}
use wing.Kubernetes.{Scale}
use wing.Utils.Timerange.{TimeLibrary}
use wing.Utils.ReplicaPatches.{PatchCodec, PatchState, purge_unused_replica_patches}
use wing.Controller.State.{
  State, Cluster, Plugins, set_status, status_of, put_condition, not_ready, not_requeue,
  requeue_delay_on_error_state, default_requeue_delay,
}
use wing.Controller.Target.{get_scale_target}
use wing.Controller.Scaling.{scale_replicas}
use wing.Controller.Exhaust.{update_exhausted_autoscaler}
use wing.Controller.Autoscaling.{reconcile_autoscaling}

-- The finalizer does nothing yet.
unfoldable pub finalize_autoscaler : Duration
finalize_autoscaler = default_requeue_delay

module _ (F : Type 0) ⦃f : Float64 F⦄ where
  module _ {R : Type 0} where
    -- What is observed of the target before it is scaled.
    unfoldable pub observe : Scale → State R → State R
    observe scale s =
        set_status
          (record (status_of s) {
            observed_generation = some s.autoscaler.generation;
            current_replicas = scale.status_replicas;
          })
          s

    unfoldable pub after_static : Result (Unit {0}) × State R → Result Duration × State R
    after_static (ok _, s) = (ok not_requeue, s)
    after_static (err e, s) = (ok requeue_delay_on_error_state, s)
    after_static (panic, s) = (panic, s)

    -- A nil `MinReplicas` is a static setting, whose delay is that of the exhaust test, which is zero.
    unfoldable pub scale_target :
        TimeLibrary
        → PatchCodec
        → Cluster
        → Plugins R
        → GroupVersionKindResource
        → Scale
        → Option ℤ
        → M (State R) Duration
    unfolding scale_replicas after_static reconcile_autoscaling
    scale_target lib json cluster plugins gvkr scale none s =
        after_static (scale_replicas cluster gvkr scale s.autoscaler.spec.max_replicas s)
    scale_target lib json cluster plugins gvkr scale (some min_replicas) s =
        reconcile_autoscaling F lib json cluster plugins gvkr scale s

    -- `reconcile` ends by declaring the autoscaler ready.
    unfoldable pub declare_ready : Result Duration × State R → Result Duration × State R
    unfolding put_condition
    declare_ready (ok delay, s) =
        (ok delay, put_condition (new_condition condition_ready condition_true "" "") s)
    declare_ready (err e, s) = (err e, s)
    declare_ready (panic, s) = (panic, s)

    unfoldable pub after_exhaust :
        TimeLibrary
        → PatchCodec
        → Cluster
        → Plugins R
        → GroupVersionKindResource
        → Scale
        → Result Duration × State R
        → Result Duration × State R
    unfolding observe scale_target declare_ready
    after_exhaust lib json cluster plugins gvkr scale (ok delay, s) = declare_ready (
        scale_target lib json cluster plugins gvkr scale s.autoscaler.spec.min_replicas
          (observe scale s))
    after_exhaust lib json cluster plugins gvkr scale (err e, s) =
        (ok requeue_delay_on_error_state, s)
    after_exhaust lib json cluster plugins gvkr scale (panic, s) = (panic, s)

    unfoldable pub after_target :
        TimeLibrary
        → PatchCodec
        → Cluster
        → Plugins R
        → Result (GroupVersionKindResource × Scale) × State R
        → Result Duration × State R
    unfolding not_ready error_text update_exhausted_autoscaler after_exhaust
    after_target lib json cluster plugins (ok (gvkr, scale), s) =
        after_exhaust lib json cluster plugins gvkr scale
          (update_exhausted_autoscaler cluster scale s)
    after_target lib json cluster plugins (err e, s) = (
      ok not_requeue,
      not_ready "FailedToGetScaleTarget" ("Failed to get scale target: " <> error_text e) s,
    )
    after_target lib json cluster plugins (panic, s) = (panic, s)

    -- An object that is being deleted is finalized.
    unfoldable pub unless_deleted :
        TimeLibrary → PatchCodec → Cluster → Plugins R → Option Time → M (State R) Duration
    unfolding get_scale_target after_target finalize_autoscaler
    unless_deleted lib json cluster plugins (some _) s = (ok finalize_autoscaler, s)
    unless_deleted lib json cluster plugins none s =
        after_target lib json cluster plugins (get_scale_target cluster s)

    unfoldable pub reconcile : TimeLibrary → PatchCodec → Cluster → Plugins R → M (State R) Duration
    unfolding unless_deleted
    reconcile lib json cluster plugins s =
        unless_deleted lib json cluster plugins s.autoscaler.deletion_timestamp s
