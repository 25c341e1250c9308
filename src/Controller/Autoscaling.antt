-- ===== src/Controller/Autoscaling.antt =====
-- controllers/replicaautoscaler_reconcile.go: `reconcileAutoscaling`.
use wing.Base.{
  ℤ, ◌-ℤ◌, ltb_ℤ, Dict, lookup, ◌<>◌, Result, M, bind_at, ok, err, panic, Time, Duration, Clock,
  now, tick, Float64, String, Bool, true, false, not, ◌&&◌, Option, none, some, [],
}
use wing.Api.Types.{ReplicaAutoscaler}
use wing.Api.Gvkr.{GroupVersionKindResource}
use wing.Kubernetes.{Scale}
use wing.Utils.Timerange.{TimeLibrary}
use wing.Utils.ReplicaPatches.{PatchCodec}
use wing.Utils.Status.{purge_target_status}
use wing.Utils.PanicMode.{still_in_panic_mode}
use wing.Engine.Interfaces.{ScalerOutput, Replicator}
use wing.Controller.State.{
  State, Cluster, Plugins, set_status, status_of, not_ready, not_requeue,
  requeue_delay_on_error_state, default_requeue_delay, default_scaling_cold_down,
  default_replicator,
}
use wing.Controller.Targets.{Collected, halted, collected, ask_scalers}
use wing.Controller.Limits.{working_bounds, apply_desired}

unfoldable pub selected_replicator : ReplicaAutoscaler → String
selected_replicator a = elim a.spec.replicator [ none ↦ default_replicator | some name ↦ name ]

-- Whether the last scaling is too recent, and the clock: it is read where there was a scaling.
unfoldable pub is_cold : Option Time → Bool → Clock → Bool × Clock
unfolding ◌-ℤ◌
is_cold none under k = (false, k)
is_cold (some last) under k = (ltb_ℤ (now k -ℤ last) default_scaling_cold_down && not under, tick k)

module _ {R : Type 0} where
  -- The replicator is handed its own state and the clock, and gives them back changed.
  unfoldable pub call_replicator : Replicator R → Scale → Dict ScalerOutput → M (State R) ℤ
  call_replicator replicator scale outputs s =
      let (r, t) =
        replicator (record { autoscaler = s.autoscaler; scale = scale; scalers_output = outputs })
          (record { own = s.replicator; clock = s.clock }) in
      (r, record s { replicator = t.own; clock = t.clock })

module _ (F : Type 0) ⦃f : Float64 F⦄ where
  module _ {R : Type 0} where
    unfoldable pub after_replicator :
        TimeLibrary
        → PatchCodec
        → Cluster
        → GroupVersionKindResource
        → Scale
        → Bool
        → Result ℤ × State R
        → Result Duration × State R
    unfolding working_bounds apply_desired
    after_replicator lib json cluster gvkr scale under (ok desired, s) =
        bind_at (working_bounds lib json s) (apply_desired F cluster gvkr scale under desired)
    after_replicator lib json cluster gvkr scale under (err e, s) =
        (ok requeue_delay_on_error_state, s)
    after_replicator lib json cluster gvkr scale under (panic, s) = (panic, s)

    -- The clock is read before the replicator is looked up and after it.
    unfoldable pub ask_replicator :
        TimeLibrary
        → PatchCodec
        → Cluster
        → Plugins R
        → GroupVersionKindResource
        → Scale
        → Bool
        → Dict ScalerOutput
        → M (State R) Duration
    unfolding selected_replicator lookup not_ready call_replicator after_replicator
    ask_replicator lib json cluster plugins gvkr scale under outputs s =
        let name = selected_replicator s.autoscaler in
        let s' = record s { clock = tick (tick s.clock) } in
        elim (lookup name plugins.replicators) [
          | none ↦ (
            ok not_requeue,
            not_ready "ReplicatorNotExists" ("Replicator `" <> name <> "` not exists for target")
                s',
          )
          | some replicator ↦
              after_replicator lib json cluster gvkr scale under
                (call_replicator replicator scale outputs s')
        ]

    unfoldable pub after_targets :
        TimeLibrary
        → PatchCodec
        → Cluster
        → Plugins R
        → GroupVersionKindResource
        → Scale
        → Bool
        → Result Collected × State R
        → Result Duration × State R
    unfolding ask_replicator purge_target_status
    after_targets lib json cluster plugins gvkr scale under (ok (halted delay), s) = (ok delay, s)
    after_targets lib json cluster plugins gvkr scale under (ok (collected outputs managed), s) =
        ask_replicator lib json cluster plugins gvkr scale under outputs
          (set_status (purge_target_status managed (status_of s)) s)
    after_targets lib json cluster plugins gvkr scale under (err e, s) = (err e, s)
    after_targets lib json cluster plugins gvkr scale under (panic, s) = (panic, s)

    -- Behind the cold-down: the time is read for the schedules, and the targets are asked.
    unfoldable pub scale_unless_cold :
        TimeLibrary
        → PatchCodec
        → Cluster
        → Plugins R
        → GroupVersionKindResource
        → Scale
        → String
        → Bool
        → Bool × Clock
        → M (State R) Duration
    unfolding ask_scalers after_targets
    scale_unless_cold lib json cluster plugins gvkr scale selector under (true, k) s =
        (ok default_requeue_delay, record s { clock = k })
    scale_unless_cold lib json cluster plugins gvkr scale selector under (false, k) s =
        after_targets lib json cluster plugins gvkr scale under (
          ask_scalers lib cluster plugins (now k) selector scale s.autoscaler.spec.targets [] []
            (record s { clock = tick k }))

    -- Behind the selector: the cold-down, which the panic mode skips, and the targets.
    unfoldable pub scale_by_targets :
        TimeLibrary
        → PatchCodec
        → Cluster
        → Plugins R
        → GroupVersionKindResource
        → Scale
        → String
        → M (State R) Duration
    unfolding still_in_panic_mode is_cold scale_unless_cold
    scale_by_targets lib json cluster plugins gvkr scale selector s =
        let (under, k) =
          still_in_panic_mode s.autoscaler.status s.autoscaler.spec.strategy s.clock in
        scale_unless_cold lib json cluster plugins gvkr scale selector under
          (is_cold s.autoscaler.status.last_scale_time under k) s

    unfoldable pub with_selector :
        TimeLibrary
        → PatchCodec
        → Cluster
        → Plugins R
        → GroupVersionKindResource
        → Scale
        → Result String
        → M (State R) Duration
    unfolding scale_by_targets
    with_selector lib json cluster plugins gvkr scale (ok selector) s =
        scale_by_targets lib json cluster plugins gvkr scale selector s
    with_selector lib json cluster plugins gvkr scale (err e) s =
        (ok requeue_delay_on_error_state, s)
    with_selector lib json cluster plugins gvkr scale panic s = (panic, s)

    unfoldable pub reconcile_autoscaling :
        TimeLibrary
        → PatchCodec
        → Cluster
        → Plugins R
        → GroupVersionKindResource
        → Scale
        → M (State R) Duration
    unfolding with_selector
    reconcile_autoscaling lib json cluster plugins gvkr scale =
        with_selector lib json cluster plugins gvkr scale
          (cluster.parse_selector scale.status_selector)
