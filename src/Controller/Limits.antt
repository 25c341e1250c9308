-- ===== src/Controller/Limits.antt =====
-- controllers/replicaautoscaler_reconcile.go: the end of `reconcileAutoscaling`, from the replicas
-- that the replicator wants: the limits, the scaling, and the panic mode.
pub mod Laws
use wing.Base.{
  if◌then◌else◌, ℤ, ltb_ℤ, eqb_ℤ, ◌<>◌, itoa, Result, M, bind_at, ok, err, panic, Duration, now,
  tick, Float64, String, Bool, not, Option, none, some, ◌∷◌, ◌==◌,
}
use wing.Api.Types.{ReplicaPatch, ReplicaAutoscaler, default_min_replicas}
use wing.Api.Condition.{
  new_condition, get_condition, condition_replica_patched, condition_scale_limited,
  condition_panic_mode, condition_true, condition_false,
}
use wing.Api.Gvkr.{GroupVersionKindResource}
use wing.Kubernetes.{Scale}
use wing.Scheduling.{get_replica_patch}
use wing.Utils.Timerange.{TimeLibrary}
use wing.Utils.ReplicaPatches.{PatchCodec, patches_of, get_replica_patches}
use wing.Utils.PanicMode.{should_enter_panic_mode, still_in_panic_mode}
use wing.Controller.State.{
  State, Cluster, Event, scale_up, scale_down, enter_panic_mode, exit_panic_mode, put_condition,
  status_of, requeue_delay_on_error_state, requeue_delay_on_panic_state, default_requeue_delay,
}
use wing.Controller.Scaling.{scale_replicas}

-- `maxReplicas` and `minReplicas`.
pub record Bounds : Type 0 where
  pub max_replicas : ℤ
  pub min_replicas : ℤ

unfoldable pub spec_bounds : ReplicaAutoscaler → Bounds
spec_bounds a = record {
  max_replicas = a.spec.max_replicas;
  min_replicas = elim a.spec.min_replicas [ none ↦ default_min_replicas | some m ↦ m ];
}

-- The two tests in the order of the source: the lower bound has the last word.
unfoldable pub normalize : Bounds → ℤ → ℤ × String
normalize b desired =
    let limited = ltb_ℤ b.max_replicas desired in
    let desired' = if limited then b.max_replicas else desired in
    if ltb_ℤ desired' b.min_replicas
    then (b.min_replicas, "ReachMinimalReplicas")
    else (desired', if limited then "ReachMaxReplicas" else "")

module _ {R : Type 0} where
  -- The time is read where the annotation could be decoded.
  unfoldable pub get_working_replica_patch :
      TimeLibrary → PatchCodec → M (State R) (Option ReplicaPatch)
  unfolding get_replica_patches get_replica_patch
  get_working_replica_patch lib json s =
      bind_at (get_replica_patches json s.autoscaler, s)
        λ patches s'. (
          get_replica_patch lib (now s'.clock) (patches_of patches),
          record s' { clock = tick s'.clock },
        )

  -- The bounds of a patch that works now, or else those of the spec.
  unfoldable pub patch_bounds : Result (Option ReplicaPatch) × State R → Result Bounds × State R
  unfolding spec_bounds put_condition itoa
  patch_bounds (ok none, s) = (ok (spec_bounds s.autoscaler), s)
  patch_bounds (ok (some p), s) = (
    ok (record { max_replicas = p.max_replicas; min_replicas = p.min_replicas }),
    put_condition
        (new_condition condition_replica_patched condition_true
          ("Applied replica patch [" <> itoa p.min_replicas <> ", " <> itoa p.max_replicas <> "]")
          "")
        s,
  )
  patch_bounds (err e, s) = (ok (spec_bounds s.autoscaler), s)
  patch_bounds (panic, s) = (panic, s)

  unfoldable pub working_bounds : TimeLibrary → PatchCodec → M (State R) Bounds
  unfolding get_working_replica_patch patch_bounds put_condition
  working_bounds lib json s = patch_bounds (
      get_working_replica_patch lib json (
        put_condition
          (new_condition condition_replica_patched condition_false "No replica patch applied" "")
          s))

  unfoldable pub record_event : Event → State R → State R
  record_event e s = record s { events = e ∷ s.events }

  unfoldable pub announce : ℤ → ℤ → State R → State R
  unfolding record_event
  announce current desired s =
      if eqb_ℤ current desired
      then s
      else if ltb_ℤ current desired
      then record_event (scale_up desired) s
      else record_event (scale_down desired) s

  unfoldable pub set_limited : String → State R → State R
  unfolding put_condition
  set_limited reason s =
      put_condition
        (if not (reason == "")
          then new_condition condition_scale_limited condition_true reason ""
          else new_condition condition_scale_limited condition_false "" "")
        s

  unfoldable pub leave_panic_mode : ℤ → ℤ → State R → State R
  unfolding get_condition record_event put_condition
  leave_panic_mode current desired s =
      let on =
        (get_condition s.autoscaler.status.conditions condition_panic_mode).status
        == condition_true in
      put_condition (new_condition condition_panic_mode condition_false "" "")
        (if on then record_event (exit_panic_mode current desired) s else s)

  module _ (F : Type 0) ⦃f : Float64 F⦄ where
    unfoldable pub settle_panic_mode : Bool → ℤ → ℤ → State R → Duration × State R
    unfolding should_enter_panic_mode still_in_panic_mode leave_panic_mode record_event
        put_condition
    settle_panic_mode under current desired s =
        let strategy = s.autoscaler.spec.strategy in
        if should_enter_panic_mode F desired current strategy
        then (
          requeue_delay_on_panic_state,
          put_condition (new_condition condition_panic_mode condition_true "" "")
              (if under then s else record_event (enter_panic_mode current desired) s),
        )
        else let (still, k) = still_in_panic_mode s.autoscaler.status strategy s.clock in
          let s' = record s { clock = k } in
          (default_requeue_delay, if still then s' else leave_panic_mode current desired s')

    unfoldable pub after_scaling :
        Bool → ℤ → ℤ → Result (Unit {0}) × State R → Result Duration × State R
    unfolding settle_panic_mode
    after_scaling under current desired (ok _, s) =
        let (delay, s') = settle_panic_mode under current desired s in (ok delay, s')
    after_scaling under current desired (err e, s) = (ok requeue_delay_on_error_state, s)
    after_scaling under current desired (panic, s) = (panic, s)

    unfoldable pub apply_desired :
        Cluster → GroupVersionKindResource → Scale → Bool → ℤ → Bounds → M (State R) Duration
    unfolding normalize announce set_limited scale_replicas after_scaling
    apply_desired cluster gvkr scale under desired bounds s =
        let (target, reason) = normalize bounds desired in
        after_scaling under scale.spec_replicas target (
          scale_replicas cluster gvkr scale target
            (set_limited reason (announce scale.spec_replicas target s)))
