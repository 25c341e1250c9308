-- ===== src/Controller/Panics/Whole.antt =====
-- A whole reconciliation.
use wing.Base.{
  Option-cases, ℤ, eqb_ℤ, All, Dict, lookup, Error, Result, ok, err, panic, Time, Duration, Clock,
  now, tick, Float64, String, refl, sym, subst, ◌≢◌, inl, inr, Bool, true, false, Option, none,
  some, [], ◌==◌,
}
use wing.Api.Types.{ReplicaPatch, replica_patches_annotation}
use wing.Api.Condition.{new_condition, condition_replica_patched, condition_false}
use wing.Api.Gvkr.{GroupVersionKindResource}
use wing.Kubernetes.{Scale}
use wing.Utils.Timerange.{TimeLibrary}
use wing.Utils.Status.{purge_target_status}
use wing.Utils.ReplicaPatches.{PatchCodec, patches_of, get_replica_patches}
use wing.Utils.Timerange.Safety.{IsCalm}
use wing.Scheduling.Safety.{get_replica_patch-ne-panic}
use wing.Engine.Interfaces.{ScalerOutput}
use wing.Controller.State.{State, Cluster, Plugins, set_status, status_of, put_condition}
use wing.Controller.Target.{get_scale_target}
use wing.Controller.Exhaust.{update_exhausted_autoscaler}
use wing.Controller.Scaling.{dry_run_flag, after_update, scale_replicas}
use wing.Controller.Targets.{Collected, halted, collected}
use wing.Controller.Limits.{
  Bounds, get_working_replica_patch, patch_bounds, working_bounds, after_scaling, apply_desired,
  normalize, set_limited, announce,
}
use wing.Controller.Autoscaling.{
  selected_replicator, after_replicator, call_replicator, ask_replicator, after_targets,
  scale_unless_cold, scale_by_targets, with_selector, reconcile_autoscaling,
}
use wing.Controller.Reconcile.{
  observe, after_static, scale_target, declare_ready, after_exhaust, after_target, unless_deleted,
  reconcile,
}
use wing.Controller.Updates.Steps.{get_scale_target-Quiet, update_exhausted_autoscaler-Quiet}
use wing.Controller.Panics.{
  IsCalmCluster, IsCalmEngine, IsFilledTarget, IsFilled, bind_at-ne-panic, if_at-ne-panic,
}
use wing.Controller.Panics.Steps.{
  get_scale_target-ne-panic, update_exhausted_autoscaler-ne-panic, ask_scalers-ne-panic,
}

module _ {R : Type 0} where
  after_update-ne-panic : (r : Option Error) (s : State R) → (after_update r s).0 ≢ panic
  unfolding after_update
  after_update-ne-panic none s = λ q. cc
  after_update-ne-panic (some e) s = λ q. cc

  scale_replicas-ne-panic :
      (cluster : Cluster) (gvkr : GroupVersionKindResource) (scale : Scale) (desired : ℤ)
      (s : State R)
      → (scale_replicas cluster gvkr scale desired s).0 ≢ panic
  unfolding scale_replicas
  scale_replicas-ne-panic cluster gvkr scale desired s =
      if_at-ne-panic (eqb_ℤ scale.spec_replicas desired) _ _ (λ q. cc)
        (if_at-ne-panic (dry_run_flag s == "false") _ _ (after_update-ne-panic _ _) (λ q. cc))

  patch_bounds-ne-panic :
      (x : Result (Option ReplicaPatch) × State R) → x.0 ≢ panic → (patch_bounds x).0 ≢ panic
  unfolding patch_bounds
  patch_bounds-ne-panic (ok none, s) h = λ q. cc
  patch_bounds-ne-panic (ok (some p), s) h = λ q. cc
  patch_bounds-ne-panic (err e, s) h = λ q. cc
  patch_bounds-ne-panic (panic, s) h = absurd (h refl)

  declare_ready-ne-panic :
      (F : Type 0) ⦃f : Float64 F⦄ (x : Result Duration × State R)
      → x.0 ≢ panic
      → (declare_ready F x).0 ≢ panic
  unfolding declare_ready
  declare_ready-ne-panic F (ok delay, t) h = λ q. cc
  declare_ready-ne-panic F (err e, t) h = λ q. cc
  declare_ready-ne-panic F (panic, t) h = absurd (h refl)

module _ (F : Type 0) ⦃f : Float64 F⦄ {R : Type 0} (lib : TimeLibrary) (json : PatchCodec)
    (cluster : Cluster) (plugins : Plugins R) (times : IsCalm lib)
    (calm_json : (text : String) → json.unmarshal text ≢ panic) (calm : IsCalmCluster cluster)
    (engine : IsCalmEngine plugins) where
  patches-ne-panic : (s : State R) → get_replica_patches json s.autoscaler ≢ panic
  unfolding get_replica_patches
  patches-ne-panic s =
      elim (Option-cases (lookup replica_patches_annotation s.autoscaler.annotations)) [
        | inl missing ↦ rw (missing, get_replica_patches) (λ q. cc)
        | inr (raw, found) ↦ rw (found, get_replica_patches) (calm_json raw)
      ]

  working_patch-ne-panic : (s : State R) → (get_working_replica_patch lib json s).0 ≢ panic
  unfolding get_working_replica_patch
  working_patch-ne-panic s =
      bind_at-ne-panic {S = State R} (get_replica_patches json s.autoscaler, s) _
        (patches-ne-panic s)
        (λ patches t. get_replica_patch-ne-panic lib times (now t.clock) (patches_of patches))

  working_bounds-ne-panic : (s : State R) → (working_bounds lib json s).0 ≢ panic
  unfolding working_bounds
  working_bounds-ne-panic s =
      let begun : State R =
        put_condition
          (new_condition condition_replica_patched condition_false "No replica patch applied" "")
          s in
      patch_bounds-ne-panic (get_working_replica_patch lib json begun)
        (working_patch-ne-panic begun)

  after_scaling-ne-panic :
      (under : Bool) (current desired : ℤ) (x : Result (Unit {0}) × State R)
      → x.0 ≢ panic
      → (after_scaling F under current desired x).0 ≢ panic
  unfolding after_scaling
  after_scaling-ne-panic under current desired (ok _, t) h = λ q. cc
  after_scaling-ne-panic under current desired (err e, t) h = λ q. cc
  after_scaling-ne-panic under current desired (panic, t) h = absurd (h refl)

  apply_desired-ne-panic :
      (gvkr : GroupVersionKindResource) (scale : Scale) (under : Bool) (desired : ℤ)
      (bounds : Bounds) (s : State R)
      → (apply_desired F cluster gvkr scale under desired bounds s).0 ≢ panic
  unfolding apply_desired
  apply_desired-ne-panic gvkr scale under desired bounds s =
      let (target, reason) = normalize bounds desired in
      let noted = set_limited reason (announce scale.spec_replicas target s) in
      after_scaling-ne-panic under scale.spec_replicas target
        (scale_replicas cluster gvkr scale target noted)
        (scale_replicas-ne-panic cluster gvkr scale target noted)

  after_replicator-ne-panic :
      (gvkr : GroupVersionKindResource) (scale : Scale) (under : Bool) (x : Result ℤ × State R)
      → x.0 ≢ panic
      → (after_replicator F lib json cluster gvkr scale under x).0 ≢ panic
  unfolding after_replicator
  after_replicator-ne-panic gvkr scale under (ok desired, t) h =
      bind_at-ne-panic (working_bounds lib json t) _ (working_bounds-ne-panic t)
        (apply_desired-ne-panic gvkr scale under desired)
  after_replicator-ne-panic gvkr scale under (err e, t) h = λ q. cc
  after_replicator-ne-panic gvkr scale under (panic, t) h = absurd (h refl)

  ask_replicator-ne-panic :
      (gvkr : GroupVersionKindResource) (scale : Scale) (under : Bool) (outputs : Dict ScalerOutput)
      (s : State R)
      → (ask_replicator F lib json cluster plugins gvkr scale under outputs s).0 ≢ panic
  unfolding ask_replicator call_replicator
  ask_replicator-ne-panic gvkr scale under outputs s =
      let name = selected_replicator s.autoscaler in
      elim (Option-cases (lookup name plugins.replicators)) [
        | inl missing ↦ rw (missing, ask_replicator) (λ q. cc)
        | inr (replicator, found) ↦
            rw (found, ask_replicator)
              (after_replicator-ne-panic gvkr scale under
                (call_replicator replicator scale outputs
                  (record s { clock = tick (tick s.clock) }))
                (engine.replicator_calm name replicator _ _ found))
      ]

  after_targets-ne-panic :
      (gvkr : GroupVersionKindResource) (scale : Scale) (under : Bool)
      (x : Result Collected × State R)
      → x.0 ≢ panic
      → (after_targets F lib json cluster plugins gvkr scale under x).0 ≢ panic
  unfolding after_targets
  after_targets-ne-panic gvkr scale under (ok (halted delay), t) h = λ q. cc
  after_targets-ne-panic gvkr scale under (ok (collected outputs managed), t) h =
      ask_replicator-ne-panic gvkr scale under outputs
        (set_status (purge_target_status managed (status_of t)) t)
  after_targets-ne-panic gvkr scale under (err e, t) h = λ q. cc
  after_targets-ne-panic gvkr scale under (panic, t) h = absurd (h refl)

  scale_unless_cold-ne-panic :
      (gvkr : GroupVersionKindResource) (scale : Scale) (selector : String) (under : Bool)
      (cold : Bool × Clock) (s : State R)
      → All IsFilledTarget s.autoscaler.spec.targets
      → (scale_unless_cold F lib json cluster plugins gvkr scale selector under cold s).0 ≢ panic
  unfolding scale_unless_cold
  scale_unless_cold-ne-panic gvkr scale selector under (true, k) s filled = λ q. cc
  scale_unless_cold-ne-panic gvkr scale selector under (false, k) s filled =
      after_targets-ne-panic gvkr scale under _ (
        ask_scalers-ne-panic cluster calm plugins engine lib (now k) selector scale
          s.autoscaler.spec.targets [] [] (record s { clock = tick k }) times filled)

  with_selector-ne-panic :
      (gvkr : GroupVersionKindResource) (scale : Scale) (r : Result String) (s : State R)
      → r ≢ panic
      → All IsFilledTarget s.autoscaler.spec.targets
      → (with_selector F lib json cluster plugins gvkr scale r s).0 ≢ panic
  unfolding with_selector scale_by_targets
  with_selector-ne-panic gvkr scale (ok selector) s h filled =
      scale_unless_cold-ne-panic gvkr scale selector _ _ s filled
  with_selector-ne-panic gvkr scale (err e) s h filled = λ q. cc
  with_selector-ne-panic gvkr scale panic s h filled = absurd (h refl)

  after_static-ne-panic :
      (x : Result (Unit {0}) × State R) → x.0 ≢ panic → (after_static F x).0 ≢ panic
  unfolding after_static
  after_static-ne-panic (ok _, t) h = λ q. cc
  after_static-ne-panic (err e, t) h = λ q. cc
  after_static-ne-panic (panic, t) h = absurd (h refl)

  scale_target-ne-panic :
      (gvkr : GroupVersionKindResource) (scale : Scale) (least : Option ℤ) (s : State R)
      → All IsFilledTarget s.autoscaler.spec.targets
      → (scale_target F lib json cluster plugins gvkr scale least s).0 ≢ panic
  unfolding scale_target reconcile_autoscaling
  scale_target-ne-panic gvkr scale none s filled =
      after_static-ne-panic _
        (scale_replicas-ne-panic cluster gvkr scale s.autoscaler.spec.max_replicas s)
  scale_target-ne-panic gvkr scale (some least) s filled =
      with_selector-ne-panic gvkr scale (cluster.parse_selector scale.status_selector) s
        (calm.parse_selector_calm _) filled

  after_exhaust-ne-panic :
      (gvkr : GroupVersionKindResource) (scale : Scale) (x : Result Duration × State R)
      → x.0 ≢ panic
      → All IsFilledTarget x.1.autoscaler.spec.targets
      → (after_exhaust F lib json cluster plugins gvkr scale x).0 ≢ panic
  unfolding after_exhaust observe
  after_exhaust-ne-panic gvkr scale (ok delay, t) h filled =
      declare_ready-ne-panic F _
        (scale_target-ne-panic gvkr scale t.autoscaler.spec.min_replicas (observe F scale t) filled)
  after_exhaust-ne-panic gvkr scale (err e, t) h filled = λ q. cc
  after_exhaust-ne-panic gvkr scale (panic, t) h filled = absurd (h refl)

  after_target-ne-panic :
      (x : Result (GroupVersionKindResource × Scale) × State R)
      → x.0 ≢ panic
      → IsFilled x.1.autoscaler.spec
      → (after_target F lib json cluster plugins x).0 ≢ panic
  unfolding after_target
  after_target-ne-panic (ok (gvkr, scale), t) h filled =
      let u = update_exhausted_autoscaler cluster scale t in
      let q = update_exhausted_autoscaler-Quiet cluster scale t in
      after_exhaust-ne-panic gvkr scale u
        (update_exhausted_autoscaler-ne-panic cluster calm scale t filled.pending_filled)
        (subst (λ spec. All IsFilledTarget spec.targets) (sym q.same_spec) filled.targets_filled)
  after_target-ne-panic (err e, t) h filled = λ q. cc
  after_target-ne-panic (panic, t) h filled = absurd (h refl)

  unless_deleted-ne-panic :
      (deleted : Option Time) (s : State R)
      → IsFilled s.autoscaler.spec
      → (unless_deleted F lib json cluster plugins deleted s).0 ≢ panic
  unfolding unless_deleted
  unless_deleted-ne-panic (some _) s filled = λ q. cc
  unless_deleted-ne-panic none s filled =
      let q = get_scale_target-Quiet cluster s in
      after_target-ne-panic (get_scale_target cluster s) (get_scale_target-ne-panic cluster calm s)
        (subst IsFilled (sym q.same_spec) filled)

  -- A reconciliation does not panic if no plugin and no library does, every target has default
  -- settings and settings for each of its schedules, and an exhaust setting of type `Pending` has its
  -- part.
  pub reconcile-ne-panic :
      (s : State R)
      → IsFilled s.autoscaler.spec
      → (reconcile F lib json cluster plugins s).0 ≢ panic
  unfolding reconcile
  reconcile-ne-panic s filled = unless_deleted-ne-panic _ s filled
