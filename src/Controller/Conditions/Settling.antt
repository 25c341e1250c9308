-- ===== src/Controller/Conditions/Settling.antt =====
-- From the answer of the replicator to the update, and the panic mode.
use wing.Base.{
  if◌then◌else◌, ℤ, ltb_ℤ, eqb_ℤ, Error, Result, ok, err, panic, Float64, String, Bool, Option,
  none, some, ◌==◌,
}
use wing.Api.Types.{Conditions, ReplicaPatch}
use wing.Api.Condition.{
  get_condition, new_condition, condition_panic_mode, condition_true, condition_false,
}
use wing.Api.Gvkr.{GroupVersionKindResource}
use wing.Kubernetes.{Scale}
use wing.Utils.Timerange.{TimeLibrary}
use wing.Utils.ReplicaPatches.{PatchCodec}
use wing.Utils.PanicMode.{should_enter_panic_mode, still_in_panic_mode}
use wing.Controller.State.{State, Cluster, enter_panic_mode, exit_panic_mode}
use wing.Controller.Scaling.{
  dry_run_flag, want_replicas, stamp_scale_time, after_update, scale_replicas,
}
use wing.Controller.Limits.{
  Bounds, normalize, get_working_replica_patch, patch_bounds, working_bounds, announce,
  record_event, set_limited, leave_panic_mode, settle_panic_mode, after_scaling, apply_desired,
}
use wing.Controller.Conditions.{
  Keeps, Holds, if-Holds, if_state-Holds, bind_at-Holds, put_condition-Holds, not_ready-Holds,
}

module _ {R : Type 0} (P : Conditions → Type 0) (keeps : Keeps P) where
  after_update-Holds : (r : Option Error) (s : State R) → Holds P s → Holds P (after_update r s).1
  unfolding after_update stamp_scale_time
  after_update-Holds none s h = h
  after_update-Holds (some e) s h = not_ready-Holds P keeps _ _ s h

  pub scale_replicas-Holds :
      (cluster : Cluster) (gvkr : GroupVersionKindResource) (scale : Scale) (desired : ℤ)
      (s : State R)
      → Holds P s
      → Holds P (scale_replicas cluster gvkr scale desired s).1
  unfolding scale_replicas want_replicas stamp_scale_time
  scale_replicas-Holds cluster gvkr scale desired s h =
      if-Holds P (eqb_ℤ scale.spec_replicas desired) _ _ h
        (if-Holds P (dry_run_flag s == "false") _ _ (after_update-Holds _ _ h) h)

  patch_bounds-Holds :
      (x : Result (Option ReplicaPatch) × State R) → Holds P x.1 → Holds P (patch_bounds x).1
  unfolding patch_bounds
  patch_bounds-Holds (ok none, s) h = h
  patch_bounds-Holds (ok (some p), s) h = put_condition-Holds P keeps _ s h
  patch_bounds-Holds (err e, s) h = h
  patch_bounds-Holds (panic, s) h = h

  pub working_bounds-Holds :
      (lib : TimeLibrary) (json : PatchCodec) (s : State R)
      → Holds P s
      → Holds P (working_bounds lib json s).1
  unfolding working_bounds get_working_replica_patch
  working_bounds-Holds lib json s h =
      patch_bounds-Holds _
        (bind_at-Holds P _ _ (put_condition-Holds P keeps _ s h) (λ patches t q. q))

  announce-Holds :
      (current desired : ℤ) (s : State R) → Holds P s → Holds P (announce current desired s)
  unfolding announce record_event
  announce-Holds current desired s h =
      if_state-Holds P (eqb_ℤ current desired) _ _ h
        (if_state-Holds P (ltb_ℤ current desired) _ _ h h)

  set_limited-Holds : (reason : String) (s : State R) → Holds P s → Holds P (set_limited reason s)
  unfolding set_limited
  set_limited-Holds reason s h = put_condition-Holds P keeps _ s h

  leave_panic_mode-Holds :
      (current desired : ℤ) (s : State R) → Holds P s → Holds P (leave_panic_mode current desired s)
  unfolding leave_panic_mode record_event
  leave_panic_mode-Holds current desired s h =
      let on =
        (get_condition s.autoscaler.status.conditions condition_panic_mode).status
        == condition_true in
      let left : State R = if on then record_event (exit_panic_mode current desired) s else s in
      put_condition-Holds P keeps (new_condition condition_panic_mode condition_false "" "") left
        (if_state-Holds P on (record_event (exit_panic_mode current desired) s) s h h)

  module _ (F : Type 0) ⦃f : Float64 F⦄ where
    settle_panic_mode-Holds :
        (under : Bool) (current desired : ℤ) (s : State R)
        → Holds P s
        → Holds P (settle_panic_mode F under current desired s).1
    unfolding settle_panic_mode record_event
    settle_panic_mode-Holds under current desired s h =
        if-Holds P (should_enter_panic_mode F desired current s.autoscaler.spec.strategy) _ _
          (put_condition-Holds P keeps (new_condition condition_panic_mode condition_true "" "")
            (if under then s else record_event (enter_panic_mode current desired) s)
            (if_state-Holds P under s (record_event (enter_panic_mode current desired) s) h h))
          (if_state-Holds P
            (still_in_panic_mode s.autoscaler.status s.autoscaler.spec.strategy s.clock).0 _ _ h
            (leave_panic_mode-Holds current desired _ h))

    after_scaling-Holds :
        (under : Bool) (current desired : ℤ) (x : Result (Unit {0}) × State R)
        → Holds P x.1
        → Holds P (after_scaling F under current desired x).1
    unfolding after_scaling
    after_scaling-Holds under current desired (ok _, t) h =
        settle_panic_mode-Holds under current desired t h
    after_scaling-Holds under current desired (err e, t) h = h
    after_scaling-Holds under current desired (panic, t) h = h

    pub apply_desired-Holds :
        (cluster : Cluster) (gvkr : GroupVersionKindResource) (scale : Scale) (under : Bool)
        (desired : ℤ) (bounds : Bounds) (s : State R)
        → Holds P s
        → Holds P (apply_desired F cluster gvkr scale under desired bounds s).1
    unfolding apply_desired
    apply_desired-Holds cluster gvkr scale under desired bounds s h =
        let (target, reason) = normalize bounds desired in
        let announced = announce scale.spec_replicas target s in
        after_scaling-Holds under scale.spec_replicas target
          (scale_replicas cluster gvkr scale target (set_limited reason announced))
          (scale_replicas-Holds cluster gvkr scale target (set_limited reason announced)
            (set_limited-Holds reason announced (announce-Holds scale.spec_replicas target s h)))
