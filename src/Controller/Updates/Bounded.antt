-- ===== src/Controller/Updates/Bounded.antt =====
-- From the answer of the replicator to the update, and a whole reconciliation.
use wing.Base.{
  ℤ, ltb_ℤ, eqb_ℤ, Error, Result, ok, err, panic, Float64, String, ◌≡◌, refl, Bool, Option, none,
  some, ◌∷◌, ◌==◌, eq_iff,
}
use wing.Api.Condition.{get_condition, condition_panic_mode, condition_true}
use wing.Api.Gvkr.{GroupVersionKindResource}
use wing.Kubernetes.{Scale}
use wing.Utils.PanicMode.{should_enter_panic_mode, still_in_panic_mode}
use wing.Controller.State.{State, Cluster}
use wing.Controller.Scaling.{
  dry_run_flag, want_replicas, stamp_scale_time, after_update, scale_replicas,
}
use wing.Controller.Limits.{
  Bounds, normalize, announce, record_event, set_limited, leave_panic_mode, settle_panic_mode,
  after_scaling, apply_desired,
}
use wing.Controller.Updates.{
  Quiet, Sends, sends_nothing, sends_one, Quiet-refl, Quiet-trans, Quiet-then-Sends,
  Sends-then-Quiet, if_state-Quiet, if-Quiet, if-Sends,
}
use wing.Controller.Updates.Steps.{ticked-Quiet, put_condition-Quiet, not_ready-Quiet}

module _ {R : Type 0} where
  pub after_update-Quiet : (r : Option Error) (s : State R) → Quiet s (after_update r s).1
  unfolding after_update stamp_scale_time
  after_update-Quiet none s = record {
    same_updates = refl;
    same_annotations = refl;
    same_spec = refl;
  }
  after_update-Quiet (some e) s = not_ready-Quiet _ _ s

  -- `scaleReplicas` asks for `desired` replicas, at most once, and only off the dry run.
  pub scale_replicas-Sends :
      (cluster : Cluster) (gvkr : GroupVersionKindResource) (scale : Scale) (desired : ℤ)
      (s : State R)
      → Sends (λ n. n ≡ desired) s (scale_replicas cluster gvkr scale desired s).1
  unfolding scale_replicas want_replicas stamp_scale_time
  scale_replicas-Sends cluster gvkr scale desired s =
      if-Sends _ s (eqb_ℤ scale.spec_replicas desired) _ _ (λ _. sends_nothing refl)
        (λ _.
          if-Sends _ s (dry_run_flag s == "false") _ _
            (λ wet.
              Sends-then-Quiet _
                {t = record (want_replicas desired s) {
                  updates = record scale { spec_replicas = desired } ∷ s.updates;
                }}
                (sends_one (record scale { spec_replicas = desired })
                  ((eq_iff (dry_run_flag s) "false").0 wet) refl refl)
                (after_update-Quiet _ _))
            (λ _. sends_nothing refl))

  pub announce-Quiet : (current desired : ℤ) (s : State R) → Quiet s (announce current desired s)
  unfolding announce record_event
  announce-Quiet current desired s = if_state-Quiet s (eqb_ℤ current desired) _ _ (Quiet-refl s) (
      if_state-Quiet s (ltb_ℤ current desired) _ _
        (record { same_updates = refl; same_annotations = refl; same_spec = refl })
        (record { same_updates = refl; same_annotations = refl; same_spec = refl }))

  pub set_limited-Quiet : (reason : String) (s : State R) → Quiet s (set_limited reason s)
  unfolding set_limited
  set_limited-Quiet reason s = put_condition-Quiet _ s

  leave_panic_mode-Quiet :
      (current desired : ℤ) (s : State R) → Quiet s (leave_panic_mode current desired s)
  unfolding leave_panic_mode record_event
  leave_panic_mode-Quiet current desired s =
      Quiet-trans
        (if_state-Quiet s
          ((get_condition s.autoscaler.status.conditions condition_panic_mode).status
            == condition_true)
          _ _ (record { same_updates = refl; same_annotations = refl; same_spec = refl })
          (Quiet-refl s))
        (put_condition-Quiet _ _)

  module _ (F : Type 0) ⦃f : Float64 F⦄ where
    pub settle_panic_mode-Quiet :
        (under : Bool) (current desired : ℤ) (s : State R)
        → Quiet s (settle_panic_mode F under current desired s).1
    unfolding settle_panic_mode record_event
    settle_panic_mode-Quiet under current desired s =
        if-Quiet s (should_enter_panic_mode F desired current s.autoscaler.spec.strategy) _ _
          (Quiet-trans
            (if_state-Quiet s under _ _ (Quiet-refl s)
              (record { same_updates = refl; same_annotations = refl; same_spec = refl }))
            (put_condition-Quiet _ _))
          (if_state-Quiet s
            (still_in_panic_mode s.autoscaler.status s.autoscaler.spec.strategy s.clock).0 _ _
            (ticked-Quiet s s _ (Quiet-refl s))
            (Quiet-trans (ticked-Quiet s s _ (Quiet-refl s))
              (leave_panic_mode-Quiet current desired _)))

    after_scaling-Sends :
        (P : ℤ → Type 0) (under : Bool) (current desired : ℤ) (s : State R)
        (x : Result (Unit {0}) × State R)
        → Sends P s x.1
        → Sends P s (after_scaling F under current desired x).1
    unfolding after_scaling
    after_scaling-Sends P under current desired s (ok _, t) q =
        Sends-then-Quiet P q (settle_panic_mode-Quiet under current desired t)
    after_scaling-Sends P under current desired s (err e, t) q = q
    after_scaling-Sends P under current desired s (panic, t) q = q

    pub apply_desired-Sends :
        (cluster : Cluster) (gvkr : GroupVersionKindResource) (scale : Scale) (under : Bool)
        (desired : ℤ) (bounds : Bounds) (s : State R)
        → Sends
            (λ n. n ≡ (normalize bounds desired).0)
            s
            (apply_desired F cluster gvkr scale under desired bounds s).1
    unfolding apply_desired
    apply_desired-Sends cluster gvkr scale under desired bounds s =
        after_scaling-Sends _ under scale.spec_replicas (normalize bounds desired).0 s _ (
          Quiet-then-Sends _
            (Quiet-trans (announce-Quiet scale.spec_replicas (normalize bounds desired).0 s)
              (set_limited-Quiet (normalize bounds desired).1 _))
            (scale_replicas-Sends cluster gvkr scale (normalize bounds desired).0 _))
