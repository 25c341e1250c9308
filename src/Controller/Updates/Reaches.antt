-- ===== src/Controller/Updates/Reaches.antt =====
-- What the target is asked for, by `scaleReplicas` and the end of `reconcileAutoscaling`.
use wing.Base.{
  Bool-cases, none-ne-some, true-ne-false, ℤ, eqb_ℤ, eqb_ℤ_iff, Result, ok, err, panic, Duration,
  Float64, ◌≡◌, refl, sym, ap, ◌∙◌, subst, ◌≢◌, inl, inr, Bool, true, Option, none, some, ◌∷◌, ◌==◌,
  eq_iff,
}
use wing.Api.Condition.{new_condition, condition_ready, condition_true}
use wing.Api.Gvkr.{GroupVersionKindResource}
use wing.Kubernetes.{Scale}
use wing.Utils.Timerange.{TimeLibrary}
use wing.Utils.ReplicaPatches.{PatchCodec}
use wing.Controller.State.{State, Cluster, Plugins}
use wing.Controller.Target.{get_scale_target}
use wing.Controller.Exhaust.{update_exhausted_autoscaler}
use wing.Controller.Scaling.{dry_run_flag, want_replicas, scale_replicas}
use wing.Controller.Limits.{Bounds, normalize, announce, set_limited, after_scaling, apply_desired}
use wing.Controller.Reconcile.{
  observe, after_static, scale_target, declare_ready, after_exhaust, after_target, reconcile,
}
use wing.Controller.Reconcile.Ready.{unless_deleted-none}
use wing.Controller.Updates.{Quiet, Quiet-trans, dry_run_flag_congr}
use wing.Controller.Updates.Steps.{
  put_condition-Quiet, get_scale_target-Quiet, update_exhausted_autoscaler-Quiet,
}
use wing.Controller.Updates.Bounded.{
  announce-Quiet, set_limited-Quiet, settle_panic_mode-Quiet, after_update-Quiet,
}

module _ {R : Type 0} where
  -- The target has `n` replicas already and no update is sent, or it has not and one to `n` is.
  pub data Reaches (n : ℤ) (scale : Scale) (s t : State R) : Type 0 where
    there : scale.spec_replicas ≡ n → t.updates ≡ s.updates → Reaches n scale s t
    asked :
        scale.spec_replicas ≢ n
        → t.updates ≡ record scale { spec_replicas = n } ∷ s.updates
        → Reaches n scale s t

  pub Reaches-from :
      {n : ℤ} {scale : Scale} {s t u : State R}
      → t.updates ≡ s.updates
      → Reaches n scale t u
      → Reaches n scale s u
  Reaches-from e (there same sent) = there same (sent ∙ e)
  Reaches-from {n} {scale} e (asked other sent) =
      asked other (sent ∙ ap (◌∷◌ (record scale { spec_replicas = n })) e)

  pub Reaches-then :
      {n : ℤ} {scale : Scale} {s t u : State R}
      → Reaches n scale s t
      → u.updates ≡ t.updates
      → Reaches n scale s u
  Reaches-then (there same sent) e = there same (e ∙ sent)
  Reaches-then (asked other sent) e = asked other (e ∙ sent)

  scale_replicas-Reaches :
      (cluster : Cluster) (gvkr : GroupVersionKindResource) (scale : Scale) (desired : ℤ)
      (s : State R)
      → dry_run_flag s ≡ "false"
      → Reaches desired scale s (scale_replicas cluster gvkr scale desired s).1
  unfolding scale_replicas want_replicas
  scale_replicas-Reaches cluster gvkr scale desired s wet =
      elim (Bool-cases (eqb_ℤ scale.spec_replicas desired)) [
        | inl same ↦
            rw (same, scale_replicas) (there ((eqb_ℤ_iff scale.spec_replicas desired).0 same) refl)
        | inr other ↦
            let wet' : (dry_run_flag s == "false") ≡ true =
              (eq_iff (dry_run_flag s) "false").1 wet in
            rw (other, wet', scale_replicas)
              (Reaches-then
                {t = record (want_replicas desired s) {
                  updates = record scale { spec_replicas = desired } ∷ s.updates;
                }}
                (asked
                  (λ e. true-ne-false (sym ((eqb_ℤ_iff scale.spec_replicas desired).1 e) ∙ other))
                  refl)
                (after_update-Quiet _ _).same_updates)
      ]

  module _ (F : Type 0) ⦃f : Float64 F⦄ where
    after_scaling_updates :
        (under : Bool) (current desired : ℤ) (x : Result (Unit {0}) × State R)
        → (after_scaling F under current desired x).1.updates ≡ x.1.updates
    unfolding after_scaling
    after_scaling_updates under current desired (ok _, t) =
        (settle_panic_mode-Quiet F under current desired t).same_updates
    after_scaling_updates under current desired (err e, t) = refl
    after_scaling_updates under current desired (panic, t) = refl

    pub apply_desired-Reaches :
        (cluster : Cluster) (gvkr : GroupVersionKindResource) (scale : Scale) (under : Bool)
        (desired : ℤ) (bounds : Bounds) (s : State R)
        → dry_run_flag s ≡ "false"
        → Reaches
            (normalize bounds desired).0
            scale
            s
            (apply_desired F cluster gvkr scale under desired bounds s).1
    unfolding apply_desired
    apply_desired-Reaches cluster gvkr scale under desired bounds s wet =
        let (n, reason) = normalize bounds desired in
        let announced = announce scale.spec_replicas n s in
        let noted = set_limited reason announced in
        let q : Quiet s noted =
          Quiet-trans (announce-Quiet scale.spec_replicas n s)
            (set_limited-Quiet reason announced) in
        Reaches-then
          (Reaches-from q.same_updates (
            scale_replicas-Reaches cluster gvkr scale n noted
              (dry_run_flag_congr s noted q.same_annotations ∙ wet)))
          (after_scaling_updates under scale.spec_replicas n
            (scale_replicas cluster gvkr scale n noted))

  module _ (F : Type 0) ⦃f : Float64 F⦄ (lib : TimeLibrary) (json : PatchCodec) (cluster : Cluster)
      (plugins : Plugins R) (gvkr : GroupVersionKindResource) (scale : Scale) where
    pub declare_ready_updates :
        (x : Result Duration × State R) → (declare_ready F x).1.updates ≡ x.1.updates
    unfolding declare_ready
    declare_ready_updates (ok delay, t) =
        (put_condition-Quiet (new_condition condition_ready condition_true "" "") t).same_updates
    declare_ready_updates (err e, t) = refl
    declare_ready_updates (panic, t) = refl

    after_static_updates :
        (x : Result (Unit {0}) × State R) → (after_static F x).1.updates ≡ x.1.updates
    unfolding after_static
    after_static_updates (ok _, t) = refl
    after_static_updates (err e, t) = refl
    after_static_updates (panic, t) = refl

    -- Behind the target and the test of the exhaustion.
    pub reconcile_lem :
        (s t u : State R) (delay : Duration)
        → s.autoscaler.deletion_timestamp ≡ none
        → get_scale_target cluster s ≡ (ok (gvkr, scale), t)
        → update_exhausted_autoscaler cluster scale t ≡ (ok delay, u)
        → reconcile F lib json cluster plugins s
          ≡ declare_ready F (
              scale_target F lib json cluster plugins gvkr scale u.autoscaler.spec.min_replicas
                (observe F scale u))
    unfolding reconcile after_target after_exhaust
    reconcile_lem s t u delay alive target exhaust =
        unless_deleted-none F lib json cluster plugins _ s alive
        ∙ (ap (after_target F lib json cluster plugins) target
            ∙ ap (after_exhaust F lib json cluster plugins gvkr scale) exhaust)

    pub observed-Quiet :
        (s t u : State R) (delay : Duration)
        → get_scale_target cluster s ≡ (ok (gvkr, scale), t)
        → update_exhausted_autoscaler cluster scale t ≡ (ok delay, u)
        → Quiet s (observe F scale u)
    unfolding observe
    observed-Quiet s t u delay target exhaust =
        let p : Quiet s t = subst (λ x. Quiet s x.1) target (get_scale_target-Quiet cluster s) in
        let q : Quiet t u =
          subst (λ x. Quiet t x.1) exhaust (update_exhausted_autoscaler-Quiet cluster scale t) in
        Quiet-trans p (
          Quiet-trans q (record { same_updates = refl; same_annotations = refl; same_spec = refl }))

    static_target-Reaches :
        (least : Option ℤ) (s : State R)
        → least ≡ none
        → dry_run_flag s ≡ "false"
        → Reaches s.autoscaler.spec.max_replicas scale s
            (scale_target F lib json cluster plugins gvkr scale least s).1
    unfolding scale_target
    static_target-Reaches none s e wet =
        Reaches-then
          (scale_replicas-Reaches cluster gvkr scale s.autoscaler.spec.max_replicas s wet)
          (after_static_updates
            (scale_replicas cluster gvkr scale s.autoscaler.spec.max_replicas s))
    static_target-Reaches (some least) s e wet = absurd (none-ne-some (sym e))

    -- Off the dry run, a reconciliation of an autoscaler without a minimum asks for the maximum
    -- unless the target has it, once the target is found and the exhaust test gives no error.
    pub reconcile_static-Reaches :
        (s t u : State R) (delay : Duration)
        → s.autoscaler.deletion_timestamp ≡ none
        → get_scale_target cluster s ≡ (ok (gvkr, scale), t)
        → update_exhausted_autoscaler cluster scale t ≡ (ok delay, u)
        → s.autoscaler.spec.min_replicas ≡ none
        → dry_run_flag s ≡ "false"
        → Reaches s.autoscaler.spec.max_replicas scale s (reconcile F lib json cluster plugins s).1
    unfolding observe
    reconcile_static-Reaches s t u delay alive target exhaust fixed wet =
        let x = observe F scale u in
        let q = observed-Quiet s t u delay target exhaust in
        let least : u.autoscaler.spec.min_replicas ≡ none =
          ap (λ spec. spec.min_replicas) q.same_spec ∙ fixed in
        let end =
          scale_target F lib json cluster plugins gvkr scale u.autoscaler.spec.min_replicas x in
        let step : Reaches x.autoscaler.spec.max_replicas scale x end.1 =
          static_target-Reaches u.autoscaler.spec.min_replicas x least
            (dry_run_flag_congr s x q.same_annotations ∙ wet) in
        subst (λ y. Reaches s.autoscaler.spec.max_replicas scale s y.1)
          (sym (reconcile_lem s t u delay alive target exhaust))
          (Reaches-then
            (Reaches-from q.same_updates (
              subst (λ n. Reaches n scale x end.1) (ap (λ spec. spec.max_replicas) q.same_spec)
                step))
            (declare_ready_updates end))
