-- ===== src/Controller/Updates/Steps.antt =====
-- The steps before the scaling, which send no update.
use wing.Base.{
  Option-cases, ℤ, ltb_ℤ, Dict, lookup, Result, M, ok, err, panic, Time, Clock, String, refl, inl,
  inr, ◌||◌, Option, none, some, List, [], ◌∷◌, ◌==◌,
}
use wing.Api.Types.{Condition, ReplicaAutoscalerTarget, Raw, Exhaust, ExhaustPending}
use wing.Api.Gvkr.{GroupVersionKindResource, group_resource}
use wing.Kubernetes.{Scale, Pod}
use wing.Utils.Timerange.{TimeLibrary}
use wing.Utils.Gvkr.{parse_gvkr, group_resource_text, get_group_resource_known_scalable}
use wing.Engine.Interfaces.{ScalerOutput, ScalerContext, Scaler}
use wing.Controller.State.{State, Cluster, Plugins, put_condition, not_ready}
use wing.Controller.Target.{remember_scalable, scale_or_error, is_target_scalable, get_scale_target}
use wing.Controller.Exhaust.{
  test_pending, judge_pending, check_found, check_pods, after_pods, keep_condition, exhaust_test,
  check_pending, update_exhausted_autoscaler,
}
use wing.Controller.Targets.{
  Collected, after_scaler, ask_scaler, go_on, ask_scalers, call_scaler, halted, collected,
}
use wing.Controller.Updates.{
  Quiet, Quiet-refl, Quiet-trans, bind_at-Quiet, if-Quiet, if_state-Quiet,
}

module _ {R : Type 0} where
  -- The clock is no part of it.
  pub ticked-Quiet : (s t : State R) (k : Clock) → Quiet s t → Quiet s (record t { clock = k })
  ticked-Quiet s t k q = record {
    same_updates = q.same_updates;
    same_annotations = q.same_annotations;
    same_spec = q.same_spec;
  }

  pub put_condition-Quiet : (c : Condition) (s : State R) → Quiet s (put_condition c s)
  unfolding put_condition
  put_condition-Quiet c s = record {
    same_updates = refl;
    same_annotations = refl;
    same_spec = refl;
  }

  pub not_ready-Quiet : (reason text : String) (s : State R) → Quiet s (not_ready reason text s)
  unfolding not_ready
  not_ready-Quiet reason text s = put_condition-Quiet _ s

  remember_scalable-Quiet : (key : String) (s : State R) → Quiet s (remember_scalable key s)
  unfolding remember_scalable
  remember_scalable-Quiet key s =
      if_state-Quiet s (get_group_resource_known_scalable s.known_scalable key).0 _ _ (Quiet-refl s)
        (record { same_updates = refl; same_annotations = refl; same_spec = refl })

  scale_or_error-Quiet :
      (cluster : Cluster) (gvkr : GroupVersionKindResource) (namespace name : String)
      (r : Result Scale) (s : State R)
      → Quiet s (scale_or_error cluster gvkr namespace name r s).1
  unfolding scale_or_error
  scale_or_error-Quiet cluster gvkr namespace name (ok scale) s =
      remember_scalable-Quiet (group_resource_text (group_resource gvkr)) s
  scale_or_error-Quiet cluster gvkr namespace name (err e) s = Quiet-refl s
  scale_or_error-Quiet cluster gvkr namespace name panic s = Quiet-refl s

  pub get_scale_target-Quiet :
      (cluster : Cluster) (s : State R) → Quiet s (get_scale_target cluster s).1
  unfolding get_scale_target is_target_scalable
  get_scale_target-Quiet cluster s =
      let ref = s.autoscaler.spec.scale_target_ref in
      if-Quiet s (ref.name == "" || ref.kind == "") _ _ (Quiet-refl s) (
        bind_at-Quiet s (parse_gvkr cluster.mapper ref.api_version ref.kind, s) _ (Quiet-refl s)
          (λ gvkr t q.
            bind_at-Quiet s (is_target_scalable cluster gvkr t.autoscaler.namespace ref.name t) _
              (Quiet-trans q
                (scale_or_error-Quiet cluster gvkr t.autoscaler.namespace ref.name _ t))
              (λ scale u p. p)))

  judge_pending-Quiet :
      (s : State R) (found : ℤ × Time) (pending : ExhaustPending) (x : Result ℤ × State R)
      → Quiet s x.1
      → Quiet s (judge_pending found pending x).1
  unfolding judge_pending test_pending
  judge_pending-Quiet s found pending (ok threshold, t) q =
      if_state-Quiet s (ltb_ℤ threshold found.0) _ _ (ticked-Quiet s t _ q) q
  judge_pending-Quiet s found pending (err e, t) q = q
  judge_pending-Quiet s found pending (panic, t) q = q

  check_found-Quiet :
      (cluster : Cluster) (pending : Option ExhaustPending) (found : ℤ × Time) (s : State R)
      → Quiet s (check_found cluster pending found s).1
  unfolding check_found
  check_found-Quiet cluster none found s = Quiet-refl s
  check_found-Quiet cluster (some pending) found s =
      judge_pending-Quiet s found pending _ (Quiet-refl s)

  check_pods-Quiet :
      (cluster : Cluster) (exhaust : Exhaust) (pods : List Pod) (s : State R)
      → Quiet s (check_pods cluster exhaust pods s).1
  unfolding check_pods
  check_pods-Quiet cluster exhaust pods s =
      Quiet-trans (ticked-Quiet s s _ (Quiet-refl s))
        (check_found-Quiet cluster exhaust.pending _ _)

  after_pods-Quiet :
      (cluster : Cluster) (exhaust : Exhaust) (s : State R) (x : Result (List Pod) × State R)
      → Quiet s x.1
      → Quiet s (after_pods cluster exhaust x).1
  unfolding after_pods
  after_pods-Quiet cluster exhaust s (ok pods, t) q =
      Quiet-trans q (check_pods-Quiet cluster exhaust pods t)
  after_pods-Quiet cluster exhaust s (err e, t) q = q
  after_pods-Quiet cluster exhaust s (panic, t) q = q

  check_pending-Quiet :
      (cluster : Cluster) (exhaust : Exhaust) (s : State R) (x : Result String × State R)
      → Quiet s x.1
      → Quiet s (check_pending cluster exhaust x).1
  unfolding check_pending
  check_pending-Quiet cluster exhaust s (ok selector, t) q = after_pods-Quiet cluster exhaust s _ q
  check_pending-Quiet cluster exhaust s (err e, t) q = q
  check_pending-Quiet cluster exhaust s (panic, t) q = q

  keep_condition-Quiet :
      (s : State R) (x : Result Condition × State R) → Quiet s x.1 → Quiet s (keep_condition x).1
  unfolding keep_condition
  keep_condition-Quiet s (ok c, t) q = Quiet-trans q (put_condition-Quiet c t)
  keep_condition-Quiet s (err e, t) q = q
  keep_condition-Quiet s (panic, t) q = q

  exhaust_test-Quiet :
      (cluster : Cluster) (scale : Scale) (exhaust : Option Exhaust) (s : State R)
      → Quiet s (exhaust_test cluster scale exhaust s).1
  unfolding exhaust_test
  exhaust_test-Quiet cluster scale none s = put_condition-Quiet _ s
  exhaust_test-Quiet cluster scale (some exhaust) s =
      keep_condition-Quiet s _ (check_pending-Quiet cluster exhaust s _ (Quiet-refl s))

  pub update_exhausted_autoscaler-Quiet :
      (cluster : Cluster) (scale : Scale) (s : State R)
      → Quiet s (update_exhausted_autoscaler cluster scale s).1
  unfolding update_exhausted_autoscaler
  update_exhausted_autoscaler-Quiet cluster scale s =
      Quiet-trans (ticked-Quiet s s _ (Quiet-refl s)) (exhaust_test-Quiet cluster scale _ _)

  call_scaler-Quiet :
      (scaler : Scaler) (c : ScalerContext) (s : State R) → Quiet s (call_scaler scaler c s).1
  unfolding call_scaler
  call_scaler-Quiet scaler c s = record {
    same_updates = refl;
    same_annotations = refl;
    same_spec = refl;
  }

  after_scaler-Quiet :
      (s : State R) (metric : String) (outputs : Dict ScalerOutput) (managed : List String)
      (x : Result ScalerOutput × State R)
      → Quiet s x.1
      → Quiet s (after_scaler metric outputs managed x).1
  unfolding after_scaler
  after_scaler-Quiet s metric outputs managed (ok out, t) q = ticked-Quiet s t _ q
  after_scaler-Quiet s metric outputs managed (err e, t) q = q
  after_scaler-Quiet s metric outputs managed (panic, t) q = q

  ask_scaler-Quiet :
      (plugins : Plugins R) (selector : String) (scale : Scale) (metric : String)
      (outputs : Dict ScalerOutput) (managed : List String) (r : Result Raw) (s : State R)
      → Quiet s (ask_scaler plugins selector scale metric outputs managed r s).1
  unfolding ask_scaler
  ask_scaler-Quiet plugins selector scale metric outputs managed (ok settings) s =
      elim (Option-cases (lookup metric plugins.scalers)) [
        | inl missing ↦ rw (missing, ask_scaler) (not_ready-Quiet _ _ s)
        | inr (scaler, found) ↦
            rw (found, ask_scaler)
              (after_scaler-Quiet s metric outputs managed _ (call_scaler-Quiet scaler _ s))
      ]
  ask_scaler-Quiet plugins selector scale metric outputs managed (err e) s = Quiet-refl s
  ask_scaler-Quiet plugins selector scale metric outputs managed panic s = Quiet-refl s

  go_on-Quiet :
      (s : State R) (next : Dict ScalerOutput → List String → M (State R) Collected)
      (x : Result Collected × State R)
      → Quiet s x.1
      → ((o : Dict ScalerOutput) (m : List String) (t : State R)
          → Quiet s t
          → Quiet s (next o m t).1)
      → Quiet s (go_on next x).1
  go_on-Quiet s next (ok (collected o m), t) q k = k o m t q
  go_on-Quiet s next (ok (halted delay), t) q k = q
  go_on-Quiet s next (err e, t) q k = q
  go_on-Quiet s next (panic, t) q k = q

  pub ask_scalers-Quiet :
      (lib : TimeLibrary) (cluster : Cluster) (plugins : Plugins R) (at : Time) (selector : String)
      (scale : Scale) (ts : List ReplicaAutoscalerTarget) (outputs : Dict ScalerOutput)
      (managed : List String) (s : State R)
      → Quiet s (ask_scalers lib cluster plugins at selector scale ts outputs managed s).1
  unfolding ask_scalers
  ask_scalers-Quiet lib cluster plugins at selector scale [] outputs managed s = Quiet-refl s
  ask_scalers-Quiet lib cluster plugins at selector scale (t ∷ ts) outputs managed s =
      go_on-Quiet s _ _
        (Quiet-trans (ticked-Quiet s s _ (Quiet-refl s))
          (ask_scaler-Quiet plugins selector scale _ outputs managed _ _))
        (λ o m u q.
          Quiet-trans q (ask_scalers-Quiet lib cluster plugins at selector scale ts o m u))
