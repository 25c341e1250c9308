-- ===== src/Controller/Conditions/Steps.antt =====
-- The steps before the scaling.
use wing.Base.{
  Option-cases, ℤ, ltb_ℤ, Dict, lookup, Result, M, ok, err, panic, Time, String, ◌≡◌, sym, subst,
  inl, inr, ◌||◌, Option, none, some, List, [], ◌∷◌, ◌==◌,
}
use wing.Api.Types.{Condition, Conditions, ReplicaAutoscalerTarget, Raw, Exhaust, ExhaustPending}
use wing.Api.Gvkr.{GroupVersionKindResource, group_resource}
use wing.Kubernetes.{Scale, Pod}
use wing.Utils.Timerange.{TimeLibrary}
use wing.Utils.Gvkr.{parse_gvkr, group_resource_text, get_group_resource_known_scalable}
use wing.Engine.Interfaces.{ScalerOutput, ScalerContext, Scaler}
use wing.Controller.State.{State, Cluster, Plugins}
use wing.Controller.Target.{remember_scalable, scale_or_error, is_target_scalable, get_scale_target}
use wing.Controller.Exhaust.{
  test_pending, judge_pending, check_found, check_pods, after_pods, keep_condition, exhaust_test,
  check_pending, update_exhausted_autoscaler,
}
use wing.Controller.Targets.{
  Collected, after_scaler, ask_scaler, go_on, ask_scalers, call_scaler, halted, collected,
}
use wing.Controller.Conditions.{
  Keeps, Spares, Holds, if-Holds, if_state-Holds, bind_at-Holds, put_condition-Holds,
  not_ready-Holds,
}

module _ {R : Type 0} (P : Conditions → Type 0) where
  remember_scalable-Holds :
      (key : String) (s : State R) → Holds P s → Holds P (remember_scalable key s)
  unfolding remember_scalable
  remember_scalable-Holds key s h =
      if_state-Holds P (get_group_resource_known_scalable s.known_scalable key).0 _ _ h h

  scale_or_error-Holds :
      (cluster : Cluster) (gvkr : GroupVersionKindResource) (namespace name : String)
      (r : Result Scale) (s : State R)
      → Holds P s
      → Holds P (scale_or_error cluster gvkr namespace name r s).1
  unfolding scale_or_error
  scale_or_error-Holds cluster gvkr namespace name (ok scale) s h =
      remember_scalable-Holds (group_resource_text (group_resource gvkr)) s h
  scale_or_error-Holds cluster gvkr namespace name (err e) s h = h
  scale_or_error-Holds cluster gvkr namespace name panic s h = h

  pub get_scale_target-Holds :
      (cluster : Cluster) (s : State R) → Holds P s → Holds P (get_scale_target cluster s).1
  unfolding get_scale_target is_target_scalable
  get_scale_target-Holds cluster s h =
      let ref = s.autoscaler.spec.scale_target_ref in
      if-Holds P (ref.name == "" || ref.kind == "") _ _ h (
        bind_at-Holds P (parse_gvkr cluster.mapper ref.api_version ref.kind, s) _ h
          (λ gvkr t q.
            bind_at-Holds P (is_target_scalable cluster gvkr t.autoscaler.namespace ref.name t) _
              (scale_or_error-Holds cluster gvkr t.autoscaler.namespace ref.name _ t q)
              (λ scale u p. p)))

  judge_pending-Holds :
      (found : ℤ × Time) (pending : ExhaustPending) (x : Result ℤ × State R)
      → Holds P x.1
      → Holds P (judge_pending found pending x).1
  unfolding judge_pending test_pending
  judge_pending-Holds found pending (ok threshold, t) h =
      if_state-Holds P (ltb_ℤ threshold found.0) _ _ h h
  judge_pending-Holds found pending (err e, t) h = h
  judge_pending-Holds found pending (panic, t) h = h

  check_found-Holds :
      (cluster : Cluster) (pending : Option ExhaustPending) (found : ℤ × Time) (s : State R)
      → Holds P s
      → Holds P (check_found cluster pending found s).1
  unfolding check_found
  check_found-Holds cluster none found s h = h
  check_found-Holds cluster (some pending) found s h = judge_pending-Holds found pending _ h

  after_pods-Holds :
      (cluster : Cluster) (exhaust : Exhaust) (x : Result (List Pod) × State R)
      → Holds P x.1
      → Holds P (after_pods cluster exhaust x).1
  unfolding after_pods check_pods
  after_pods-Holds cluster exhaust (ok pods, t) h = check_found-Holds cluster exhaust.pending _ _ h
  after_pods-Holds cluster exhaust (err e, t) h = h
  after_pods-Holds cluster exhaust (panic, t) h = h

  check_pending-Holds :
      (cluster : Cluster) (exhaust : Exhaust) (x : Result String × State R)
      → Holds P x.1
      → Holds P (check_pending cluster exhaust x).1
  unfolding check_pending
  check_pending-Holds cluster exhaust (ok selector, t) h = after_pods-Holds cluster exhaust _ h
  check_pending-Holds cluster exhaust (err e, t) h = h
  check_pending-Holds cluster exhaust (panic, t) h = h

  -- A scaler gives the status back.
  call_scaler-Holds :
      (scaler : Scaler) (c : ScalerContext) (s : State R)
      → Spares scaler
      → Holds P s
      → Holds P (call_scaler scaler c s).1
  unfolding call_scaler
  call_scaler-Holds scaler c s spares h = subst P (sym (spares c _)) h

  after_scaler-Holds :
      (metric : String) (outputs : Dict ScalerOutput) (managed : List String)
      (x : Result ScalerOutput × State R)
      → Holds P x.1
      → Holds P (after_scaler metric outputs managed x).1
  unfolding after_scaler
  after_scaler-Holds metric outputs managed (ok out, t) h = h
  after_scaler-Holds metric outputs managed (err e, t) h = h
  after_scaler-Holds metric outputs managed (panic, t) h = h

  go_on-Holds :
      (next : Dict ScalerOutput → List String → M (State R) Collected)
      (x : Result Collected × State R)
      → Holds P x.1
      → ((o : Dict ScalerOutput) (m : List String) (t : State R)
          → Holds P t
          → Holds P (next o m t).1)
      → Holds P (go_on next x).1
  go_on-Holds next (ok (collected o m), t) h k = k o m t h
  go_on-Holds next (ok (halted delay), t) h k = h
  go_on-Holds next (err e, t) h k = h
  go_on-Holds next (panic, t) h k = h

  module _ (keeps : Keeps P) where
    keep_condition-Holds :
        (x : Result Condition × State R) → Holds P x.1 → Holds P (keep_condition x).1
    unfolding keep_condition
    keep_condition-Holds (ok c, t) h = put_condition-Holds P keeps c t h
    keep_condition-Holds (err e, t) h = h
    keep_condition-Holds (panic, t) h = h

    exhaust_test-Holds :
        (cluster : Cluster) (scale : Scale) (exhaust : Option Exhaust) (s : State R)
        → Holds P s
        → Holds P (exhaust_test cluster scale exhaust s).1
    unfolding exhaust_test
    exhaust_test-Holds cluster scale none s h = put_condition-Holds P keeps _ s h
    exhaust_test-Holds cluster scale (some exhaust) s h =
        keep_condition-Holds _ (check_pending-Holds cluster exhaust _ h)

    pub update_exhausted_autoscaler-Holds :
        (cluster : Cluster) (scale : Scale) (s : State R)
        → Holds P s
        → Holds P (update_exhausted_autoscaler cluster scale s).1
    unfolding update_exhausted_autoscaler
    update_exhausted_autoscaler-Holds cluster scale s h = exhaust_test-Holds cluster scale _ _ h

    module _ (plugins : Plugins R)
        (spare : (name : String) (scaler : Scaler)
          → lookup name plugins.scalers ≡ some scaler
          → Spares scaler) where
      ask_scaler-Holds :
          (selector : String) (scale : Scale) (metric : String) (outputs : Dict ScalerOutput)
          (managed : List String) (r : Result Raw) (s : State R)
          → Holds P s
          → Holds P (ask_scaler plugins selector scale metric outputs managed r s).1
      unfolding ask_scaler
      ask_scaler-Holds selector scale metric outputs managed (ok settings) s h =
          elim (Option-cases (lookup metric plugins.scalers)) [
            | inl missing ↦ rw (missing, ask_scaler) (not_ready-Holds P keeps _ _ s h)
            | inr (scaler, found) ↦
                rw (found, ask_scaler)
                  (after_scaler-Holds metric outputs managed _
                    (call_scaler-Holds scaler _ s (spare metric scaler found) h))
          ]
      ask_scaler-Holds selector scale metric outputs managed (err e) s h = h
      ask_scaler-Holds selector scale metric outputs managed panic s h = h

      pub ask_scalers-Holds :
          (lib : TimeLibrary) (cluster : Cluster) (at : Time) (selector : String) (scale : Scale)
          (ts : List ReplicaAutoscalerTarget) (outputs : Dict ScalerOutput) (managed : List String)
          (s : State R)
          → Holds P s
          → Holds P (ask_scalers lib cluster plugins at selector scale ts outputs managed s).1
      unfolding ask_scalers
      ask_scalers-Holds lib cluster at selector scale [] outputs managed s h = h
      ask_scalers-Holds lib cluster at selector scale (t ∷ ts) outputs managed s h =
          go_on-Holds _ _ (ask_scaler-Holds selector scale _ outputs managed _ _ h)
            (λ o m u q. ask_scalers-Holds lib cluster at selector scale ts o m u q)
