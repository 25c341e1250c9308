-- ===== src/Controller/Panics/Steps.antt =====
-- The steps up to the replicator.
use wing.Base.{
  if◌then◌else◌, Option-cases, ℤ, All, Dict, lookup, Result, M, and_then-ne-panic, ok, err, panic,
  Time, String, ◌≡◌, refl, ◌≢◌, inl, inr, ◌||◌, Option, none, some, List, [], ◌∷◌, ◌==◌,
}
use wing.Api.Types.{Condition, ReplicaAutoscalerTarget, Raw, Exhaust, ExhaustPending}
use wing.Api.Gvkr.{GroupVersionKindResource}
use wing.Kubernetes.{Scale, Pod}
use wing.Utils.Timerange.{TimeLibrary}
use wing.Utils.Gvkr.{default_kind, get_resource, group_version_of, parse_gvkr}
use wing.Utils.Timerange.Safety.{IsCalm, if-ne-panic}
use wing.Scheduling.Safety.{get_scheduled_settings_raw-ne-panic}
use wing.Engine.Interfaces.{ScalerOutput}
use wing.Controller.State.{State, Cluster, Plugins}
use wing.Controller.Target.{scale_or_error, is_target_scalable, get_scale_target}
use wing.Controller.Exhaust.{
  judge_pending, check_found, check_pods, after_pods, keep_condition, exhaust_test, check_pending,
  on_pending, update_exhausted_autoscaler,
}
use wing.Controller.Targets.{
  Collected, halted, collected, after_scaler, ask_scaler, go_on, ask_scalers, call_scaler,
  scaler_context,
}
use wing.Controller.Panics.{
  IsCalmCluster, IsCalmEngine, IsFilledTarget, bind_at-ne-panic, if_at-ne-panic,
}

module _ (cluster : Cluster) (calm : IsCalmCluster cluster) where
  get_resource-ne-panic :
      (group version kind : String) → get_resource cluster.mapper group version kind ≢ panic
  unfolding get_resource
  get_resource-ne-panic group version kind =
      if-ne-panic (kind == default_kind) _ _ (λ _ q. cc)
        (λ _.
          if-ne-panic (kind == "StatefulSet") _ _ (λ _ q. cc)
            (λ _. calm.rest_mapping_calm group kind version))

  group_version_of-ne-panic : (text : String) → group_version_of cluster.mapper text ≢ panic
  unfolding group_version_of
  group_version_of-ne-panic text =
      if-ne-panic (text == "") _ _ (λ _ q. cc) (λ _. calm.parse_group_version_calm text)

  parse_gvkr-ne-panic : (text kind : String) → parse_gvkr cluster.mapper text kind ≢ panic
  unfolding parse_gvkr
  parse_gvkr-ne-panic text kind =
      and_then-ne-panic (group_version_of cluster.mapper text) _ (group_version_of-ne-panic text)
        (λ gv.
          and_then-ne-panic _ _
            (get_resource-ne-panic gv.0 gv.1 (if kind == "" then default_kind else kind))
            (λ _ q. cc))

module _ {R : Type 0} (cluster : Cluster) (calm : IsCalmCluster cluster) where
  scale_or_error-ne-panic :
      (gvkr : GroupVersionKindResource) (namespace name : String) (r : Result Scale) (s : State R)
      → r ≢ panic
      → (scale_or_error cluster gvkr namespace name r s).0 ≢ panic
  unfolding scale_or_error
  scale_or_error-ne-panic gvkr namespace name (ok scale) s h = λ q. cc
  scale_or_error-ne-panic gvkr namespace name (err e) s h = λ q. cc
  scale_or_error-ne-panic gvkr namespace name panic s h = h

  pub get_scale_target-ne-panic : (s : State R) → (get_scale_target cluster s).0 ≢ panic
  unfolding get_scale_target is_target_scalable
  get_scale_target-ne-panic s =
      let ref = s.autoscaler.spec.scale_target_ref in
      if_at-ne-panic (ref.name == "" || ref.kind == "") _ _ (λ q. cc)
        (bind_at-ne-panic (parse_gvkr cluster.mapper ref.api_version ref.kind, s) _
          (parse_gvkr-ne-panic cluster calm ref.api_version ref.kind)
          (λ gvkr t.
            bind_at-ne-panic (is_target_scalable cluster gvkr t.autoscaler.namespace ref.name t) _
              (scale_or_error-ne-panic gvkr t.autoscaler.namespace ref.name _ t
                (calm.get_scale_calm _ _ _))
              (λ scale u q. cc)))

  judge_pending-ne-panic :
      (found : ℤ × Time) (pending : ExhaustPending) (x : Result ℤ × State R)
      → x.0 ≢ panic
      → (judge_pending found pending x).0 ≢ panic
  unfolding judge_pending
  judge_pending-ne-panic found pending (ok threshold, t) h = λ q. cc
  judge_pending-ne-panic found pending (err e, t) h = λ q. cc
  judge_pending-ne-panic found pending (panic, t) h = absurd (h refl)

  pub check_found-ne-panic :
      (pending : Option ExhaustPending) (found : ℤ × Time) (s : State R)
      → pending ≢ none
      → (check_found cluster pending found s).0 ≢ panic
  unfolding check_found
  check_found-ne-panic none found s h = absurd (h refl)
  check_found-ne-panic (some pending) found s h =
      judge_pending-ne-panic found pending _ (calm.scaled_value_calm _ _)

  after_pods-ne-panic :
      (exhaust : Exhaust) (x : Result (List Pod) × State R)
      → exhaust.pending ≢ none
      → x.0 ≢ panic
      → (after_pods cluster exhaust x).0 ≢ panic
  unfolding after_pods check_pods
  after_pods-ne-panic exhaust (ok pods, t) filled h =
      check_found-ne-panic exhaust.pending _ _ filled
  after_pods-ne-panic exhaust (err e, t) filled h = λ q. cc
  after_pods-ne-panic exhaust (panic, t) filled h = absurd (h refl)

  check_pending-ne-panic :
      (exhaust : Exhaust) (x : Result String × State R)
      → exhaust.pending ≢ none
      → x.0 ≢ panic
      → (check_pending cluster exhaust x).0 ≢ panic
  unfolding check_pending
  check_pending-ne-panic exhaust (ok selector, t) filled h =
      after_pods-ne-panic exhaust (cluster.list_pods t.autoscaler.namespace selector, t) filled
        (calm.list_pods_calm _ _)
  check_pending-ne-panic exhaust (err e, t) filled h = λ q. cc
  check_pending-ne-panic exhaust (panic, t) filled h = absurd (h refl)

  keep_condition-ne-panic :
      (x : Result Condition × State R) → x.0 ≢ panic → (keep_condition x).0 ≢ panic
  unfolding keep_condition
  keep_condition-ne-panic (ok c, t) h = λ q. cc
  keep_condition-ne-panic (err e, t) h = λ q. cc
  keep_condition-ne-panic (panic, t) h = absurd (h refl)

  exhaust_test-ne-panic :
      (scale : Scale) (exhaust : Option Exhaust) (s : State R)
      → ((e : Exhaust) → exhaust ≡ some e → e.pending ≢ none)
      → (exhaust_test cluster scale exhaust s).0 ≢ panic
  unfolding exhaust_test
  exhaust_test-ne-panic scale none s filled = λ q. cc
  exhaust_test-ne-panic scale (some exhaust) s filled =
      keep_condition-ne-panic
        (check_pending cluster exhaust (cluster.parse_selector scale.status_selector, s))
        (check_pending-ne-panic exhaust (cluster.parse_selector scale.status_selector, s)
          (filled exhaust refl) (calm.parse_selector_calm _))

  pub update_exhausted_autoscaler-ne-panic :
      (scale : Scale) (s : State R)
      → ((e : Exhaust) → on_pending s.autoscaler.spec.exhaust ≡ some e → e.pending ≢ none)
      → (update_exhausted_autoscaler cluster scale s).0 ≢ panic
  unfolding update_exhausted_autoscaler
  update_exhausted_autoscaler-ne-panic scale s filled = exhaust_test-ne-panic scale _ _ filled

  after_scaler-ne-panic :
      (metric : String) (outputs : Dict ScalerOutput) (managed : List String)
      (x : Result ScalerOutput × State R)
      → x.0 ≢ panic
      → (after_scaler metric outputs managed x).0 ≢ panic
  unfolding after_scaler
  after_scaler-ne-panic metric outputs managed (ok out, t) h = λ q. cc
  after_scaler-ne-panic metric outputs managed (err e, t) h = λ q. cc
  after_scaler-ne-panic metric outputs managed (panic, t) h = absurd (h refl)

  go_on-ne-panic :
      (next : Dict ScalerOutput → List String → M (State R) Collected)
      (x : Result Collected × State R)
      → x.0 ≢ panic
      → ((o : Dict ScalerOutput) (m : List String) (t : State R) → (next o m t).0 ≢ panic)
      → (go_on next x).0 ≢ panic
  go_on-ne-panic next (ok (collected o m), t) h k = k o m t
  go_on-ne-panic next (ok (halted delay), t) h k = λ q. cc
  go_on-ne-panic next (err e, t) h k = λ q. cc
  go_on-ne-panic next (panic, t) h k = absurd (h refl)

  module _ (plugins : Plugins R) (engine : IsCalmEngine plugins) where
    ask_scaler-ne-panic :
        (selector : String) (scale : Scale) (metric : String) (outputs : Dict ScalerOutput)
        (managed : List String) (r : Result Raw) (s : State R)
        → r ≢ panic
        → (ask_scaler plugins selector scale metric outputs managed r s).0 ≢ panic
    unfolding ask_scaler call_scaler
    ask_scaler-ne-panic selector scale metric outputs managed (ok settings) s h =
        elim (Option-cases (lookup metric plugins.scalers)) [
          | inl missing ↦ rw (missing, ask_scaler) (λ q. cc)
          | inr (scaler, found) ↦
              rw (found, ask_scaler)
                (after_scaler-ne-panic metric outputs managed
                  (call_scaler scaler (scaler_context settings selector scale s) s)
                  (engine.scaler_calm metric scaler _ _ found))
        ]
    ask_scaler-ne-panic selector scale metric outputs managed (err e) s h = λ q. cc
    ask_scaler-ne-panic selector scale metric outputs managed panic s h = absurd (h refl)

    pub ask_scalers-ne-panic :
        (lib : TimeLibrary) (at : Time) (selector : String) (scale : Scale)
        (ts : List ReplicaAutoscalerTarget) (outputs : Dict ScalerOutput) (managed : List String)
        (s : State R)
        → IsCalm lib
        → All IsFilledTarget ts
        → (ask_scalers lib cluster plugins at selector scale ts outputs managed s).0 ≢ panic
    unfolding ask_scalers
    ask_scalers-ne-panic lib at selector scale [] outputs managed s times filled = λ q. cc
    ask_scalers-ne-panic lib at selector scale (t ∷ ts) outputs managed s times
          ((default, schedules), filled) =
        go_on-ne-panic _ _
          (ask_scaler-ne-panic selector scale t.metric outputs managed _ _ (
            get_scheduled_settings_raw-ne-panic lib times cluster.merge_patch at t.settings
              calm.merge_patch_calm default schedules))
          (λ o m u. ask_scalers-ne-panic lib at selector scale ts o m u times filled)
