-- ===== src/Controller/Panics/Exhausting.antt =====
-- When the exhaust test of controllers/replicaautoscaler_reconcile.go panics.
use wing.Base.{
  Bool-cases, some-injective, none-ne-some, ℤ, Result, ok, err, panic, Time, String, ◌≡◌, refl, sym,
  ◌≢◌, ◌↔◌, inl, inr, Option, none, some, List, ◌==◌, eq_iff,
}
use wing.Api.Types.{Condition, Exhaust, ExhaustPending, exhaust_on_pending}
use wing.Kubernetes.{Scale, Pod}
use wing.Controller.State.{State, Cluster}
use wing.Controller.Exhaust.{
  on_pending, check_found, check_pods, after_pods, check_pending, keep_condition, exhaust_test,
  update_exhausted_autoscaler,
}
use wing.Controller.Exhaust.Laws.{exhaust_without_pending_panics}
use wing.Controller.Panics.{IsCalmCluster}
use wing.Controller.Panics.Steps.{check_found-ne-panic}

on_pending-inversion :
    (setting : Option Exhaust) (e : Exhaust)
    → on_pending setting ≡ some e
    → (setting ≡ some e) × (e.type ≡ exhaust_on_pending)
unfolding on_pending
on_pending-inversion none e h = absurd (none-ne-some h)
on_pending-inversion (some x) e h = elim (Bool-cases (x.type == exhaust_on_pending)) [
  | inl pending ↦
      let same : some x ≡ some e = rw pending at h in
      (same, rw (← some-injective same) ((eq_iff x.type exhaust_on_pending).0 pending))
  | inr other ↦ absurd (none-ne-some (rw other at h))
]

module _ {R : Type 0} (cluster : Cluster) (calm : IsCalmCluster cluster) where
  check_found-Unset :
      (pending : Option ExhaustPending) (found : ℤ × Time) (s : State R)
      → (check_found cluster pending found s).0 ≡ panic
      → pending ≡ none
  check_found-Unset none found s h = refl
  check_found-Unset (some pending) found s h =
      absurd
        (check_found-ne-panic cluster calm (some pending) found s (λ e. none-ne-some (sym e)) h)

  after_pods-inversion :
      (exhaust : Exhaust) (listed : Result (List Pod)) (s : State R)
      → listed ≢ panic
      → (after_pods cluster exhaust (listed, s)).0 ≡ panic
      → (exhaust.pending ≡ none) × ((pods : List Pod) × (listed ≡ ok pods))
  unfolding after_pods check_pods
  after_pods-inversion exhaust (ok pods) s fine h =
      (check_found-Unset exhaust.pending _ _ h, (pods, refl))
  after_pods-inversion exhaust (err e) s fine h = cc
  after_pods-inversion exhaust panic s fine h = absurd (fine refl)

  -- What the panic of a setting takes.
  abbrev pub Unset : Scale → State R → Exhaust → Type 0
  Unset scale s exhaust =
      (exhaust.type ≡ exhaust_on_pending)
      × (exhaust.pending ≡ none)
      × ((selector : String) × (cluster.parse_selector scale.status_selector ≡ ok selector)
          × ((pods : List Pod) × (cluster.list_pods s.autoscaler.namespace selector ≡ ok pods)))

  check_pending-inversion :
      (exhaust : Exhaust) (parsed : Result String) (s : State R)
      → parsed ≢ panic
      → (check_pending cluster exhaust (parsed, s)).0 ≡ panic
      → (exhaust.pending ≡ none)
        × ((selector : String) × (parsed ≡ ok selector)
            × ((pods : List Pod) × (cluster.list_pods s.autoscaler.namespace selector ≡ ok pods)))
  unfolding check_pending
  check_pending-inversion exhaust (ok selector) s fine h =
      let (unset, listed) =
        after_pods-inversion exhaust (cluster.list_pods s.autoscaler.namespace selector) s
          (calm.list_pods_calm _ _) h in
      (unset, (selector, refl, listed))
  check_pending-inversion exhaust (err e) s fine h = cc
  check_pending-inversion exhaust panic s fine h = absurd (fine refl)

  keep_condition-inversion :
      (x : Result Condition × State R) → (keep_condition x).0 ≡ panic → x.0 ≡ panic
  unfolding keep_condition
  keep_condition-inversion (ok c, s) h = cc
  keep_condition-inversion (err e, s) h = cc
  keep_condition-inversion (panic, s) h = refl

  exhaust_test-inversion :
      (scale : Scale) (setting : Option Exhaust) (s : State R)
      → (exhaust_test cluster scale setting s).0 ≡ panic
      → (exhaust : Exhaust) × (setting ≡ some exhaust)
        × (exhaust.pending ≡ none)
        × ((selector : String) × (cluster.parse_selector scale.status_selector ≡ ok selector)
            × ((pods : List Pod) × (cluster.list_pods s.autoscaler.namespace selector ≡ ok pods)))
  unfolding exhaust_test
  exhaust_test-inversion scale none s h = cc
  exhaust_test-inversion scale (some exhaust) s h =
      let (unset, parsed) =
        check_pending-inversion exhaust (cluster.parse_selector scale.status_selector) s
          (calm.parse_selector_calm _) (keep_condition-inversion _ h) in
      (exhaust, refl, unset, parsed)

  -- Behind libraries that do not panic, the exhaust test panics exactly if the spec has an exhaust
  -- setting of type `Pending` that lacks its `pending` part, the selector of the scale is parsed and
  -- the pods are listed. So it does not panic without a setting, by one of another type, by one that
  -- has the part, or where the selector is not parsed or the pods are not listed, whatever the pods
  -- and the clock are.
  pub update_exhausted_autoscaler_panics :
      (scale : Scale) (s : State R)
      → ((update_exhausted_autoscaler cluster scale s).0 ≡ panic)
        ↔ ((exhaust : Exhaust) × (s.autoscaler.spec.exhaust ≡ some exhaust) × Unset scale s exhaust)
  unfolding update_exhausted_autoscaler
  update_exhausted_autoscaler_panics scale s = (
    (λ h.
        let (exhaust, pending, unset, parsed) = exhaust_test-inversion scale _ _ h in
        let (set, type) = on_pending-inversion s.autoscaler.spec.exhaust exhaust pending in
        (exhaust, set, (type, unset, parsed))),
    (λ (exhaust, set, (type, unset, (selector, parsed, (pods, listed)))).
        exhaust_without_pending_panics cluster scale exhaust selector pods s set type unset parsed
          listed),
  )
