-- ===== src/Controller/Exhaust/Laws.antt =====
-- Laws of the exhaust test.
use wing.Base.{
  if◌then◌else◌, ℤ, ◌+ℤ◌, ◌≤ℤ◌, pos, All, ok, panic, Time, before, ℕ, ◌+◌, String, ◌≡◌, refl, ◌∙◌,
  Bool, true, false, ◌&&◌, Option, none, some, List, [], ◌∷◌, arith, ◌==◌, eq_iff,
}
use wing.Api.Types.{Exhaust, exhaust_on_pending}
use wing.Kubernetes.{Scale, Pod, pod_pending}
use wing.Controller.State.{State, Cluster}
use wing.Controller.Exhaust.{
  pending_pods, on_pending, check_found, check_pods, after_pods, check_pending, keep_condition,
  exhaust_test, update_exhausted_autoscaler,
}

-- A pod that is pending.
abbrev pub is_pending : Pod → Bool
is_pending p = p.status.phase == pod_pending

-- How many pods are pending.
abbrev pub pending_count : List Pod → ℕ
pending_count [] = 0
pending_count (p ∷ ps) = (if is_pending p then 1 else 0) + pending_count ps

-- `oldest` is no later than `now` and than the creation of any pending pod.
abbrev pub IsBound : List Pod → Time → Type 0
IsBound ps t = All (λ p. is_pending p ≡ true → t ≤ℤ p.creation_timestamp) ps

count_step :
    (b : Bool) (count : ℤ) (n : ℕ)
    → (if b then count +ℤ pos 1 else count) +ℤ pos n ≡ count +ℤ pos ((if b then 1 else 0) + n)
unfolding ◌+ℤ◌
count_step true count n = ground arith
count_step false count n = ground arith

oldest_step :
    (b : Bool) (t o r : Time)
    → r ≤ℤ (if b && before t o then t else o)
    → (r ≤ℤ o) × (b ≡ true → r ≤ℤ t)
oldest_step true t o r h = ground arith
oldest_step false t o r h = (h, λ e. cc)

pending_pods-count :
    (ps : List Pod) (count : ℤ) (oldest : Time)
    → (pending_pods ps count oldest).0 ≡ count +ℤ pos (pending_count ps)
unfolding pending_pods ◌+ℤ◌
pending_pods-count [] count oldest = ground arith
pending_pods-count (p ∷ ps) count oldest =
    pending_pods-count ps (if is_pending p then count +ℤ pos 1 else count) _
    ∙ count_step (is_pending p) count (pending_count ps)

pending_pods-IsBound :
    (ps : List Pod) (count : ℤ) (oldest : Time)
    → ((pending_pods ps count oldest).1 ≤ℤ oldest) × IsBound ps (pending_pods ps count oldest).1
unfolding pending_pods
pending_pods-IsBound [] count oldest = (omega arith, tt)
pending_pods-IsBound (p ∷ ps) count oldest =
    let (bound, all) = pending_pods-IsBound ps (if is_pending p then count +ℤ pos 1 else count) (
      if is_pending p && before p.creation_timestamp oldest
      then p.creation_timestamp
      else oldest) in
    let (old, own) = oldest_step (is_pending p) p.creation_timestamp oldest _ bound in
    (old, (own, all))

-- Of the pods, the number of those that are pending, and a time that is no later than the test and
-- than the creation of any of them.
pub pending_pods_lem :
    (ps : List Pod) (at : Time)
    → ((pending_pods ps (pos 0) at).0 ≡ pos (pending_count ps))
      × ((pending_pods ps (pos 0) at).1 ≤ℤ at)
      × IsBound ps (pending_pods ps (pos 0) at).1
unfolding ◌+ℤ◌
pending_pods_lem ps at =
    let (bound, all) = pending_pods-IsBound ps (pos 0) at in
    (pending_pods-count ps (pos 0) at ∙ ground arith, bound, all)

on_pending_lem :
    (setting : Option Exhaust) (exhaust : Exhaust)
    → setting ≡ some exhaust
    → exhaust.type ≡ exhaust_on_pending
    → on_pending setting ≡ some exhaust
unfolding on_pending
on_pending_lem none exhaust e t = cc
on_pending_lem (some x) exhaust e t =
    let same : x ≡ exhaust = ground arith in
    rw same (rw ((eq_iff exhaust.type exhaust_on_pending).1 t) refl)

-- An exhaust setting of type `Pending` without its `pending` part panics, once the pods are listed.
pub exhaust_without_pending_panics :
    {R : Type 0} (cluster : Cluster) (scale : Scale) (exhaust : Exhaust) (selector : String)
    (pods : List Pod) (s : State R)
    → s.autoscaler.spec.exhaust ≡ some exhaust
    → exhaust.type ≡ exhaust_on_pending
    → exhaust.pending ≡ none
    → cluster.parse_selector scale.status_selector ≡ ok selector
    → cluster.list_pods s.autoscaler.namespace selector ≡ ok pods
    → (update_exhausted_autoscaler cluster scale s).0 ≡ panic
unfolding update_exhausted_autoscaler exhaust_test check_pending after_pods check_pods check_found
    keep_condition
exhaust_without_pending_panics cluster scale exhaust selector pods s e t n p l =
    rw (on_pending_lem s.autoscaler.spec.exhaust exhaust e t, update_exhausted_autoscaler)
      (rw (p, l, n) refl)
