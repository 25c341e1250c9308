-- ===== src/Controller/Exhaust.antt =====
-- controllers/replicaautoscaler_reconcile.go: `updateExhaustedAutoscaler`.
pub mod Laws
use wing.Base.{
  if◌then◌else◌, ℤ, ◌+ℤ◌, ◌-ℤ◌, ltb_ℤ, pos, ◌<>◌, itoa, Result, M, ok, err, panic, Time, Duration,
  second, seconds, before, now, tick, String, Bool, true, false, ◌&&◌, Option, none, some, List, [],
  ◌∷◌, ◌==◌,
}
use wing.Api.Types.{Exhaust, ExhaustPending, Condition, exhaust_on_pending}
use wing.Api.Condition.{new_condition, condition_exhausted, condition_true, condition_false}
use wing.Kubernetes.{Scale, Pod, pod_pending}
use wing.Controller.State.{State, Cluster, put_condition, not_requeue}

-- The pods that are pending, and the oldest creation among them, no later than the given time.
unfoldable pub pending_pods : List Pod → ℤ → Time → ℤ × Time
unfolding ◌+ℤ◌
pending_pods [] count oldest = (count, oldest)
pending_pods (p ∷ ps) count oldest =
    let counted = p.status.phase == pod_pending in
    pending_pods ps (if counted then count +ℤ pos 1 else count)
      (if counted && before p.creation_timestamp oldest then p.creation_timestamp else oldest)

-- Whether the pending pods exhaust the autoscaler, at the time of the test.
unfoldable pub is_exhausted : ℤ × Time → ℤ → ℤ → Time → Bool
unfolding ◌-ℤ◌ seconds
is_exhausted (count, oldest) threshold timeout at =
    ltb_ℤ threshold count && ltb_ℤ (seconds timeout) (at -ℤ oldest)

unfoldable pub exhausted_condition : Bool → ℤ → ℤ → Condition
unfolding itoa
exhausted_condition false threshold timeout =
    new_condition condition_exhausted condition_false "" ""
exhausted_condition true threshold timeout =
    new_condition condition_exhausted condition_true "ExhaustedOnPending" (
      "Pending pods count is over threshold `"
      <> itoa threshold
      <> "` and oldest pending pod waiting over timeout `"
      <> itoa timeout
      <> "` second(s)")

-- An exhaust setting whose type is `Pending`.
unfoldable pub on_pending : Option Exhaust → Option Exhaust
on_pending none = none
on_pending (some e) = if e.type == exhaust_on_pending then some e else none

module _ {R : Type 0} where
  -- The clock is read for the test where enough pods are pending.
  unfoldable pub test_pending : ℤ × Time → ℤ → ℤ → State R → Bool × State R
  unfolding is_exhausted
  test_pending found threshold timeout s = (
    is_exhausted found threshold timeout (now s.clock),
    if ltb_ℤ threshold found.0 then record s { clock = tick s.clock } else s,
  )

  -- The answer to the threshold, and the test.
  unfoldable pub judge_pending :
      ℤ × Time → ExhaustPending → Result ℤ × State R → Result Condition × State R
  unfolding test_pending exhausted_condition
  judge_pending found pending (ok threshold, s) =
      let (exhausted, s') = test_pending found threshold pending.timeout_seconds s in
      (ok (exhausted_condition exhausted threshold pending.timeout_seconds), s')
  judge_pending found pending (err e, s) = (err e, s)
  judge_pending found pending (panic, s) = (panic, s)

  -- A setting without its `Pending` part is dereferenced all the same.
  unfoldable pub check_found : Cluster → Option ExhaustPending → ℤ × Time → M (State R) Condition
  unfolding judge_pending
  check_found cluster none found s = (panic, s)
  check_found cluster (some pending) found s =
      judge_pending found pending
        (cluster.scaled_value pending.threshold s.autoscaler.status.current_replicas, s)

  -- From the pods on: the clock is read for the oldest of them.
  unfoldable pub check_pods : Cluster → Exhaust → List Pod → M (State R) Condition
  unfolding check_found pending_pods
  check_pods cluster exhaust pods s =
      check_found cluster exhaust.pending (pending_pods pods (pos 0) (now s.clock))
        (record s { clock = tick s.clock })

  unfoldable pub after_pods :
      Cluster → Exhaust → Result (List Pod) × State R → Result Condition × State R
  unfolding check_pods
  after_pods cluster exhaust (ok pods, s) = check_pods cluster exhaust pods s
  after_pods cluster exhaust (err e, s) = (err e, s)
  after_pods cluster exhaust (panic, s) = (panic, s)

  unfoldable pub check_pending :
      Cluster → Exhaust → Result String × State R → Result Condition × State R
  unfolding after_pods
  check_pending cluster exhaust (ok selector, s) =
      after_pods cluster exhaust (cluster.list_pods s.autoscaler.namespace selector, s)
  check_pending cluster exhaust (err e, s) = (err e, s)
  check_pending cluster exhaust (panic, s) = (panic, s)

  unfoldable pub keep_condition : Result Condition × State R → Result Duration × State R
  unfolding put_condition
  keep_condition (ok c, s) = (ok not_requeue, put_condition c s)
  keep_condition (err e, s) = (err e, s)
  keep_condition (panic, s) = (panic, s)

  unfoldable pub exhaust_test : Cluster → Scale → Option Exhaust → M (State R) Duration
  unfolding check_pending keep_condition exhausted_condition put_condition
  exhaust_test cluster scale none s =
      (ok not_requeue, put_condition (exhausted_condition false (pos 0) (pos 0)) s)
  exhaust_test cluster scale (some exhaust) s =
      keep_condition
        (check_pending cluster exhaust (cluster.parse_selector scale.status_selector, s))

  -- The clock is read first, for a time that `SetCondition` does not use.
  unfoldable pub update_exhausted_autoscaler : Cluster → Scale → M (State R) Duration
  unfolding on_pending exhaust_test
  update_exhausted_autoscaler cluster scale s =
      exhaust_test cluster scale (on_pending s.autoscaler.spec.exhaust)
        (record s { clock = tick s.clock })
