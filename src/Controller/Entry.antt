-- ===== src/Controller/Entry.antt =====
-- controllers/replicaautoscaler_controller.go: `Reconcile` and `updateAutoscalerIfNeeded`.
pub mod Laws
pub mod Request
use wing.Base.{
  if◌then◌else◌, pos, Dict, Error, Result, ok, err, panic, Duration, Float64, String, Bool, not,
  ◌&&◌, Option, none, some, List, [], ◌∷◌,
}
use wing.Api.Types.{ReplicaAutoscaler, ReplicaAutoscalerStatus}
use wing.Utils.Timerange.{TimeLibrary}
use wing.Utils.ReplicaPatches.{PatchCodec, PatchState, purge_unused_replica_patches}
use wing.Controller.State.{State, Cluster, Plugins, requeue_delay_on_error_state}
use wing.Controller.Reconcile.{reconcile}

-- A patch that is sent: of the status alone, or of the annotations too.
pub data Patch : Type 0 where
  status_patch : ReplicaAutoscalerStatus → Patch
  object_patch : Dict String → ReplicaAutoscalerStatus → Patch

-- The semantic equality of apimachinery, and the answer of the API server to a patch.
pub record ApiServer : Type 0 where
  pub equal_annotations : Dict String → Dict String → Bool
  pub equal_status : ReplicaAutoscalerStatus → ReplicaAutoscalerStatus → Bool
  pub answer : Patch → Option Error

-- `ctrl.Result` and the error beside it.
pub record Answer : Type 0 where
  pub requeue_after : Duration
  pub error : Option Error

-- What the comparison of the object before and after asks for.
unfoldable pub needed_patch : ApiServer → ReplicaAutoscaler → ReplicaAutoscaler → Option Patch
needed_patch api observed a =
    let annotations_equal = api.equal_annotations a.annotations observed.annotations in
    let status_equal = api.equal_status a.status observed.status in
    if annotations_equal && status_equal
    then none
    else if annotations_equal && not status_equal
    then some (status_patch a.status)
    else some (object_patch a.annotations a.status)

-- The delay, the error and the patches that were sent.
unfoldable pub update_autoscaler_if_needed :
    ApiServer → ReplicaAutoscaler → ReplicaAutoscaler → Answer × List Patch
unfolding needed_patch
update_autoscaler_if_needed api observed a = elim (needed_patch api observed a) [
  | none ↦ (record { requeue_after = pos 0; error = none }, [])
  | some patch ↦ elim (api.answer patch) [
    | none ↦ (record { requeue_after = pos 0; error = none }, patch ∷ [])
    | some e ↦ (record { requeue_after = requeue_delay_on_error_state; error = some e }, patch ∷ [])
  ]
]

-- The delay of the reconciliation, unless the update failed.
unfoldable pub answer_of : Duration → Answer → Answer
answer_of delay update = elim update.error [
  | none ↦ record { requeue_after = delay; error = none }
  | some e ↦ update
]

module _ (F : Type 0) ⦃f : Float64 F⦄ where
  module _ {R : Type 0} where
    -- An error of the removal of expired patches is only logged; a panic is not.
    unfoldable pub after_purge : Result (Unit {0}) × PatchState → State R → Result (State R)
    after_purge (ok _, p) s = ok (record s { autoscaler = p.autoscaler; clock = p.clock })
    after_purge (err e, p) s = ok (record s { autoscaler = p.autoscaler; clock = p.clock })
    after_purge (panic, p) s = panic

    unfoldable pub after_reconcile :
        ApiServer
        → ReplicaAutoscaler
        → Result Duration × State R
        → Result (Answer × List Patch) × State R
    unfolding update_autoscaler_if_needed answer_of
    after_reconcile api observed (ok delay, s) =
        let (update, sent) = update_autoscaler_if_needed api observed s.autoscaler in
        (ok (answer_of delay update, sent), s)
    after_reconcile api observed (err e, s) = (err e, s)
    after_reconcile api observed (panic, s) = (panic, s)

    -- The autoscaler that the cache gives, or its error. The state holds the clock, the replicator and
    -- the cache of scalable resources.
    unfoldable pub reconcile_request :
        TimeLibrary
        → PatchCodec
        → Cluster
        → ApiServer
        → Plugins R
        → Result ReplicaAutoscaler
        → State R
        → Result (Answer × List Patch) × State R
    unfolding purge_unused_replica_patches after_purge reconcile after_reconcile
    reconcile_request lib json cluster api plugins (err e) s =
        (ok (record { requeue_after = pos 0; error = some e }, []), s)
    reconcile_request lib json cluster api plugins panic s = (panic, s)
    reconcile_request lib json cluster api plugins (ok observed) s =
        let purged =
          purge_unused_replica_patches lib json
            (record { autoscaler = observed; clock = s.clock }) in
        elim (after_purge purged s) [
          | ok s' ↦ after_reconcile api observed (reconcile F lib json cluster plugins s')
          | err e ↦ (err e, s)
          | panic ↦ (panic, s)
        ]
