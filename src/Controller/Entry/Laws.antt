-- ===== src/Controller/Entry/Laws.antt =====
-- Laws of controllers/replicaautoscaler_controller.go.
use wing.Base.{
  Bool-cases, Option-cases, pos, Error, ◌≡◌, refl, ◌⊎◌, inl, inr, true, false, none, some, [], ◌∷◌,
}
use wing.Api.Types.{ReplicaAutoscaler}
use wing.Controller.State.{requeue_delay_on_error_state}
use wing.Controller.Entry.{
  status_patch, object_patch, ApiServer, needed_patch, update_autoscaler_if_needed,
}

-- At most one patch is sent: none if the annotations and the status are equal to what was observed,
-- the status alone if only it differs, and both if the annotations differ. The error is the API
-- server's answer to the patch, and then the delay is that of the error state.
pub update_autoscaler_if_needed_lem :
    (api : ApiServer) (observed a : ReplicaAutoscaler)
    → let out = update_autoscaler_if_needed api observed a in
      let annotations_equal = api.equal_annotations a.annotations observed.annotations in
      let status_equal = api.equal_status a.status observed.status in
      (((out.1 ≡ []) × (out.0.error ≡ none) × (annotations_equal ≡ true) × (status_equal ≡ true))
        ⊎ (((out.1 ≡ status_patch a.status ∷ [])
              × (out.0.error ≡ api.answer (status_patch a.status))
              × (annotations_equal ≡ true)
              × (status_equal ≡ false))
            ⊎ ((out.1 ≡ object_patch a.annotations a.status ∷ [])
                × (out.0.error ≡ api.answer (object_patch a.annotations a.status))
                × (annotations_equal ≡ false))))
      × (((out.0.error ≡ none) × (out.0.requeue_after ≡ pos 0))
          ⊎ ((e : Error) × (out.0.error ≡ some e)
              × (out.0.requeue_after ≡ requeue_delay_on_error_state)))
unfolding update_autoscaler_if_needed needed_patch
update_autoscaler_if_needed_lem api observed a =
    elim (Bool-cases (api.equal_annotations a.annotations observed.annotations)) [
      | inl same_annotations ↦ elim (Bool-cases (api.equal_status a.status observed.status)) [
        | inl same_status ↦
            rw (same_annotations, same_status, update_autoscaler_if_needed)
              (inl (refl, refl, refl, refl), inl (refl, refl))
        | inr new_status ↦ elim (Option-cases (api.answer (status_patch a.status))) [
          | inl done ↦
              rw (same_annotations, new_status, done, update_autoscaler_if_needed)
                (inr (inl (refl, refl, refl, refl)), inl (refl, refl))
          | inr (e, failed) ↦
              rw (same_annotations, new_status, failed, update_autoscaler_if_needed)
                (inr (inl (refl, refl, refl, refl)), inr (e, refl, refl))
        ]
      ]
      | inr new_annotations ↦
          elim (Option-cases (api.answer (object_patch a.annotations a.status))) [
            | inl done ↦
                rw (new_annotations, done, update_autoscaler_if_needed)
                  (inr (inr (refl, refl, refl)), inl (refl, refl))
            | inr (e, failed) ↦
                rw (new_annotations, failed, update_autoscaler_if_needed)
                  (inr (inr (refl, refl, refl)), inr (e, refl, refl))
          ]
    ]
