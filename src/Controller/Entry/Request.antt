-- ===== src/Controller/Entry/Request.antt =====
-- What a whole request comes to.
use wing.Base.{
  pos, Error, Result, ok, err, panic, Duration, Float64, ◌≡◌, refl, sym, ◌∙◌, ◌⊎◌, inl, inr, true,
  false, none, some, List, [], ◌∷◌,
}
use wing.Api.Types.{ReplicaAutoscaler}
use wing.Utils.Timerange.{TimeLibrary}
use wing.Utils.ReplicaPatches.{PatchCodec, PatchState, purge_unused_replica_patches}
use wing.Utils.ReplicaPatches.Annotations.{SameButAnnotations, purge-Same}
use wing.Controller.State.{State, Cluster, Plugins, requeue_delay_on_error_state}
use wing.Controller.Reconcile.{reconcile}
use wing.Controller.Reconcile.Answers.{NoError, reconcile-NoError}
use wing.Controller.Entry.{
  Patch, status_patch, object_patch, ApiServer, Answer, answer_of, update_autoscaler_if_needed,
  after_purge, after_reconcile, reconcile_request,
}
use wing.Controller.Entry.Laws.{update_autoscaler_if_needed_lem}

-- The patch that the changes from `observed` to `a` ask for.
pub data IsPatch (api : ApiServer) (observed a : ReplicaAutoscaler) : Patch → Type 0 where
  new_status :
      api.equal_annotations a.annotations observed.annotations ≡ true
      → api.equal_status a.status observed.status ≡ false
      → IsPatch api observed a (status_patch a.status)
  new_annotations :
      api.equal_annotations a.annotations observed.annotations ≡ false
      → IsPatch api observed a (object_patch a.annotations a.status)

-- The answer of a request whose reconciliation gave `delay`, and the patches that it sent.
pub data Answers (api : ApiServer) (observed a : ReplicaAutoscaler) (delay : Duration)
    (out : Answer × List Patch) : Type 0 where
  unneeded :
      api.equal_annotations a.annotations observed.annotations ≡ true
      → api.equal_status a.status observed.status ≡ true
      → out ≡ (record { requeue_after = delay; error = none }, [])
      → Answers api observed a delay out
  accepted :
      (p : Patch)
      → IsPatch api observed a p
      → api.answer p ≡ none
      → out ≡ (record { requeue_after = delay; error = none }, p ∷ [])
      → Answers api observed a delay out
  refused :
      (p : Patch) (e : Error)
      → IsPatch api observed a p
      → api.answer p ≡ some e
      → out ≡ (record { requeue_after = requeue_delay_on_error_state; error = some e }, p ∷ [])
      → Answers api observed a delay out

answer_of-none :
    (delay : Duration) (u : Answer)
    → u.error ≡ none
    → answer_of delay u ≡ record { requeue_after = delay; error = none }
unfolding answer_of
answer_of-none delay u h = rw (h, answer_of) refl

answer_of-some :
    (delay : Duration) (u : Answer) (e : Error)
    → u.error ≡ some e
    → answer_of delay u ≡ record { requeue_after = u.requeue_after; error = some e }
unfolding answer_of
answer_of-some delay u e h =
    rw (h, answer_of) (λ i. record { requeue_after = u.requeue_after; error = h i })

module _ (api : ApiServer) (observed a : ReplicaAutoscaler) (delay : Duration) where
  sent_one :
      (p : Patch) (u : Answer × List Patch)
      → IsPatch api observed a p
      → u.1 ≡ p ∷ []
      → u.0.error ≡ api.answer p
      → ((u.0.error ≡ none) × (u.0.requeue_after ≡ pos 0))
        ⊎ ((e : Error) × (u.0.error ≡ some e) × (u.0.requeue_after ≡ requeue_delay_on_error_state))
      → Answers api observed a delay (answer_of delay u.0, u.1)
  sent_one p u is_patch sent answered (inl (done, _)) =
      accepted p is_patch (sym answered ∙ done) (λ i. (answer_of-none delay u.0 done i, sent i))
  sent_one p u is_patch sent answered (inr (e, failed, later)) =
      refused p e is_patch (sym answered ∙ failed) (λ i. (
        (answer_of-some delay u.0 e failed
              ∙ (λ j. record { requeue_after = later j; error = some e }))
            i,
        sent i,
      ))

  update-Answers :
      let u = update_autoscaler_if_needed api observed a in
      Answers api observed a delay (answer_of delay u.0, u.1)
  update-Answers =
      let u = update_autoscaler_if_needed api observed a in
      let (which, answered) = update_autoscaler_if_needed_lem api observed a in
      elim which [
        | inl (sent, done, same_annotations, same_status) ↦
            unneeded same_annotations same_status (λ i. (answer_of-none delay u.0 done i, sent i))
        | inr some_sent ↦ elim some_sent [
          | inl (sent, error, same_annotations, changed) ↦
              sent_one (status_patch a.status) u (new_status same_annotations changed) sent error
                answered
          | inr (sent, error, changed) ↦
              sent_one (object_patch a.annotations a.status) u (new_annotations changed) sent error
                answered
        ]
      ]

module _ (F : Type 0) ⦃f : Float64 F⦄ {R : Type 0} (lib : TimeLibrary) (json : PatchCodec)
    (cluster : Cluster) (api : ApiServer) (plugins : Plugins R) where
  -- A request whose object could not be read; one that panicked; and one that was reconciled, from
  -- a state `begin` in which only the annotations may differ from those of the object.
  pub data Request (got : Result ReplicaAutoscaler) (s : State R)
      (out : Result (Answer × List Patch) × State R) : Type 0 where
    not_read :
        (e : Error)
        → got ≡ err e
        → out ≡ (ok (record { requeue_after = pos 0; error = some e }, []), s)
        → Request got s out
    panicked : out.0 ≡ panic → Request got s out
    reconciled :
        (observed : ReplicaAutoscaler) (begin : State R) (delay : Duration)
        (answer : Answer × List Patch)
        → got ≡ ok observed
        → SameButAnnotations observed begin.autoscaler
        → reconcile F lib json cluster plugins begin ≡ (ok delay, out.1)
        → out.0 ≡ ok answer
        → Answers api observed out.1.autoscaler delay answer
        → Request got s out

  after_reconcile-Request :
      (observed : ReplicaAutoscaler) (s begin : State R) (x : Result Duration × State R)
      → SameButAnnotations observed begin.autoscaler
      → reconcile F lib json cluster plugins begin ≡ x
      → NoError x.0
      → Request (ok observed) s (after_reconcile F api observed x)
  unfolding after_reconcile
  after_reconcile-Request observed s begin (ok delay, t) same e h =
      let u = update_autoscaler_if_needed api observed t.autoscaler in
      reconciled observed begin delay (answer_of delay u.0, u.1) refl same e refl
        (update-Answers api observed t.autoscaler delay)
  after_reconcile-Request observed s begin (err _, t) same e h = absurd h
  after_reconcile-Request observed s begin (panic, t) same e h = panicked refl

  after_purge-Request :
      (observed : ReplicaAutoscaler) (s : State R) (p : Result (Unit {0}) × PatchState)
      → SameButAnnotations observed p.1.autoscaler
      → Request (ok observed) s (elim (after_purge F p s) [
        | ok s' ↦ after_reconcile F api observed (reconcile F lib json cluster plugins s')
        | err e ↦ (err e, s)
        | panic ↦ (panic, s)
      ])
  unfolding after_purge
  after_purge-Request observed s (ok _, p) same =
      let begin : State R = record s { autoscaler = p.autoscaler; clock = p.clock } in
      after_reconcile-Request observed s begin (reconcile F lib json cluster plugins begin) same
        refl (reconcile-NoError F lib json cluster plugins begin)
  after_purge-Request observed s (err _, p) same =
      let begin : State R = record s { autoscaler = p.autoscaler; clock = p.clock } in
      after_reconcile-Request observed s begin (reconcile F lib json cluster plugins begin) same
        refl (reconcile-NoError F lib json cluster plugins begin)
  after_purge-Request observed s (panic, p) same = panicked refl

  -- A request panics, or it answers. It answers an error only where the object could not be read, or
  -- where the API server refused a patch, after 30 seconds then, and else the delay of the
  -- reconciliation. It sends one patch of what changed where the reconciliation or the removal of
  -- expired patches changed the annotations or the status, and none where nothing did.
  pub reconcile_request-Request :
      (got : Result ReplicaAutoscaler) (s : State R)
      → Request got s (reconcile_request F lib json cluster api plugins got s)
  unfolding reconcile_request
  reconcile_request-Request (err e) s = not_read e refl refl
  reconcile_request-Request panic s = panicked refl
  reconcile_request-Request (ok observed) s =
      let purged =
        purge_unused_replica_patches lib json (record { autoscaler = observed; clock = s.clock }) in
      after_purge-Request observed s purged
        (purge-Same json lib (record { autoscaler = observed; clock = s.clock }))
