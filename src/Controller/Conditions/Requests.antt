-- ===== src/Controller/Conditions/Requests.antt =====
-- The conditions in what a request sends.
use wing.Base.{
  All, Result, ok-injective, err-ne-ok, OkThen, ok, Duration, Float64, ◌≡◌, sym, ap, ◌∙◌, subst,
  List,
}
use wing.Api.Types.{ReplicaAutoscaler, ReplicaAutoscalerStatus}
use wing.Api.Condition.Unique.{IsUnique, set_condition-IsUnique}
use wing.Utils.Timerange.{TimeLibrary}
use wing.Utils.ReplicaPatches.{PatchCodec}
use wing.Plugins.Simple.{History}
use wing.Plugins.Setup.{Environment, start_engine}
use wing.Controller.State.{State, Cluster}
use wing.Controller.Entry.{Patch, status_patch, object_patch, ApiServer, Answer, reconcile_request}
use wing.Controller.Entry.Request.{
  IsPatch, new_status, new_annotations, Answers, unneeded, accepted, refused, Request, not_read,
  panicked, reconciled, reconcile_request-Request,
}
use wing.Controller.Conditions.Program.{engine_plugins, program-Holds}

-- The status that a patch writes.
abbrev pub patched_status : Patch → ReplicaAutoscalerStatus
patched_status (status_patch status) = status
patched_status (object_patch annotations status) = status

abbrev pub WritesUnique : Patch → Type 0
WritesUnique p = IsUnique (patched_status p).conditions

IsPatch-WritesUnique :
    (api : ApiServer) (observed a : ReplicaAutoscaler) (p : Patch)
    → IsPatch api observed a p
    → IsUnique a.status.conditions
    → WritesUnique p
IsPatch-WritesUnique api observed a (status_patch status) (new_status same changed) u = u
IsPatch-WritesUnique api observed a (object_patch annotations status) (new_annotations changed) u =
    u

Answers-WritesUnique :
    (api : ApiServer) (observed a : ReplicaAutoscaler) (delay : Duration)
    (out : Answer × List Patch)
    → Answers api observed a delay out
    → IsUnique a.status.conditions
    → All WritesUnique out.1
Answers-WritesUnique api observed a delay out (unneeded annotations status e) u =
    subst (λ x. All WritesUnique x.1) (sym e) tt
Answers-WritesUnique api observed a delay out (accepted p is_patch answer e) u =
    subst (λ x. All WritesUnique x.1) (sym e) (IsPatch-WritesUnique api observed a p is_patch u, tt)
Answers-WritesUnique api observed a delay out (refused p error is_patch answer e) u =
    subst (λ x. All WritesUnique x.1) (sym e) (IsPatch-WritesUnique api observed a p is_patch u, tt)

module _ (F : Type 0) ⦃f : Float64 F⦄ (env : Environment F) (lib : TimeLibrary) (json : PatchCodec)
    (cluster : Cluster) (api : ApiServer) where
  Request-WritesUnique :
      (observed : ReplicaAutoscaler) (s : State History)
      (out : Result (Answer × List Patch) × State History)
      → (start_engine F env).0 ≡ ok tt
      → IsUnique observed.status.conditions
      → Request F lib json cluster api (engine_plugins (start_engine F env).1) (ok observed) s out
      → OkThen (λ a. All WritesUnique a.1) out.0
  Request-WritesUnique observed s out started u (not_read e got same) = absurd (err-ne-ok (sym got))
  Request-WritesUnique observed s out started u (panicked e) =
      subst (OkThen (λ a. All WritesUnique a.1)) (sym e) tt
  Request-WritesUnique observed s out started u
        (reconciled read begin delay answer got same run answered answers) =
      let (_, same_status, _) = same in
      let before : IsUnique begin.autoscaler.status.conditions =
        subst (λ status. IsUnique status.conditions)
          (ap (λ a. a.status) (ok-injective got) ∙ sym same_status) u in
      let after : IsUnique out.1.autoscaler.status.conditions =
        subst (λ x. IsUnique x.1.autoscaler.status.conditions) run
          (program-Holds F IsUnique env lib json cluster begin set_condition-IsUnique started
            before) in
      subst (OkThen (λ a. All WritesUnique a.1)) (sym answered)
        (Answers-WritesUnique api read out.1.autoscaler delay answer answers after)

  -- If the program starts, every patch that a request sends has each type of condition once in its
  -- status, where the object that was read has.
  pub reconcile_request-IsUnique :
      (observed : ReplicaAutoscaler) (s : State History)
      → (start_engine F env).0 ≡ ok tt
      → IsUnique observed.status.conditions
      → OkThen
          (λ a. All WritesUnique a.1)
          (reconcile_request F lib json cluster api
            (engine_plugins (start_engine F env).1)
            (ok observed)
            s).0
  reconcile_request-IsUnique observed s started u = Request-WritesUnique observed s _ started u (
      reconcile_request-Request F lib json cluster api (engine_plugins (start_engine F env).1)
        (ok observed) s)
