-- ===== src/Controller/Reconcile/Ready.antt =====
-- What a reconciliation says of the autoscaler's readiness.
use wing.Base.{
  Result, ok, err, panic, Time, Duration, Float64, ◌≡◌, refl, sym, ap, ◌∙◌, Option, none, some,
}
use wing.Api.Condition.{new_condition, get_condition, condition_ready, condition_true}
use wing.Api.Condition.Laws.{Says, get-set_condition_self}
use wing.Api.Gvkr.{GroupVersionKindResource}
use wing.Kubernetes.{Scale}
use wing.Controller.State.{State, Cluster, Plugins, put_condition}
use wing.Controller.Target.{get_scale_target}
use wing.Controller.Exhaust.{update_exhausted_autoscaler}
use wing.Utils.Timerange.{TimeLibrary}
use wing.Utils.ReplicaPatches.{PatchCodec}
use wing.Controller.Reconcile.{
  declare_ready, after_exhaust, after_target, unless_deleted, reconcile,
}

module _ (F : Type 0) ⦃f : Float64 F⦄ {R : Type 0} where
  abbrev pub SaysReady : State R → Type 0
  SaysReady s =
      Says (get_condition s.autoscaler.status.conditions condition_ready)
        (new_condition condition_ready condition_true "" "")

  declare_ready-SaysReady :
      (x : Result Duration × State R) (d : Duration)
      → (declare_ready F x).0 ≡ ok d
      → SaysReady (declare_ready F x).1
  unfolding declare_ready put_condition
  declare_ready-SaysReady (ok delay, s) d e =
      get-set_condition_self s.autoscaler.status.conditions
        (new_condition condition_ready condition_true "" "") s.clock
  declare_ready-SaysReady (err _, s) d e = cc
  declare_ready-SaysReady (panic, s) d e = cc

  after_exhaust-SaysReady :
      (lib : TimeLibrary) (json : PatchCodec) (cluster : Cluster) (plugins : Plugins R)
      (gvkr : GroupVersionKindResource) (scale : Scale) (x : Result Duration × State R)
      (delay d : Duration)
      → x.0 ≡ ok delay
      → (after_exhaust F lib json cluster plugins gvkr scale x).0 ≡ ok d
      → SaysReady (after_exhaust F lib json cluster plugins gvkr scale x).1
  unfolding after_exhaust
  after_exhaust-SaysReady lib json cluster plugins gvkr scale (ok _, s) delay d e h =
      declare_ready-SaysReady _ d h
  after_exhaust-SaysReady lib json cluster plugins gvkr scale (err _, s) delay d e h = cc
  after_exhaust-SaysReady lib json cluster plugins gvkr scale (panic, s) delay d e h = cc

  pub unless_deleted-none :
      (lib : TimeLibrary) (json : PatchCodec) (cluster : Cluster) (plugins : Plugins R)
      (deleted : Option Time) (s : State R)
      → deleted ≡ none
      → unless_deleted F lib json cluster plugins deleted s
        ≡ after_target F lib json cluster plugins (get_scale_target cluster s)
  unfolding unless_deleted
  unless_deleted-none lib json cluster plugins none s e = refl
  unless_deleted-none lib json cluster plugins (some when) s e = cc

  -- Once the target is found and the exhaust test gives no error, a reconciliation that does not
  -- fail says that the autoscaler is ready, with no reason and no message, whatever the scalers,
  -- the replicator and the update of the target came to.
  pub reconcile-SaysReady :
      (lib : TimeLibrary) (json : PatchCodec) (cluster : Cluster) (plugins : Plugins R)
      (gvkr : GroupVersionKindResource) (scale : Scale) (s t : State R) (delay d : Duration)
      → s.autoscaler.deletion_timestamp ≡ none
      → get_scale_target cluster s ≡ (ok (gvkr, scale), t)
      → (update_exhausted_autoscaler cluster scale t).0 ≡ ok delay
      → (reconcile F lib json cluster plugins s).0 ≡ ok d
      → SaysReady (reconcile F lib json cluster plugins s).1
  unfolding reconcile after_target
  reconcile-SaysReady lib json cluster plugins gvkr scale s t delay d alive target exhaust h =
      let same : reconcile F lib json cluster plugins s
          ≡ after_exhaust F lib json cluster plugins gvkr scale
              (update_exhausted_autoscaler cluster scale t) =
        unless_deleted-none lib json cluster plugins _ s alive
        ∙ ap (after_target F lib json cluster plugins) target in
      rw same (
        after_exhaust-SaysReady lib json cluster plugins gvkr scale _ delay d exhaust
          (sym (ap (λ x. x.0) same) ∙ h))
