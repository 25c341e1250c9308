-- ===== src/Controller/Reconcile/Answers.antt =====
-- Of which kind the result of each step of a reconciliation is.
use wing.Base.{
  Option-cases, ℤ, Dict, lookup, Result, M, bind_at, ok, err, panic, Time, Duration, Clock, now,
  tick, Float64, String, inl, inr, Bool, true, false, Option, none, some, List, [], ◌∷◌,
}
use wing.Api.Types.{ReplicaAutoscalerTarget, Raw, ReplicaPatch}
use wing.Api.Gvkr.{GroupVersionKindResource}
use wing.Kubernetes.{Scale}
use wing.Utils.Timerange.{TimeLibrary}
use wing.Utils.ReplicaPatches.{PatchCodec}
use wing.Utils.Status.{purge_target_status}
use wing.Engine.Interfaces.{ScalerOutput}
use wing.Controller.State.{State, Cluster, Plugins, set_status, status_of}
use wing.Controller.Target.{get_scale_target}
use wing.Controller.Exhaust.{update_exhausted_autoscaler}
use wing.Controller.Targets.{
  Collected, halted, collected, after_scaler, ask_scaler, go_on, ask_scalers, call_scaler,
  scaler_context,
}
use wing.Controller.Limits.{
  Bounds, patch_bounds, working_bounds, after_scaling, apply_desired, normalize,
}
use wing.Controller.Autoscaling.{
  selected_replicator, after_replicator, call_replicator, ask_replicator, after_targets,
  scale_unless_cold, scale_by_targets, with_selector, reconcile_autoscaling,
}
use wing.Controller.Reconcile.{
  observe, after_static, scale_target, declare_ready, after_exhaust, after_target, unless_deleted,
  reconcile,
}

-- A value or a panic.
abbrev pub NoError {ℓ} : {A : Type ℓ} → Result A → Type 0
NoError (ok a) = Unit {0}
NoError (err e) = ⊥
NoError panic = Unit {0}

module _ {R : Type 0} where
  after_scaler-NoError :
      (metric : String) (outputs : Dict ScalerOutput) (managed : List String)
      (x : Result ScalerOutput × State R)
      → NoError (after_scaler metric outputs managed x).0
  unfolding after_scaler
  after_scaler-NoError metric outputs managed (ok out, t) = tt
  after_scaler-NoError metric outputs managed (err e, t) = tt
  after_scaler-NoError metric outputs managed (panic, t) = tt

  ask_scaler-NoError :
      (plugins : Plugins R) (selector : String) (scale : Scale) (metric : String)
      (outputs : Dict ScalerOutput) (managed : List String) (r : Result Raw) (s : State R)
      → NoError (ask_scaler plugins selector scale metric outputs managed r s).0
  unfolding ask_scaler
  ask_scaler-NoError plugins selector scale metric outputs managed (ok settings) s =
      elim (Option-cases (lookup metric plugins.scalers)) [
        | inl missing ↦ rw (missing, ask_scaler) tt
        | inr (scaler, found) ↦
            rw (found, ask_scaler)
              (after_scaler-NoError metric outputs managed
                (call_scaler scaler (scaler_context settings selector scale s) s))
      ]
  ask_scaler-NoError plugins selector scale metric outputs managed (err e) s = tt
  ask_scaler-NoError plugins selector scale metric outputs managed panic s = tt

  go_on-NoError :
      (next : Dict ScalerOutput → List String → M (State R) Collected)
      (x : Result Collected × State R)
      → NoError x.0
      → ((o : Dict ScalerOutput) (m : List String) (t : State R) → NoError (next o m t).0)
      → NoError (go_on next x).0
  go_on-NoError next (ok (collected o m), t) h k = k o m t
  go_on-NoError next (ok (halted delay), t) h k = tt
  go_on-NoError next (err e, t) h k = h
  go_on-NoError next (panic, t) h k = tt

  ask_scalers-NoError :
      (lib : TimeLibrary) (cluster : Cluster) (plugins : Plugins R) (at : Time) (selector : String)
      (scale : Scale) (ts : List ReplicaAutoscalerTarget) (outputs : Dict ScalerOutput)
      (managed : List String) (s : State R)
      → NoError (ask_scalers lib cluster plugins at selector scale ts outputs managed s).0
  unfolding ask_scalers
  ask_scalers-NoError lib cluster plugins at selector scale [] outputs managed s = tt
  ask_scalers-NoError lib cluster plugins at selector scale (t ∷ ts) outputs managed s =
      go_on-NoError _ _ (ask_scaler-NoError plugins selector scale t.metric outputs managed _ _)
        (λ o m u. ask_scalers-NoError lib cluster plugins at selector scale ts o m u)

  bind_at-NoError {ℓ κ} :
      {A : Type ℓ} {B : Type κ} (x : Result A × State R) (g : A → M (State R) B)
      → NoError x.0
      → ((a : A) (t : State R) → NoError (g a t).0)
      → NoError (bind_at x g).0
  bind_at-NoError (ok a, t) g h k = k a t
  bind_at-NoError (err e, t) g h k = h
  bind_at-NoError (panic, t) g h k = tt

  patch_bounds-NoError : (x : Result (Option ReplicaPatch) × State R) → NoError (patch_bounds x).0
  unfolding patch_bounds
  patch_bounds-NoError (ok none, s) = tt
  patch_bounds-NoError (ok (some p), s) = tt
  patch_bounds-NoError (err e, s) = tt
  patch_bounds-NoError (panic, s) = tt

  working_bounds-NoError :
      (lib : TimeLibrary) (json : PatchCodec) (s : State R) → NoError (working_bounds lib json s).0
  unfolding working_bounds
  working_bounds-NoError lib json s = patch_bounds-NoError _

module _ (F : Type 0) ⦃f : Float64 F⦄ {R : Type 0} (lib : TimeLibrary) (json : PatchCodec)
    (cluster : Cluster) (plugins : Plugins R) where
  after_scaling-NoError :
      (under : Bool) (current desired : ℤ) (x : Result (Unit {0}) × State R)
      → NoError (after_scaling F under current desired x).0
  unfolding after_scaling
  after_scaling-NoError under current desired (ok _, t) = tt
  after_scaling-NoError under current desired (err e, t) = tt
  after_scaling-NoError under current desired (panic, t) = tt

  apply_desired-NoError :
      (gvkr : GroupVersionKindResource) (scale : Scale) (under : Bool) (desired : ℤ)
      (bounds : Bounds) (s : State R)
      → NoError (apply_desired F cluster gvkr scale under desired bounds s).0
  unfolding apply_desired
  apply_desired-NoError gvkr scale under desired bounds s =
      after_scaling-NoError under scale.spec_replicas (normalize bounds desired).0 _

  after_replicator-NoError :
      (gvkr : GroupVersionKindResource) (scale : Scale) (under : Bool) (x : Result ℤ × State R)
      → NoError (after_replicator F lib json cluster gvkr scale under x).0
  unfolding after_replicator
  after_replicator-NoError gvkr scale under (ok desired, t) =
      bind_at-NoError (working_bounds lib json t) _ (working_bounds-NoError lib json t)
        (apply_desired-NoError gvkr scale under desired)
  after_replicator-NoError gvkr scale under (err e, t) = tt
  after_replicator-NoError gvkr scale under (panic, t) = tt

  ask_replicator-NoError :
      (gvkr : GroupVersionKindResource) (scale : Scale) (under : Bool) (outputs : Dict ScalerOutput)
      (s : State R)
      → NoError (ask_replicator F lib json cluster plugins gvkr scale under outputs s).0
  unfolding ask_replicator
  ask_replicator-NoError gvkr scale under outputs s =
      elim (Option-cases (lookup (selected_replicator s.autoscaler) plugins.replicators)) [
        | inl missing ↦ rw (missing, ask_replicator) tt
        | inr (replicator, found) ↦
            rw (found, ask_replicator)
              (after_replicator-NoError gvkr scale under (
                call_replicator replicator scale outputs
                  (record s { clock = tick (tick s.clock) })))
      ]

  after_targets-NoError :
      (gvkr : GroupVersionKindResource) (scale : Scale) (under : Bool)
      (x : Result Collected × State R)
      → NoError x.0
      → NoError (after_targets F lib json cluster plugins gvkr scale under x).0
  unfolding after_targets
  after_targets-NoError gvkr scale under (ok (halted delay), t) h = tt
  after_targets-NoError gvkr scale under (ok (collected outputs managed), t) h =
      ask_replicator-NoError gvkr scale under outputs
        (set_status (purge_target_status managed (status_of t)) t)
  after_targets-NoError gvkr scale under (err e, t) h = h
  after_targets-NoError gvkr scale under (panic, t) h = tt

  scale_unless_cold-NoError :
      (gvkr : GroupVersionKindResource) (scale : Scale) (selector : String) (under : Bool)
      (cold : Bool × Clock) (s : State R)
      → NoError (scale_unless_cold F lib json cluster plugins gvkr scale selector under cold s).0
  unfolding scale_unless_cold
  scale_unless_cold-NoError gvkr scale selector under (true, k) s = tt
  scale_unless_cold-NoError gvkr scale selector under (false, k) s =
      after_targets-NoError gvkr scale under _ (
        ask_scalers-NoError lib cluster plugins (now k) selector scale s.autoscaler.spec.targets []
          [] (record s { clock = tick k }))

  with_selector-NoError :
      (gvkr : GroupVersionKindResource) (scale : Scale) (r : Result String) (s : State R)
      → NoError (with_selector F lib json cluster plugins gvkr scale r s).0
  unfolding with_selector scale_by_targets
  with_selector-NoError gvkr scale (ok selector) s =
      scale_unless_cold-NoError gvkr scale selector _ _ s
  with_selector-NoError gvkr scale (err e) s = tt
  with_selector-NoError gvkr scale panic s = tt

  after_static-NoError : (x : Result (Unit {0}) × State R) → NoError (after_static F x).0
  unfolding after_static
  after_static-NoError (ok _, t) = tt
  after_static-NoError (err e, t) = tt
  after_static-NoError (panic, t) = tt

  scale_target-NoError :
      (gvkr : GroupVersionKindResource) (scale : Scale) (least : Option ℤ) (s : State R)
      → NoError (scale_target F lib json cluster plugins gvkr scale least s).0
  unfolding scale_target reconcile_autoscaling
  scale_target-NoError gvkr scale none s = after_static-NoError _
  scale_target-NoError gvkr scale (some least) s = with_selector-NoError gvkr scale _ s

  declare_ready-NoError :
      (x : Result Duration × State R) → NoError x.0 → NoError (declare_ready F x).0
  unfolding declare_ready
  declare_ready-NoError (ok delay, t) h = tt
  declare_ready-NoError (err e, t) h = h
  declare_ready-NoError (panic, t) h = tt

  after_exhaust-NoError :
      (gvkr : GroupVersionKindResource) (scale : Scale) (x : Result Duration × State R)
      → NoError (after_exhaust F lib json cluster plugins gvkr scale x).0
  unfolding after_exhaust
  after_exhaust-NoError gvkr scale (ok delay, t) =
      declare_ready-NoError _
        (scale_target-NoError gvkr scale t.autoscaler.spec.min_replicas (observe F scale t))
  after_exhaust-NoError gvkr scale (err e, t) = tt
  after_exhaust-NoError gvkr scale (panic, t) = tt

  after_target-NoError :
      (x : Result (GroupVersionKindResource × Scale) × State R)
      → NoError (after_target F lib json cluster plugins x).0
  unfolding after_target
  after_target-NoError (ok (gvkr, scale), t) =
      after_exhaust-NoError gvkr scale (update_exhausted_autoscaler cluster scale t)
  after_target-NoError (err e, t) = tt
  after_target-NoError (panic, t) = tt

  unless_deleted-NoError :
      (deleted : Option Time) (s : State R)
      → NoError (unless_deleted F lib json cluster plugins deleted s).0
  unfolding unless_deleted
  unless_deleted-NoError (some _) s = tt
  unless_deleted-NoError none s = after_target-NoError (get_scale_target cluster s)

  -- `reconcile` gives a delay or panics: every error on its way ends in a delay.
  pub reconcile-NoError : (s : State R) → NoError (reconcile F lib json cluster plugins s).0
  unfolding reconcile
  reconcile-NoError s = unless_deleted-NoError _ s
