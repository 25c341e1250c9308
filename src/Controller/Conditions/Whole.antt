-- ===== src/Controller/Conditions/Whole.antt =====
-- A whole reconciliation.
use wing.Base.{
  Option-cases, ℤ, Dict, lookup, ◌<>◌, Result, ok, err, panic, Time, Duration, Clock, now, tick,
  Float64, String, ◌≡◌, inl, inr, Bool, true, false, Option, none, some, [],
}
use wing.Api.Types.{Conditions}
use wing.Api.Gvkr.{GroupVersionKindResource}
use wing.Kubernetes.{Scale}
use wing.Utils.Timerange.{TimeLibrary}
use wing.Utils.ReplicaPatches.{PatchCodec}
use wing.Utils.Status.{purge_target_status}
use wing.Engine.Interfaces.{ScalerOutput, Scaler, Replicator}
use wing.Controller.State.{State, Cluster, Plugins, set_status, status_of}
use wing.Controller.Autoscaling.{
  selected_replicator, after_replicator, call_replicator, ask_replicator, after_targets,
  scale_unless_cold, scale_by_targets, with_selector, reconcile_autoscaling,
}
use wing.Controller.Target.{get_scale_target}
use wing.Controller.Exhaust.{update_exhausted_autoscaler}
use wing.Controller.Targets.{Collected, halted, collected}
use wing.Controller.Reconcile.{
  observe, after_static, scale_target, declare_ready, after_exhaust, after_target, unless_deleted,
  reconcile,
}
use wing.Controller.Conditions.{
  Keeps, Spares, Holds, bind_at-Holds, put_condition-Holds, not_ready-Holds,
}
use wing.Controller.Conditions.Steps.{
  get_scale_target-Holds, update_exhausted_autoscaler-Holds, ask_scalers-Holds,
}
use wing.Controller.Conditions.Settling.{
  scale_replicas-Holds, working_bounds-Holds, apply_desired-Holds,
}

module _ (F : Type 0) ⦃f : Float64 F⦄ {R : Type 0} (P : Conditions → Type 0) (keeps : Keeps P)
    (lib : TimeLibrary) (json : PatchCodec) (cluster : Cluster) (plugins : Plugins R)
    (spare : (name : String) (scaler : Scaler)
      → lookup name plugins.scalers ≡ some scaler
      → Spares scaler) where
  after_replicator-Holds :
      (gvkr : GroupVersionKindResource) (scale : Scale) (under : Bool) (x : Result ℤ × State R)
      → Holds P x.1
      → Holds P (after_replicator F lib json cluster gvkr scale under x).1
  unfolding after_replicator
  after_replicator-Holds gvkr scale under (ok desired, t) h =
      bind_at-Holds P _ _ (working_bounds-Holds P keeps lib json t h)
        (λ b u q. apply_desired-Holds P keeps F cluster gvkr scale under desired b u q)
  after_replicator-Holds gvkr scale under (err e, t) h = h
  after_replicator-Holds gvkr scale under (panic, t) h = h

  call_replicator-Holds :
      (replicator : Replicator R) (scale : Scale) (outputs : Dict ScalerOutput) (s : State R)
      → Holds P s
      → Holds P (call_replicator replicator scale outputs s).1
  unfolding call_replicator
  call_replicator-Holds replicator scale outputs s h = h

  ask_replicator-Holds :
      (gvkr : GroupVersionKindResource) (scale : Scale) (under : Bool) (outputs : Dict ScalerOutput)
      (s : State R)
      → Holds P s
      → Holds P (ask_replicator F lib json cluster plugins gvkr scale under outputs s).1
  unfolding ask_replicator
  ask_replicator-Holds gvkr scale under outputs s h =
      let ticked = record s { clock = tick (tick s.clock) } in
      elim (Option-cases (lookup (selected_replicator s.autoscaler) plugins.replicators)) [
        | inl missing ↦
            rw (missing, ask_replicator)
              (not_ready-Holds P keeps "ReplicatorNotExists"
                ("Replicator `" <> selected_replicator s.autoscaler <> "` not exists for target")
                ticked h)
        | inr (replicator, found) ↦
            rw (found, ask_replicator)
              (after_replicator-Holds gvkr scale under
                (call_replicator replicator scale outputs ticked)
                (call_replicator-Holds replicator scale outputs ticked h))
      ]

  after_targets-Holds :
      (gvkr : GroupVersionKindResource) (scale : Scale) (under : Bool)
      (x : Result Collected × State R)
      → Holds P x.1
      → Holds P (after_targets F lib json cluster plugins gvkr scale under x).1
  unfolding after_targets purge_target_status
  after_targets-Holds gvkr scale under (ok (halted delay), t) h = h
  after_targets-Holds gvkr scale under (ok (collected outputs managed), t) h =
      ask_replicator-Holds gvkr scale under outputs
        (set_status (purge_target_status managed (status_of t)) t) h
  after_targets-Holds gvkr scale under (err e, t) h = h
  after_targets-Holds gvkr scale under (panic, t) h = h

  scale_unless_cold-Holds :
      (gvkr : GroupVersionKindResource) (scale : Scale) (selector : String) (under : Bool)
      (cold : Bool × Clock) (s : State R)
      → Holds P s
      → Holds P (scale_unless_cold F lib json cluster plugins gvkr scale selector under cold s).1
  unfolding scale_unless_cold
  scale_unless_cold-Holds gvkr scale selector under (true, k) s h = h
  scale_unless_cold-Holds gvkr scale selector under (false, k) s h =
      after_targets-Holds gvkr scale under _ (
        ask_scalers-Holds P keeps plugins spare lib cluster (now k) selector scale
          s.autoscaler.spec.targets [] [] (record s { clock = tick k }) h)

  with_selector-Holds :
      (gvkr : GroupVersionKindResource) (scale : Scale) (r : Result String) (s : State R)
      → Holds P s
      → Holds P (with_selector F lib json cluster plugins gvkr scale r s).1
  unfolding with_selector scale_by_targets
  with_selector-Holds gvkr scale (ok selector) s h =
      scale_unless_cold-Holds gvkr scale selector _ _ s h
  with_selector-Holds gvkr scale (err e) s h = h
  with_selector-Holds gvkr scale panic s h = h

  after_static-Holds :
      (x : Result (Unit {0}) × State R) → Holds P x.1 → Holds P (after_static F x).1
  unfolding after_static
  after_static-Holds (ok _, t) h = h
  after_static-Holds (err e, t) h = h
  after_static-Holds (panic, t) h = h

  scale_target-Holds :
      (gvkr : GroupVersionKindResource) (scale : Scale) (least : Option ℤ) (s : State R)
      → Holds P s
      → Holds P (scale_target F lib json cluster plugins gvkr scale least s).1
  unfolding scale_target reconcile_autoscaling
  scale_target-Holds gvkr scale none s h =
      after_static-Holds _ (scale_replicas-Holds P keeps cluster gvkr scale _ s h)
  scale_target-Holds gvkr scale (some least) s h = with_selector-Holds gvkr scale _ s h

  declare_ready-Holds :
      (x : Result Duration × State R) → Holds P x.1 → Holds P (declare_ready F x).1
  unfolding declare_ready
  declare_ready-Holds (ok delay, t) h = put_condition-Holds P keeps _ t h
  declare_ready-Holds (err e, t) h = h
  declare_ready-Holds (panic, t) h = h

  after_exhaust-Holds :
      (gvkr : GroupVersionKindResource) (scale : Scale) (x : Result Duration × State R)
      → Holds P x.1
      → Holds P (after_exhaust F lib json cluster plugins gvkr scale x).1
  unfolding after_exhaust observe
  after_exhaust-Holds gvkr scale (ok delay, t) h =
      declare_ready-Holds _
        (scale_target-Holds gvkr scale t.autoscaler.spec.min_replicas (observe F scale t) h)
  after_exhaust-Holds gvkr scale (err e, t) h = h
  after_exhaust-Holds gvkr scale (panic, t) h = h

  after_target-Holds :
      (x : Result (GroupVersionKindResource × Scale) × State R)
      → Holds P x.1
      → Holds P (after_target F lib json cluster plugins x).1
  unfolding after_target
  after_target-Holds (ok (gvkr, scale), t) h =
      after_exhaust-Holds gvkr scale (update_exhausted_autoscaler cluster scale t)
        (update_exhausted_autoscaler-Holds P keeps cluster scale t h)
  after_target-Holds (err e, t) h = not_ready-Holds P keeps _ _ t h
  after_target-Holds (panic, t) h = h

  unless_deleted-Holds :
      (deleted : Option Time) (s : State R)
      → Holds P s
      → Holds P (unless_deleted F lib json cluster plugins deleted s).1
  unfolding unless_deleted
  unless_deleted-Holds (some _) s h = h
  unless_deleted-Holds none s h =
      after_target-Holds (get_scale_target cluster s) (get_scale_target-Holds P cluster s h)

  -- If `SetCondition` keeps a predicate on the conditions and no scaler touches them, then a
  -- reconciliation keeps it, whatever it comes to.
  pub reconcile-Holds :
      (s : State R) → Holds P s → Holds P (reconcile F lib json cluster plugins s).1
  unfolding reconcile
  reconcile-Holds s h = unless_deleted-Holds _ s h
