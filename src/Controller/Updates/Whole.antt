-- ===== src/Controller/Updates/Whole.antt =====
-- The updates of a whole reconciliation.
use wing.Base.{
  Option-cases, ℤ, Dict, lookup, Result, ok, err, panic, Time, Duration, Clock, now, tick, Float64,
  String, ◌≡◌, refl, inl, inr, Bool, true, false, Option, none, some, [],
}
use wing.Api.Gvkr.{GroupVersionKindResource}
use wing.Kubernetes.{Scale}
use wing.Utils.Timerange.{TimeLibrary}
use wing.Utils.ReplicaPatches.{PatchCodec}
use wing.Engine.Interfaces.{ScalerOutput, Replicator}
use wing.Controller.State.{State, Cluster, Plugins, put_condition, not_ready}
use wing.Controller.Autoscaling.{
  selected_replicator, after_replicator, call_replicator, ask_replicator, after_targets,
  scale_unless_cold, scale_by_targets, with_selector, reconcile_autoscaling,
}
use wing.Controller.Targets.{Collected, halted, collected, ask_scalers}
use wing.Controller.Reconcile.{
  observe, after_static, scale_target, declare_ready, after_exhaust, after_target, unless_deleted,
  reconcile,
}
use wing.Controller.Updates.Working.{
  MayWant, static, limited, MayLimit, Limited, Quiet-Limited, working_bounds_lem,
}
use wing.Controller.Updates.{
  bind_at-Sends, Quiet, Sends, sends_nothing, Quiet-refl, Quiet-trans, Quiet-then-Sends,
  Sends-then-Quiet, Sends-map,
}
use wing.Controller.Updates.Steps.{
  ticked-Quiet, put_condition-Quiet, ask_scalers-Quiet, get_scale_target-Quiet,
  update_exhausted_autoscaler-Quiet,
}
use wing.Controller.Updates.Bounded.{scale_replicas-Sends, apply_desired-Sends}

module _ (lib : TimeLibrary) (json : PatchCodec) {R : Type 0} where
  module _ (F : Type 0) ⦃f : Float64 F⦄ where
    after_replicator-Limited :
        (cluster : Cluster) (gvkr : GroupVersionKindResource) (scale : Scale) (under : Bool)
        (s : State R) (x : Result ℤ × State R)
        → Quiet s x.1
        → Limited lib json s (after_replicator F lib json cluster gvkr scale under x)
    unfolding after_replicator
    after_replicator-Limited cluster gvkr scale under s (ok desired, t) q =
        Quiet-Limited lib json s t q (
          bind_at-Sends _ (MayLimit lib json t.autoscaler) t _ _ (working_bounds_lem lib json t).1
            (working_bounds_lem lib json t).0
            (λ b u may p.
              Sends-map _ _ (λ n e. limited b desired may e)
                (Quiet-then-Sends _ p
                  (apply_desired-Sends F cluster gvkr scale under desired b u))))
    after_replicator-Limited cluster gvkr scale under s (err e, t) q = sends_nothing q.same_updates
    after_replicator-Limited cluster gvkr scale under s (panic, t) q = sends_nothing q.same_updates

    pub call_replicator-Quiet :
        (replicator : Replicator R) (scale : Scale) (outputs : Dict ScalerOutput) (s : State R)
        → Quiet s (call_replicator replicator scale outputs s).1
    unfolding call_replicator
    call_replicator-Quiet replicator scale outputs s = record {
      same_updates = refl;
      same_annotations = refl;
      same_spec = refl;
    }

    ask_replicator-Limited :
        (cluster : Cluster) (plugins : Plugins R) (gvkr : GroupVersionKindResource) (scale : Scale)
        (under : Bool) (outputs : Dict ScalerOutput) (s : State R)
        → Limited lib json s (ask_replicator F lib json cluster plugins gvkr scale under outputs s)
    unfolding ask_replicator not_ready put_condition
    ask_replicator-Limited cluster plugins gvkr scale under outputs s =
        elim (Option-cases (lookup (selected_replicator s.autoscaler) plugins.replicators)) [
          | inl missing ↦ rw (missing, ask_replicator) (sends_nothing refl)
          | inr (replicator, found) ↦
              rw (found, ask_replicator)
                (after_replicator-Limited cluster gvkr scale under s _ (
                  Quiet-trans (ticked-Quiet s s _ (Quiet-refl s))
                    (call_replicator-Quiet replicator scale outputs _)))
        ]

    after_targets-Limited :
        (cluster : Cluster) (plugins : Plugins R) (gvkr : GroupVersionKindResource) (scale : Scale)
        (under : Bool) (s : State R) (x : Result Collected × State R)
        → Quiet s x.1
        → Limited lib json s (after_targets F lib json cluster plugins gvkr scale under x)
    unfolding after_targets
    after_targets-Limited cluster plugins gvkr scale under s (ok (halted delay), t) q =
        sends_nothing q.same_updates
    after_targets-Limited cluster plugins gvkr scale under s (ok (collected outputs managed), t) q =
        Quiet-Limited lib json s _
          (Quiet-trans q
            (record { same_updates = refl; same_annotations = refl; same_spec = refl }))
          (ask_replicator-Limited cluster plugins gvkr scale under outputs _)
    after_targets-Limited cluster plugins gvkr scale under s (err e, t) q =
        sends_nothing q.same_updates
    after_targets-Limited cluster plugins gvkr scale under s (panic, t) q =
        sends_nothing q.same_updates

    scale_unless_cold-Limited :
        (cluster : Cluster) (plugins : Plugins R) (gvkr : GroupVersionKindResource) (scale : Scale)
        (selector : String) (under : Bool) (cold : Bool × Clock) (s : State R)
        → Limited lib json s
            (scale_unless_cold F lib json cluster plugins gvkr scale selector under cold s)
    unfolding scale_unless_cold
    scale_unless_cold-Limited cluster plugins gvkr scale selector under (true, k) s =
        sends_nothing refl
    scale_unless_cold-Limited cluster plugins gvkr scale selector under (false, k) s =
        let ticked = record s { clock = tick k } in
        after_targets-Limited cluster plugins gvkr scale under s
          (ask_scalers lib cluster plugins (now k) selector scale s.autoscaler.spec.targets [] []
            ticked)
          (Quiet-trans {t = ticked} (ticked-Quiet s s (tick k) (Quiet-refl s)) (
            ask_scalers-Quiet lib cluster plugins (now k) selector scale s.autoscaler.spec.targets
              [] [] ticked))

    scale_by_targets-Limited :
        (cluster : Cluster) (plugins : Plugins R) (gvkr : GroupVersionKindResource) (scale : Scale)
        (selector : String) (s : State R)
        → Limited lib json s (scale_by_targets F lib json cluster plugins gvkr scale selector s)
    unfolding scale_by_targets
    scale_by_targets-Limited cluster plugins gvkr scale selector s =
        scale_unless_cold-Limited cluster plugins gvkr scale selector _ _ s

    with_selector-Limited :
        (cluster : Cluster) (plugins : Plugins R) (gvkr : GroupVersionKindResource) (scale : Scale)
        (r : Result String) (s : State R)
        → Limited lib json s (with_selector F lib json cluster plugins gvkr scale r s)
    unfolding with_selector
    with_selector-Limited cluster plugins gvkr scale (ok selector) s =
        scale_by_targets-Limited cluster plugins gvkr scale selector s
    with_selector-Limited cluster plugins gvkr scale (err e) s = sends_nothing refl
    with_selector-Limited cluster plugins gvkr scale panic s = sends_nothing refl

    reconcile_autoscaling-Limited :
        (cluster : Cluster) (plugins : Plugins R) (gvkr : GroupVersionKindResource) (scale : Scale)
        (s : State R)
        → Limited lib json s (reconcile_autoscaling F lib json cluster plugins gvkr scale s)
    unfolding reconcile_autoscaling
    reconcile_autoscaling-Limited cluster plugins gvkr scale s =
        with_selector-Limited cluster plugins gvkr scale _ s

    after_static-Limited :
        (s : State R) (x : Result (Unit {0}) × State R)
        → Sends (MayWant lib json s.autoscaler) s x.1
        → Limited lib json s (after_static F x)
    unfolding after_static
    after_static-Limited s (ok _, t) l = l
    after_static-Limited s (err e, t) l = l
    after_static-Limited s (panic, t) l = l

    scale_target-Limited :
        (cluster : Cluster) (plugins : Plugins R) (gvkr : GroupVersionKindResource) (scale : Scale)
        (least : Option ℤ) (s : State R)
        → s.autoscaler.spec.min_replicas ≡ least
        → Limited lib json s (scale_target F lib json cluster plugins gvkr scale least s)
    unfolding scale_target
    scale_target-Limited cluster plugins gvkr scale none s e =
        after_static-Limited s _
          (Sends-map _ _ (λ n want. static e want) (scale_replicas-Sends cluster gvkr scale _ s))
    scale_target-Limited cluster plugins gvkr scale (some least) s e =
        reconcile_autoscaling-Limited cluster plugins gvkr scale s

    declare_ready-Limited :
        (s : State R) (x : Result Duration × State R)
        → Limited lib json s x
        → Limited lib json s (declare_ready F x)
    unfolding declare_ready
    declare_ready-Limited s (ok delay, t) l = Sends-then-Quiet _ l (put_condition-Quiet _ t)
    declare_ready-Limited s (err e, t) l = l
    declare_ready-Limited s (panic, t) l = l

    observe-Quiet : (scale : Scale) (s : State R) → Quiet s (observe F scale s)
    unfolding observe
    observe-Quiet scale s = record {
      same_updates = refl;
      same_annotations = refl;
      same_spec = refl;
    }

    after_exhaust-Limited :
        (cluster : Cluster) (plugins : Plugins R) (gvkr : GroupVersionKindResource) (scale : Scale)
        (s : State R) (x : Result Duration × State R)
        → Quiet s x.1
        → Limited lib json s (after_exhaust F lib json cluster plugins gvkr scale x)
    unfolding after_exhaust observe
    after_exhaust-Limited cluster plugins gvkr scale s (ok delay, t) q =
        Quiet-Limited lib json s _ (Quiet-trans q (observe-Quiet scale t)) (
          declare_ready-Limited (observe F scale t) _ (
            scale_target-Limited cluster plugins gvkr scale t.autoscaler.spec.min_replicas
              (observe F scale t) refl))
    after_exhaust-Limited cluster plugins gvkr scale s (err e, t) q = sends_nothing q.same_updates
    after_exhaust-Limited cluster plugins gvkr scale s (panic, t) q = sends_nothing q.same_updates

    after_target-Limited :
        (cluster : Cluster) (plugins : Plugins R) (s : State R)
        (x : Result (GroupVersionKindResource × Scale) × State R)
        → Quiet s x.1
        → Limited lib json s (after_target F lib json cluster plugins x)
    unfolding after_target not_ready put_condition
    after_target-Limited cluster plugins s (ok (gvkr, scale), t) q =
        after_exhaust-Limited cluster plugins gvkr scale s _
          (Quiet-trans q (update_exhausted_autoscaler-Quiet cluster scale t))
    after_target-Limited cluster plugins s (err e, t) q = sends_nothing q.same_updates
    after_target-Limited cluster plugins s (panic, t) q = sends_nothing q.same_updates

    unless_deleted-Limited :
        (cluster : Cluster) (plugins : Plugins R) (deleted : Option Time) (s : State R)
        → Limited lib json s (unless_deleted F lib json cluster plugins deleted s)
    unfolding unless_deleted
    unless_deleted-Limited cluster plugins (some _) s = sends_nothing refl
    unless_deleted-Limited cluster plugins none s =
        after_target-Limited cluster plugins s _ (get_scale_target-Quiet cluster s)

    -- A reconciliation sends at most one update of the target's Scale, and only if the dry-run
    -- annotation is `false`. It asks for the maximum of a static setting, or for a number limited
    -- by the bounds of the spec or of the first patch that holds some time.
    pub reconcile_updates :
        (cluster : Cluster) (plugins : Plugins R) (s : State R)
        → Sends (MayWant lib json s.autoscaler) s (reconcile F lib json cluster plugins s).1
    unfolding reconcile
    reconcile_updates cluster plugins s = unless_deleted-Limited cluster plugins _ s
