-- ===== src/Controller/Updates/Reaching.antt =====
-- What the target is asked for after the scalers and the replicator, in `reconcileAutoscaling`.
use wing.Base.{
  none-ne-some, ℤ, Dict, lookup, ok, Duration, Clock, now, tick, Float64, String, ◌≡◌, refl, sym,
  ap, ◌∙◌, subst, Bool, false, Option, none, some, List, [],
}
use wing.Api.Gvkr.{GroupVersionKindResource}
use wing.Kubernetes.{Scale}
use wing.Utils.Timerange.{TimeLibrary}
use wing.Utils.Status.{purge_target_status}
use wing.Utils.ReplicaPatches.{PatchCodec}
use wing.Utils.PanicMode.{still_in_panic_mode}
use wing.Engine.Interfaces.{ScalerOutput, Replicator}
use wing.Controller.State.{State, Cluster, Plugins, set_status, status_of}
use wing.Controller.Target.{get_scale_target}
use wing.Controller.Exhaust.{update_exhausted_autoscaler}
use wing.Controller.Scaling.{dry_run_flag}
use wing.Controller.Targets.{collected, ask_scalers}
use wing.Controller.Limits.{Bounds, normalize, working_bounds}
use wing.Controller.Autoscaling.{
  selected_replicator, is_cold, after_replicator, call_replicator, ask_replicator, after_targets,
  scale_unless_cold, scale_by_targets, with_selector, reconcile_autoscaling,
}
use wing.Controller.Reconcile.{observe, scale_target, reconcile}
use wing.Controller.Updates.{Quiet, Quiet-refl, Quiet-trans, dry_run_flag_congr}
use wing.Controller.Updates.Steps.{ticked-Quiet, ask_scalers-Quiet}
use wing.Controller.Updates.Working.{working_bounds_lem}
use wing.Controller.Updates.Whole.{call_replicator-Quiet}
use wing.Controller.Updates.Reaches.{
  Reaches, Reaches-from, Reaches-then, apply_desired-Reaches, declare_ready_updates, reconcile_lem,
  observed-Quiet,
}

module _ (F : Type 0) ⦃f : Float64 F⦄ {R : Type 0} (lib : TimeLibrary) (json : PatchCodec)
    (cluster : Cluster) (plugins : Plugins R) (gvkr : GroupVersionKindResource)
    (scale : Scale) where
  -- From the state before the replicator is asked: `s` with its time read.
  replicated-Reaches :
      (under : Bool) (outputs : Dict ScalerOutput) (replicator : Replicator R) (s v w : State R)
      (desired : ℤ) (b : Bounds)
      → lookup (selected_replicator s.autoscaler) plugins.replicators ≡ some replicator
      → call_replicator replicator scale outputs (record s { clock = tick (tick s.clock) })
        ≡ (ok desired, v)
      → working_bounds lib json v ≡ (ok b, w)
      → dry_run_flag s ≡ "false"
      → Reaches
          (normalize b desired).0
          scale
          s
          (ask_replicator F lib json cluster plugins gvkr scale under outputs s).1
  unfolding ask_replicator after_replicator
  replicated-Reaches under outputs replicator s v w desired b found called bounded wet =
      let ticked : State R = record s { clock = tick (tick s.clock) } in
      let q : Quiet s v = Quiet-trans (ticked-Quiet s s (tick (tick s.clock)) (Quiet-refl s)) (
        subst (λ x. Quiet ticked x.1) called
          (call_replicator-Quiet lib json F replicator scale outputs ticked)) in
      let p : Quiet s w =
        Quiet-trans q (subst (λ x. Quiet v x.1) bounded (working_bounds_lem lib json v).1) in
      let step = Reaches-from p.same_updates (
        apply_desired-Reaches F cluster gvkr scale under desired b w
          (dry_run_flag_congr s w p.same_annotations ∙ wet)) in
      rw (found, called, bounded, ask_replicator) step

  -- The state that the replicator is asked from, once the targets are collected.
  abbrev pub purged : List String → State R → State R
  purged managed s = set_status (purge_target_status managed (status_of s)) s

  collected-Reaches :
      (under : Bool) (selector : String) (k : Clock) (outputs : Dict ScalerOutput)
      (managed : List String) (replicator : Replicator R) (s v w z : State R) (desired : ℤ)
      (b : Bounds)
      → ask_scalers lib cluster plugins
          (now k)
          selector
          scale
          s.autoscaler.spec.targets
          []
          []
          (record s { clock = tick k })
        ≡ (ok (collected outputs managed), v)
      → lookup (selected_replicator (purged managed v).autoscaler) plugins.replicators
        ≡ some replicator
      → call_replicator replicator scale outputs
          (record (purged managed v) { clock = tick (tick v.clock) })
        ≡ (ok desired, w)
      → working_bounds lib json w ≡ (ok b, z)
      → dry_run_flag s ≡ "false"
      → Reaches
          (normalize b desired).0
          scale
          s
          (scale_unless_cold F lib json cluster plugins gvkr scale selector under (false, k) s).1
  unfolding scale_unless_cold after_targets
  collected-Reaches under selector k outputs managed replicator s v w z desired b answered found
        called bounded wet =
      let ticked : State R = record s { clock = tick k } in
      let q : Quiet s v = Quiet-trans (ticked-Quiet s s (tick k) (Quiet-refl s)) (
        subst (λ x. Quiet ticked x.1) answered
          (ask_scalers-Quiet lib cluster plugins (now k) selector scale s.autoscaler.spec.targets []
            [] ticked)) in
      let step =
        replicated-Reaches under outputs replicator (purged managed v) w z desired b found called
          bounded (dry_run_flag_congr s (purged managed v) q.same_annotations ∙ wet) in
      subst
        (λ x.
          Reaches (normalize b desired).0 scale s
            (after_targets F lib json cluster plugins gvkr scale under x).1)
        (sym answered) (Reaches-from q.same_updates step)

  scale_target-some :
      (least : Option ℤ) (m : ℤ) (s : State R)
      → least ≡ some m
      → scale_target F lib json cluster plugins gvkr scale least s
        ≡ reconcile_autoscaling F lib json cluster plugins gvkr scale s
  unfolding scale_target
  scale_target-some none m s e = absurd (none-ne-some e)
  scale_target-some (some least) m s e = refl

  scaled-Reaches :
      (n m : ℤ) (selector : String) (k : Clock) (least : Option ℤ) (s : State R)
      → least ≡ some m
      → cluster.parse_selector scale.status_selector ≡ ok selector
      → let under = still_in_panic_mode s.autoscaler.status s.autoscaler.spec.strategy s.clock in
        is_cold s.autoscaler.status.last_scale_time under.0 under.1 ≡ (false, k)
        → Reaches n scale s
            (scale_unless_cold F lib json cluster plugins gvkr scale selector
              (still_in_panic_mode s.autoscaler.status s.autoscaler.spec.strategy s.clock).0
              (false, k)
              s).1
        → Reaches n scale s (scale_target F lib json cluster plugins gvkr scale least s).1
  unfolding reconcile_autoscaling with_selector scale_by_targets
  scaled-Reaches n m selector k least s some_least parsed warm step =
      let under = still_in_panic_mode s.autoscaler.status s.autoscaler.spec.strategy s.clock in
      let same : scale_target F lib json cluster plugins gvkr scale least s
          ≡ scale_unless_cold F lib json cluster plugins gvkr scale selector under.0 (false, k) s =
        scale_target-some least m s some_least
        ∙ (ap (λ r. with_selector F lib json cluster plugins gvkr scale r s) parsed
            ∙ ap (λ c. scale_unless_cold F lib json cluster plugins gvkr scale selector under.0 c s)
                warm) in
      subst (λ x. Reaches n scale s x.1) (sym same) step

  -- Off the dry run, a reconciliation that is not in the cold-down asks for what the replicator wants,
  -- limited by the bounds that work, unless the target has it: if the target is found, the exhaust
  -- test gives no error, every scaler answers, and the replicator is there and answers.
  pub reconcile_targets-Reaches :
      (s t u v w z : State R) (delay : Duration) (m : ℤ) (selector : String) (k : Clock)
      (outputs : Dict ScalerOutput) (managed : List String) (replicator : Replicator R)
      (desired : ℤ) (b : Bounds)
      → s.autoscaler.deletion_timestamp ≡ none
      → get_scale_target cluster s ≡ (ok (gvkr, scale), t)
      → update_exhausted_autoscaler cluster scale t ≡ (ok delay, u)
      → s.autoscaler.spec.min_replicas ≡ some m
      → dry_run_flag s ≡ "false"
      → cluster.parse_selector scale.status_selector ≡ ok selector
      → let x = observe F scale u in
        let under = still_in_panic_mode x.autoscaler.status x.autoscaler.spec.strategy x.clock in
        is_cold x.autoscaler.status.last_scale_time under.0 under.1 ≡ (false, k)
        → ask_scalers lib cluster plugins
            (now k)
            selector
            scale
            (observe F scale u).autoscaler.spec.targets
            []
            []
            (record (observe F scale u) { clock = tick k })
          ≡ (ok (collected outputs managed), v)
        → lookup (selected_replicator (purged managed v).autoscaler) plugins.replicators
          ≡ some replicator
        → call_replicator replicator scale outputs
            (record (purged managed v) { clock = tick (tick v.clock) })
          ≡ (ok desired, w)
        → working_bounds lib json w ≡ (ok b, z)
        → Reaches (normalize b desired).0 scale s (reconcile F lib json cluster plugins s).1
  unfolding observe
  reconcile_targets-Reaches s t u v w z delay m selector k outputs managed replicator desired b
        alive target exhaust some_least wet parsed warm answered found called bounded =
      let x = observe F scale u in
      let q = observed-Quiet F lib json cluster plugins gvkr scale s t u delay target exhaust in
      let least = u.autoscaler.spec.min_replicas in
      let step : Reaches (normalize b desired).0 scale x
          (scale_target F lib json cluster plugins gvkr scale least x).1 =
        scaled-Reaches (normalize b desired).0 m selector k least x
          (ap (λ spec. spec.min_replicas) q.same_spec ∙ some_least) parsed warm
          (collected-Reaches
            (still_in_panic_mode x.autoscaler.status x.autoscaler.spec.strategy x.clock).0 selector
            k outputs managed replicator x v w z desired b answered found called bounded
            (dry_run_flag_congr s x q.same_annotations ∙ wet)) in
      subst (λ y. Reaches (normalize b desired).0 scale s y.1)
        (sym (reconcile_lem F lib json cluster plugins gvkr scale s t u delay alive target exhaust))
        (Reaches-then (Reaches-from q.same_updates step) (
          declare_ready_updates F lib json cluster plugins gvkr scale
            (scale_target F lib json cluster plugins gvkr scale least x)))
