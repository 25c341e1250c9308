-- ===== src/Controller/Targets.antt =====
-- controllers/replicaautoscaler_reconcile.go: the loop of `reconcileAutoscaling` over the targets.
use wing.Base.{
  Dict, lookup, insert, ◌<>◌, Result, M, ok, err, panic, Time, Duration, tick, String, none, some,
  List, [], ◌∷◌, ◌++◌,
}
use wing.Api.Types.{ReplicaAutoscalerTarget, Raw}
use wing.Kubernetes.{Scale}
use wing.Scheduling.{get_scheduled_settings_raw}
use wing.Utils.Timerange.{TimeLibrary}
use wing.Engine.Interfaces.{ScalerOutput, ScalerContext, Scaler}
use wing.Controller.State.{
  State, Cluster, Plugins, set_status, status_of, not_ready, requeue_delay_on_error_state,
  default_requeue_delay,
}

-- The outputs and the managed names so far, or the delay of an early return.
pub data Collected : Type 0 where
  halted : Duration → Collected
  collected : Dict ScalerOutput → List String → Collected

module _ {R : Type 0} where
  -- The scaler is handed the status and the clock, and gives them back changed.
  unfoldable pub call_scaler : Scaler → ScalerContext → M (State R) ScalerOutput
  call_scaler scaler c s =
      let (r, t) = scaler c (record { status = status_of s; clock = s.clock }) in
      (r, record (set_status t.status s) { clock = t.clock })

  abbrev pub scaler_context : Raw → String → Scale → State R → ScalerContext
  scaler_context settings selector scale s = record {
    raw_settings = settings;
    scale_target_ref = record { kind = ""; name = ""; api_version = "" };
    namespace = s.autoscaler.namespace;
    scaled_object_selector = selector;
    current_replicas = scale.spec_replicas;
  }

  -- The scaler's answer: the clock is read once more for the elapsed time.
  unfoldable pub after_scaler :
      String
      → Dict ScalerOutput
      → List String
      → Result ScalerOutput × State R
      → Result Collected × State R
  unfolding insert
  after_scaler metric outputs managed (ok out, s) = (
    ok (collected (insert metric out outputs) (managed ++ out.managed_target_status)),
    record s { clock = tick s.clock },
  )
  after_scaler metric outputs managed (err e, s) = (ok (halted requeue_delay_on_error_state), s)
  after_scaler metric outputs managed (panic, s) = (panic, s)

  -- One round behind the settings.
  unfoldable pub ask_scaler :
      Plugins R
      → String
      → Scale
      → String
      → Dict ScalerOutput
      → List String
      → Result Raw
      → M (State R) Collected
  unfolding not_ready call_scaler after_scaler lookup
  ask_scaler plugins selector scale metric outputs managed (ok settings) s =
      elim (lookup metric plugins.scalers) [
        | none ↦ (
          ok (halted default_requeue_delay),
          not_ready "ScalerNotExists" ("Scaler `" <> metric <> "` not exists for target") s,
        )
        | some scaler ↦
            after_scaler metric outputs managed
              (call_scaler scaler (scaler_context settings selector scale s) s)
      ]
  ask_scaler plugins selector scale metric outputs managed (err e) s =
      (ok (halted requeue_delay_on_error_state), s)
  ask_scaler plugins selector scale metric outputs managed panic s = (panic, s)

  -- A round goes on with the next one, or ends the loop.
  abbrev pub go_on :
      (Dict ScalerOutput → List String → M (State R) Collected)
      → Result Collected × State R
      → Result Collected × State R
  go_on next (ok (collected outputs managed), s) = next outputs managed s
  go_on next (ok (halted delay), s) = (ok (halted delay), s)
  go_on next (err e, s) = (err e, s)
  go_on next (panic, s) = (panic, s)

  unfoldable pub ask_scalers :
      TimeLibrary
      → Cluster
      → Plugins R
      → Time
      → String
      → Scale
      → List ReplicaAutoscalerTarget
      → Dict ScalerOutput
      → List String
      → M (State R) Collected
  unfolding ask_scaler get_scheduled_settings_raw
  ask_scalers lib cluster plugins at selector scale [] outputs managed s =
      (ok (collected outputs managed), s)
  ask_scalers lib cluster plugins at selector scale (t ∷ ts) outputs managed s =
      let rest = ask_scalers lib cluster plugins at selector scale ts in
      go_on rest (
        ask_scaler plugins selector scale t.metric outputs managed
          (get_scheduled_settings_raw lib cluster.merge_patch at t.settings)
          (record s { clock = tick s.clock }))
