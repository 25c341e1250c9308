-- ===== src/Plugins/Simple.antt =====
-- plugins/replicator_simple/replicator.go: the largest demand of the scalers, held up by the
-- recommendations of the last `downscale_stabilization_window`.
pub mod Window
pub mod Trace
pub mod Demand
use wing.Base.{
  if◌then◌else◌, ℤ, ◌-ℤ◌, ltb_ℤ, pos, Dict, lookup, insert, ◌<>◌, Result, message, ok, err, Time,
  Duration, seconds, before, now, tick, ℕ, zero, suc, ◌+◌, String, Bool, true, false, none, some,
  List, [], ◌∷◌, ◌++◌,
}
use wing.Api.Types.{ReplicaAutoscaler}
use wing.Engine.Interfaces.{ScalerOutput, ReplicatorContext, ReplicatorState, Replicator}

pub record Config : Type 0 where
  pub downscale_stabilization_window : Duration

unfoldable pub new_default_config : Config
unfolding seconds
new_default_config = record { downscale_stabilization_window = seconds (pos 30) }

unfoldable pub validate : Config → Result (Unit {0})
validate c =
    if ltb_ℤ c.downscale_stabilization_window (pos 0)
    then err (message "downscale stabilization window must be positive")
    else ok tt

pub record TimestampedRecommendation : Type 0 where
  pub timestamp : Time
  pub replicas : ℤ

abbrev pub History : Type 0
History = Dict (List TimestampedRecommendation)

unfoldable pub get_unique_key_for_autoscaler : ReplicaAutoscaler → String
get_unique_key_for_autoscaler a = a.name <> "/" <> a.namespace

-- The variables of the loop of `stabilizeRecommendation`.
pub record Scan : Type 0 where
  pub max_recommendation : ℤ
  pub found_old_sample : Bool
  pub old_sample_index : ℕ

unfoldable pub scan_step : Time → ℕ → TimestampedRecommendation → Scan → Scan
scan_step cutoff i rec s =
    if before rec.timestamp cutoff
    then record s { found_old_sample = true; old_sample_index = i }
    else if ltb_ℤ s.max_recommendation rec.replicas
    then record s { max_recommendation = rec.replicas }
    else s

unfoldable pub scan : Time → ℕ → List TimestampedRecommendation → Scan → Scan
unfolding scan_step
scan cutoff i [] s = s
scan cutoff i (r ∷ rs) s = scan cutoff (i + 1) rs (scan_step cutoff i r s)

unfoldable pub replace_at :
    ℕ → TimestampedRecommendation → List TimestampedRecommendation → List TimestampedRecommendation
replace_at i new [] = []
replace_at zero new (r ∷ rs) = new ∷ rs
replace_at (suc i) new (r ∷ rs) = r ∷ replace_at i new rs

-- A key that the map lacks has a nil slice, which ranges over nothing.
unfoldable pub recommendations : History → String → List TimestampedRecommendation
unfolding lookup
recommendations h key = elim (lookup key h) [ none ↦ [] | some rs ↦ rs ]

-- The recommendations of one key: the cutoff, the new sample's time, and its replicas.
unfoldable pub stabilized :
    Time → Time → ℤ → List TimestampedRecommendation → ℤ × List TimestampedRecommendation
unfolding scan replace_at
stabilized cutoff at desired rs =
    let start : Scan = record {
      max_recommendation = desired;
      found_old_sample = false;
      old_sample_index = 0;
    } in
    let s : Scan = scan cutoff 0 rs start in
    let sample : TimestampedRecommendation = record { timestamp = at; replicas = desired } in
    (
      s.max_recommendation,
      if s.found_old_sample then replace_at s.old_sample_index sample rs else rs ++ (sample ∷ []),
    )

-- The clock is read for the cutoff and again for the new sample.
unfoldable pub stabilize_recommendation :
    Duration → String → ℤ → ReplicatorState History → ℤ × ReplicatorState History
unfolding stabilized recommendations ◌-ℤ◌ insert
stabilize_recommendation window key desired s =
    let k = s.clock in
    let (result, rs) =
      stabilized (now k -ℤ window) (now (tick k)) desired (recommendations s.own key) in
    (result, record { own = insert key rs s.own; clock = tick (tick k) })

-- The loop over the scalers' outputs, in the order in which the map happens to be walked.
unfoldable pub largest : ℤ → Dict ScalerOutput → ℤ
largest desired [] = desired
largest desired ((name, o) ∷ rest) =
    largest (if ltb_ℤ desired o.desired_replicas then o.desired_replicas else desired) rest

-- The first sight of an autoscaler records the replicas that its target asks for.
unfoldable pub remember : ReplicatorContext → ReplicatorState History → ReplicatorState History
unfolding get_unique_key_for_autoscaler lookup insert
remember c s =
    let key = get_unique_key_for_autoscaler c.autoscaler in
    let first : TimestampedRecommendation = record {
      timestamp = now s.clock;
      replicas = c.scale.spec_replicas;
    } in
    elim (lookup key s.own) [
      | some _ ↦ s
      | none ↦ record { own = insert key (first ∷ []) s.own; clock = tick s.clock }
    ]

unfoldable pub get_desired_replicas : Config → Replicator History
unfolding remember largest stabilize_recommendation get_unique_key_for_autoscaler
get_desired_replicas config c s =
    let (result, s') =
      stabilize_recommendation config.downscale_stabilization_window
        (get_unique_key_for_autoscaler c.autoscaler) (largest (pos 0) c.scalers_output)
        (remember c s) in
    (ok result, s')
