-- ===== src/Plugins/Simple/Demand.antt =====
-- The demand of the scalers as the simple replicator joins it.
use wing.Base.{
  if◌then◌else◌, ℤ, ◌-ℤ◌, ◌≤ℤ◌, ltb_ℤ, pos, All, Dict, ok, now, tick, ◌≡◌, refl, [], ◌∷◌, arith,
}
use wing.Engine.Interfaces.{ScalerOutput, ReplicatorContext, ReplicatorState}
use wing.Plugins.Simple.{
  Config, History, largest, remember, recommendations, stabilized, stabilize_recommendation,
  get_desired_replicas, get_unique_key_for_autoscaler,
}
use wing.Plugins.Simple.Window.{stabilized_largest}

-- Every scaler asks for no more than `m`.
abbrev pub AllWithin : ℤ → Dict ScalerOutput → Type 0
AllWithin m = All (λ o. o.1.desired_replicas ≤ℤ m)

largest_bounds :
    (d : ℤ) (os : Dict ScalerOutput) → (d ≤ℤ largest d os) × AllWithin (largest d os) os
unfolding largest
largest_bounds d [] = omega arith
largest_bounds d ((name, o) ∷ os) =
    ground (arith, largest_bounds (if ltb_ℤ d o.desired_replicas then o.desired_replicas else d) os)

largest-le : (d : ℤ) (os : Dict ScalerOutput) (m : ℤ) → d ≤ℤ m → AllWithin m os → largest d os ≤ℤ m
unfolding largest
largest-le d [] m h all = h
largest-le d ((name, o) ∷ os) m h (p, all) =
    ground (arith, largest-le (if ltb_ℤ d o.desired_replicas then o.desired_replicas else d) os m)

AllWithin-le : (a b : ℤ) (os : Dict ScalerOutput) → a ≤ℤ b → AllWithin a os → AllWithin b os
AllWithin-le a b [] h all = tt
AllWithin-le a b (o ∷ os) h (p, all) = (omega arith, AllWithin-le a b os h all)

-- Whatever the order in which the map of outputs is walked, the demand is the least number that is
-- not negative and not below any scaler's output.
pub largest_least :
    (os : Dict ScalerOutput)
    → (pos 0 ≤ℤ largest (pos 0) os)
      × AllWithin (largest (pos 0) os) os
      × ((m : ℤ) → pos 0 ≤ℤ m → AllWithin m os → largest (pos 0) os ≤ℤ m)
largest_least os =
    let (nonneg, all) = largest_bounds (pos 0) os in (nonneg, all, λ m. largest-le (pos 0) os m)

-- The recommendation of the replicator is never an error, never negative, and never below what a
-- scaler asks for.
pub get_desired_replicas_bounds :
    (config : Config) (c : ReplicatorContext) (s : ReplicatorState History)
    → (r : ℤ) × ((get_desired_replicas config c s).0 ≡ ok r)
      × (pos 0 ≤ℤ r)
      × AllWithin r c.scalers_output
unfolding get_desired_replicas stabilize_recommendation
get_desired_replicas_bounds config c s =
    let window = config.downscale_stabilization_window in
    let s' = remember c s in
    let list = recommendations s'.own (get_unique_key_for_autoscaler c.autoscaler) in
    let d = largest (pos 0) c.scalers_output in
    let (above, _, _) = stabilized_largest (now s'.clock -ℤ window) (now (tick s'.clock)) d list in
    let (nonneg, all, _) = largest_least c.scalers_output in
    let r = (stabilized (now s'.clock -ℤ window) (now (tick s'.clock)) d list).0 in
    (r, refl, omega arith, AllWithin-le d r c.scalers_output above all)
