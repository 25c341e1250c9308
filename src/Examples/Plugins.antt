-- ===== src/Examples/Plugins.antt =====
-- The simple replicator.
use wing.Base.{
  ℤ, ◌-ℤ◌, ◌≤ℤ◌, pos, All, Stands, Dict, ok, stopped, stopped-IsMonotonic, ◌≡◌, ◌⊎◌, List, [], ◌∷◌,
  arith,
}
use wing.Engine.Interfaces.{ScalerOutput, ReplicatorContext, ReplicatorState}
use wing.Plugins.Simple.{
  History, TimestampedRecommendation, stabilized, stabilize_recommendation, get_desired_replicas,
}
use wing.Plugins.Simple.Window.{IsFresh, stabilized_largest}
use wing.Plugins.Simple.Trace.{calls, stabilize_recommendation_holds}
use wing.Plugins.Simple.Demand.{AllWithin, get_desired_replicas_bounds}
use wing.Examples.Data.{web_autoscaler, web_scale}

abbrev at_fifty : ReplicatorState History
at_fifty = record { own = []; clock = stopped (pos 50) }

-- Nine replicas are wanted, then one, then two: nine are recommended still.
stabilize_recommendation_holds_example :
    pos 9
    ≤ℤ (stabilize_recommendation
        (pos 30)
        "web/default"
        (pos 2)
        (calls (pos 30) "web/default" (pos 9 ∷ pos 1 ∷ []) at_fifty)).0
unfolding calls stabilize_recommendation ◌-ℤ◌
stabilize_recommendation_holds_example =
    stabilize_recommendation_holds (pos 30) "web/default" (pos 9) (pos 1 ∷ []) (pos 2) at_fifty
      (stopped-IsMonotonic (pos 50)) (omega arith)

abbrev two_recommendations : List TimestampedRecommendation
two_recommendations =
    record { timestamp = pos 10; replicas = pos 20 }
    ∷ record { timestamp = pos 45; replicas = pos 7 }
    ∷ []

stabilized_largest_example :
    let result = (stabilized (pos 20) (pos 50) (pos 3) two_recommendations).0 in
    (pos 3 ≤ℤ result)
    × All (λ r. IsFresh (pos 20) r → r.replicas ≤ℤ result) two_recommendations
    × ((result ≡ pos 3)
        ⊎ ((r : TimestampedRecommendation) × Stands r two_recommendations
            × IsFresh (pos 20) r
            × (result ≡ r.replicas)))
stabilized_largest_example = stabilized_largest (pos 20) (pos 50) (pos 3) two_recommendations

abbrev two_outputs : Dict ScalerOutput
two_outputs =
    ("cpu", record { desired_replicas = pos 3; managed_target_status = [] })
    ∷ ("memory", record { desired_replicas = pos 6; managed_target_status = [] })
    ∷ []

abbrev two_scalers : ReplicatorContext
two_scalers = record {
  autoscaler = web_autoscaler;
  scale = web_scale;
  scalers_output = two_outputs;
}

get_desired_replicas_bounds_example :
    (r : ℤ) × ((get_desired_replicas
        (record { downscale_stabilization_window = pos 30 })
        two_scalers
        at_fifty).0
      ≡ ok r)
    × (pos 0 ≤ℤ r)
    × AllWithin r two_outputs
get_desired_replicas_bounds_example =
    get_desired_replicas_bounds (record { downscale_stabilization_window = pos 30 }) two_scalers
      at_fifty
