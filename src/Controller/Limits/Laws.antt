-- ===== src/Controller/Limits/Laws.antt =====
-- Laws of the limits and of the panic mode.
use wing.Base.{ℤ, ◌≤ℤ◌, ◌≡◌, arith}
use wing.Controller.State.{State}
use wing.Controller.Limits.{Bounds, normalize}

-- The replicas that are asked for are never below the lower bound, never above the upper bound if
-- the bounds are in order, and those that the replicator wants if they are within the bounds.
pub normalize_within :
    (b : Bounds) (desired : ℤ)
    → (b.min_replicas ≤ℤ (normalize b desired).0)
      × (b.min_replicas ≤ℤ b.max_replicas → (normalize b desired).0 ≤ℤ b.max_replicas)
      × (b.min_replicas ≤ℤ desired
          → desired ≤ℤ b.max_replicas
          → normalize b desired ≡ (desired, ""))
unfolding normalize
normalize_within b desired = (ground arith, λ ordered. ground arith, λ low high. ground arith)
