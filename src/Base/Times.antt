-- ===== src/Base/Times.antt =====
-- Times and durations in nanoseconds, and the clock that `time.Now` reads.
use Prim.Native.Nat.{ℕ, ◌+◌, ◌≤◌}
use mathlib.Core.Bool.{Bool}
use native.Mathlib.Omega.{arith}
use wing.Base.Int.{ℤ, pos, ◌*ℤ◌, ◌≤ℤ◌, ltb_ℤ}

-- `time.Time` since Go's zero time, which is `pos 0`, and `time.Duration`.
abbrev pub Time : Type 0
Time = ℤ

abbrev pub Duration : Type 0
Duration = ℤ

abbrev pub second : Duration
second = pos 1_000_000_000

unfoldable pub seconds : ℤ → Duration
unfolding ◌*ℤ◌
seconds n = n *ℤ second

abbrev pub before : Time → Time → Bool
before a b = ltb_ℤ a b

abbrev pub after : Time → Time → Bool
after a b = ltb_ℤ b a

-- Each reading of the clock may give another time: `reading n` is what the n-th call returns.
pub record Clock : Type 0 where
  pub reading : ℕ → Time
  pub reads : ℕ

abbrev pub now : Clock → Time
now k = k.reading k.reads

abbrev pub tick : Clock → Clock
tick k = record k { reads = k.reads + 1 }

-- The clock never runs backwards.
abbrev pub IsMonotonic : Clock → Type 0
IsMonotonic k = (i j : ℕ) → i ≤ j → k.reading i ≤ℤ k.reading j

-- A clock that stands still, for tests.
abbrev pub stopped : Time → Clock
stopped t = record { reading = λ _. t; reads = 0 }

pub stopped-IsMonotonic : (t : Time) → IsMonotonic (stopped t)
stopped-IsMonotonic t i j h = omega arith
