-- ===== src/Utils/PanicMode.antt =====
-- utils/panicmode.go.
pub mod Laws
use wing.Base.{
  if◌then◌else◌, ℤ, ◌-ℤ◌, ltb_ℤ, eqb_ℤ, pos, Time, seconds, Clock, now, tick, Float64, Bool, true,
  false, not, ◌&&◌, ◌||◌, Option, none, some, ◌==◌,
}
use wing.Api.Types.{ReplicaAutoscalerStrategy, ReplicaAutoscalerStatus, Quantity}
use wing.Api.Condition.{get_condition, condition_panic_mode, condition_true}

abbrev pub is_some {ℓ} : {A : Type ℓ} → Option A → Bool
is_some none = false
is_some (some _) = true

unfoldable pub is_panic_mode_configured : Option ReplicaAutoscalerStrategy → Bool
is_panic_mode_configured none = false
is_panic_mode_configured (some strategy) =
    is_some strategy.panic_threshold && is_some strategy.panic_window_seconds

-- The fields behind the pointer, once it is known that the panic mode is configured.
abbrev pub panic_threshold : Option ReplicaAutoscalerStrategy → Option Quantity
panic_threshold none = none
panic_threshold (some strategy) = strategy.panic_threshold

abbrev pub panic_window : Option ReplicaAutoscalerStrategy → Option ℤ
panic_window none = none
panic_window (some strategy) = strategy.panic_window_seconds

module _ (F : Type 0) ⦃f : Float64 F⦄ where
  open f use {of_int, div, le, of_milli}

  -- A nil threshold does not get here.
  unfoldable pub reaches : Option Quantity → F → Bool
  reaches none percentage = false
  reaches (some t) percentage = le (of_milli t) percentage

  unfoldable pub should_enter_panic_mode : ℤ → ℤ → Option ReplicaAutoscalerStrategy → Bool
  unfolding is_panic_mode_configured reaches
  should_enter_panic_mode desired current strategy =
      if not (is_panic_mode_configured strategy) || eqb_ℤ desired (pos 0)
      then false
      else if eqb_ℤ current (pos 0) && ltb_ℤ (pos 0) desired
      then true
      else reaches (panic_threshold strategy) (div (of_int desired) (of_int current))

-- `time.Since(t) < window`, of a window that may be nil only where this is not reached.
unfoldable pub is_within : Option ℤ → Time → Time → Bool
unfolding seconds ◌-ℤ◌
is_within none since at = false
is_within (some window) since at = ltb_ℤ (at -ℤ since) (seconds window)

-- The clock is read only when the tests before it hold.
unfoldable pub still_in_panic_mode :
    ReplicaAutoscalerStatus → Option ReplicaAutoscalerStrategy → Clock → Bool × Clock
unfolding is_panic_mode_configured get_condition is_within
still_in_panic_mode status strategy k =
    let c = get_condition status.conditions condition_panic_mode in
    if not (is_panic_mode_configured strategy)
    then (false, k)
    else if (c.type == condition_panic_mode) && (c.status == condition_true)
    then (is_within (panic_window strategy) c.last_transition_time (now k), tick k)
    else (false, k)
