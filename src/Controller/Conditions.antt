-- ===== src/Controller/Conditions.antt =====
-- The conditions of the status in controllers/replicaautoscaler_reconcile.go: which predicates on the
-- list the steps keep.
pub mod Steps
pub mod Settling
pub mod Whole
pub mod Scalers
pub mod Program
pub mod Life
pub mod Requests
use wing.Base.{
  if◌then◌else◌, Result, M, bind_at, ok, err, panic, Clock, String, ◌≡◌, Bool, true, false,
}
use wing.Api.Types.{Condition, Conditions}
use wing.Api.Condition.{set_condition}
use wing.Engine.Interfaces.{Scaler, ScalerContext, ScalerState}
use wing.Controller.State.{State, put_condition, not_ready}

abbrev pub Keeps : (Conditions → Type 0) → Type 0
Keeps P = (cs : Conditions) (new : Condition) (k : Clock) → P cs → P (set_condition cs new k).0

-- A scaler that leaves the conditions as they are.
abbrev pub Spares : Scaler → Type 0
Spares scaler =
    (c : ScalerContext) (x : ScalerState) → (scaler c x).1.status.conditions ≡ x.status.conditions

module _ {R : Type 0} (P : Conditions → Type 0) where
  abbrev pub Holds : State R → Type 0
  Holds s = P s.autoscaler.status.conditions

  -- Both branches of a test.
  pub if-Holds {ℓ} :
      {A : Type ℓ} (b : Bool) (x y : A × State R)
      → Holds x.1
      → Holds y.1
      → Holds (if b then x else y).1
  if-Holds true x y h k = h
  if-Holds false x y h k = k

  pub if_state-Holds : (b : Bool) (x y : State R) → Holds x → Holds y → Holds (if b then x else y)
  if_state-Holds true x y h k = h
  if_state-Holds false x y h k = k

  -- Steps in a row.
  pub bind_at-Holds {ℓ κ} :
      {A : Type ℓ} {B : Type κ} (x : Result A × State R) (g : A → M (State R) B)
      → Holds x.1
      → ((a : A) (t : State R) → Holds t → Holds (g a t).1)
      → Holds (bind_at x g).1
  bind_at-Holds (ok a, t) g h k = k a t h
  bind_at-Holds (err e, t) g h k = h
  bind_at-Holds (panic, t) g h k = h

  module _ (keeps : Keeps P) where
    pub put_condition-Holds : (c : Condition) (s : State R) → Holds s → Holds (put_condition c s)
    unfolding put_condition
    put_condition-Holds c s h = keeps s.autoscaler.status.conditions c s.clock h

    pub not_ready-Holds :
        (reason text : String) (s : State R) → Holds s → Holds (not_ready reason text s)
    unfolding not_ready
    not_ready-Holds reason text s h = put_condition-Holds _ s h
