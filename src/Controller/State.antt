-- ===== src/Controller/State.antt =====
-- What a reconciliation reads and changes: the autoscaler, the clock, the events and updates that it
-- sends, the replicator's own state and the cache of scalable resources; and the cluster's answers.
use wing.Base.{ℤ, pos, Dict, Error, Result, Duration, Clock, String, Bool, Option, List}
use wing.Api.Types.{ReplicaAutoscaler, ReplicaAutoscalerStatus, Condition, IntOrString, Raw}
use wing.Api.Gvkr.{GroupVersionKindResource, GroupResource}
use wing.Api.Condition.{set_condition, new_condition, condition_ready, condition_false}
use wing.Kubernetes.{Scale, Pod}
use wing.Utils.Gvkr.{Mapper}
use wing.Engine.Interfaces.{Scaler, Replicator}

-- Delays until the next reconciliation.
abbrev pub not_requeue : Duration
not_requeue = pos 0

abbrev pub requeue_delay_on_error_state : Duration
requeue_delay_on_error_state = pos 30_000_000_000

abbrev pub requeue_delay_on_normal_state : Duration
requeue_delay_on_normal_state = pos 60_000_000_000

abbrev pub requeue_delay_on_panic_state : Duration
requeue_delay_on_panic_state = pos 15_000_000_000

abbrev pub default_requeue_delay : Duration
default_requeue_delay = requeue_delay_on_normal_state

abbrev pub default_scaling_cold_down : Duration
default_scaling_cold_down = pos 30_000_000_000

abbrev pub default_replicator : String
default_replicator = "simple"

-- The events of the recorder, by the numbers in their texts.
pub data Event : Type 0 where
  scale_up : ℤ → Event
  scale_down : ℤ → Event
  enter_panic_mode : ℤ → ℤ → Event
  exit_panic_mode : ℤ → ℤ → Event

pub record State (R : Type 0) : Type 0 where
  pub autoscaler : ReplicaAutoscaler
  pub clock : Clock
  pub events : List Event
  -- Every Scale that an update was asked for, the latest first.
  pub updates : List Scale
  pub replicator : R
  pub known_scalable : Dict Bool

-- The answer to a read of an object that may be missing.
pub data Existence : Type 0 where
  exists : Existence
  not_found : Existence
  unknown : Error → Existence

pub record Cluster : Type 0 where
  pub mapper : Mapper
  pub get_scale : GroupResource → String → String → Result Scale
  pub get_object : GroupVersionKindResource → String → String → Existence
  pub update_scale : GroupResource → Scale → Option Error
  -- labels.Parse, by the selector's text.
  pub parse_selector : String → Result String
  pub list_pods : String → String → Result (List Pod)
  -- intstr.GetScaledValueFromIntOrPercent, rounding up.
  pub scaled_value : IntOrString → ℤ → Result ℤ
  -- jsonpatch.MergePatch.
  pub merge_patch : Raw → Raw → Result Raw

-- The scalers and replicators of the engine, by name.
pub record Plugins (R : Type 0) : Type 0 where
  pub scalers : Dict Scaler
  pub replicators : Dict (Replicator R)

module _ {R : Type 0} where
  abbrev pub set_status : ReplicaAutoscalerStatus → State R → State R
  set_status status s = record s { autoscaler = record s.autoscaler { status = status } }

  abbrev pub status_of : State R → ReplicaAutoscalerStatus
  status_of s = s.autoscaler.status

  -- `autoscaler.Status.Conditions = SetCondition(autoscaler.Status.Conditions, c)`.
  unfoldable pub put_condition : Condition → State R → State R
  put_condition c s =
      let (conditions, k) = set_condition s.autoscaler.status.conditions c s.clock in
      record s {
        autoscaler = record s.autoscaler {
          status = record s.autoscaler.status { conditions = conditions };
        };
        clock = k;
      }

  unfoldable pub not_ready : String → String → State R → State R
  unfolding put_condition
  not_ready reason text s =
      put_condition (new_condition condition_ready condition_false reason text) s
