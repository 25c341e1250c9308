-- ===== src/Examples/More.antt =====
-- The settings and the calculation of the RabbitMQ scaler.
use mathlib.Core.List.{Permᴰ}
use wing.Base.{
  ◌*ℤ◌, pos, ok, stopped, Exact, exact, String, ◌≡◌, refl, ◌≢◌, ◌⊎◌, Bool, false, none, List, [],
  ◌∷◌,
}
use wing.Plugins.Rabbitmq.Settings.{
  Settings, validate, checks, first_hit, infer_protocol, fill_message_type, text_of_error,
  is_negative, mode_message_rate, mode_queue_length, message_type_all, message_type_ready,
  message_type_unacknowledged,
}
use wing.Engine.Interfaces.{ScalerContext, ScalerState}
use wing.Plugins.Rabbitmq.Scaler.{ScalerConfig, get}
use wing.Plugins.Rabbitmq.Scaler.Statuses.{Agrees, get-Agrees}
use wing.Examples.Data.{no_status}
use wing.Plugins.Rabbitmq.Settings.Laws.{validate_accepts}

abbrev jobs : Settings Exact
jobs = record {
  mode = mode_queue_length;
  value = (pos 10, 1);
  host = "amqp://rabbit";
  protocol = "amqp";
  timeout = none;
  queue_name = "jobs";
  vhost_name = none;
  message_type = message_type_all;
  use_regex = false;
  operation = "";
  metric_name = "";
}

unchanged-Perm : (cs : List (String × Bool)) → Permᴰ cs cs
unchanged-Perm [] = Permᴰ.nil
unchanged-Perm (c ∷ cs) = Permᴰ.cons refl (unchanged-Perm cs)

validate_accepts_example :
    ((jobs.mode ≡ mode_message_rate) ⊎ (jobs.mode ≡ mode_queue_length))
    × (exact.le jobs.value (exact.constant 0 1) ≡ false)
    × (jobs.queue_name ≢ "")
    × (is_negative jobs.timeout ≡ false)
    × ((jobs.message_type ≡ message_type_all)
        ⊎ ((jobs.message_type ≡ message_type_unacknowledged)
            ⊎ (jobs.message_type ≡ message_type_ready)))
unfolding validate checks first_hit infer_protocol fill_message_type text_of_error exact ◌*ℤ◌
validate_accepts_example =
    validate_accepts Exact ⦃f = exact⦄ (λ host. ok "amqp") (λ cs. cs) jobs jobs unchanged-Perm refl

abbrev lenient : ScalerConfig Exact ⦃f = exact⦄
lenient = record { toleration = (pos 5, 100); default_timeout = pos 0 }

abbrev three_workers : ScalerContext
three_workers = record {
  raw_settings = "{}";
  scale_target_ref = record { kind = ""; name = ""; api_version = "" };
  namespace = "default";
  scaled_object_selector = "";
  current_replicas = pos 3;
}

abbrev quiet : ScalerState
quiet = record { status = no_status; clock = stopped (pos 50) }

-- A queue with ninety messages.
get-Agrees_example : Agrees quiet (
    get Exact ⦃f = exact⦄
      (λ host. ok "amqp")
      (λ cs. cs)
      (λ settings timeout. ok (pos 90, 1))
      (λ raw. ok jobs)
      lenient
      three_workers
      quiet)
get-Agrees_example =
    get-Agrees Exact ⦃f = exact⦄ (λ host. ok "amqp") (λ cs. cs) (λ settings timeout. ok (pos 90, 1))
      (λ raw. ok jobs) lenient three_workers quiet
