-- ===== src/Plugins/Rabbitmq/Settings.antt =====
-- plugins/scaler_rabbitmq/settings.go: the settings, their validation, and the name of the status.
pub mod Laws
use wing.Base.{
  if◌then◌else◌, ltb_ℤ, pos, ◌<>◌, error_text, Result, and_then, message, ok, err, panic, Duration,
  Float64, String, Bool, true, false, not, ◌&&◌, ◌||◌, Option, none, some, List, [], ◌∷◌, ◌==◌,
}
use wing.Plugins.Rabbitmq.Queues.{operation_sum, operation_avg, operation_max}

abbrev pub mode_queue_length : String
mode_queue_length = "QueueLength"

abbrev pub mode_message_rate : String
mode_message_rate = "MessageRate"

abbrev pub protocol_http : String
protocol_http = "http"

abbrev pub protocol_amqp : String
protocol_amqp = "amqp"

abbrev pub message_type_all : String
message_type_all = "all"

abbrev pub message_type_unacknowledged : String
message_type_unacknowledged = "unacknowledged"

abbrev pub message_type_ready : String
message_type_ready = "ready"

abbrev pub default_message_type : String
default_message_type = message_type_all

pub record Settings (F : Type 0) : Type 0 where
  pub mode : String
  pub value : F
  pub host : String
  pub protocol : String
  pub timeout : Option Duration
  pub queue_name : String
  pub vhost_name : Option String
  pub message_type : String
  pub use_regex : Bool
  pub operation : String
  pub metric_name : String

abbrev pub is_negative : Option Duration → Bool
is_negative none = false
is_negative (some t) = ltb_ℤ t (pos 0)

abbrev pub is_error {ℓ} : {A : Type ℓ} → Result A → Bool
is_error (ok a) = false
is_error (err e) = true
is_error panic = false

unfoldable pub text_of_error {ℓ} : {A : Type ℓ} → Result A → String
unfolding error_text
text_of_error (ok a) = "%!s(<nil>)"
text_of_error (err e) = error_text e
text_of_error panic = ""

-- The loop over the tests: the text of the first one that hits.
unfoldable pub first_hit : List (String × Bool) → Option String
first_hit [] = none
first_hit (check ∷ rest) = if check.1 then some check.0 else first_hit rest

module _ (F : Type 0) ⦃f : Float64 F⦄ where
  open f use {constant, le}

  -- The map of tests, of which the runtime chooses the order.
  unfoldable pub checks : Result String → Settings F → List (String × Bool)
  unfolding text_of_error
  checks scheme s =
      (
        "mode is required with valid value",
        not (s.mode == mode_message_rate) && not (s.mode == mode_queue_length),
      )
      ∷ ("value must be positive", le s.value (constant 0 1))
      ∷ ("host is invalid: " <> text_of_error scheme, is_error scheme)
      ∷ ("invalid timeout", is_negative s.timeout)
      ∷ ("queue name is required", s.queue_name == "")
      ∷ (
        "operation is required with valid value if using regex",
        s.use_regex
            && not (s.operation == operation_sum)
            && not (s.operation == operation_avg)
            && not (s.operation == operation_max),
      )
      ∷ []

  unfoldable pub infer_protocol : String → Settings F → Result (Settings F)
  infer_protocol scheme s =
      if not (s.protocol == "")
      then ok s
      else if scheme == "amqp" || scheme == "amqps"
      then ok (record s { protocol = protocol_amqp })
      else if scheme == "http" || scheme == "https"
      then ok (record s { protocol = protocol_http })
      else err (message ("unknown host URL scheme `" <> scheme <> "`"))

  unfoldable pub fill_message_type : Settings F → Result (Settings F)
  fill_message_type s =
      if s.message_type == message_type_all
        || s.message_type == message_type_unacknowledged
        || s.message_type == message_type_ready
      then ok s
      else if s.message_type == ""
      then ok (record s { message_type = default_message_type })
      else err (message ("unknown message type `" <> s.message_type <> "`"))

  -- The settings as the validation leaves them. `parse_scheme` is url.Parse, of whose result only the
  -- scheme is read, and `walk` the order in which the map of tests is walked.
  unfoldable pub validate :
      (String → Result String)
      → (List (String × Bool) → List (String × Bool))
      → Settings F
      → Result (Settings F)
  unfolding checks first_hit infer_protocol fill_message_type
  validate parse_scheme walk s =
      let scheme = parse_scheme s.host in
      elim (first_hit (walk (checks scheme s))) [
        | some text ↦ err (message text)
        | none ↦
            and_then scheme λ scheme_text. and_then (infer_protocol scheme_text s) fill_message_type
      ]

  unfoldable pub get_status_metric_name : Settings F → String
  get_status_metric_name s =
      if not (s.metric_name == "")
      then "rabbitmq/" <> s.metric_name
      else "rabbitmq/"
        <> s.queue_name
        <> (if s.mode == mode_queue_length then "/length" else "/rate")
