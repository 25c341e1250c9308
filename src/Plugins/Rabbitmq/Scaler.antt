-- ===== src/Plugins/Rabbitmq/Scaler.antt =====
-- plugins/scaler_rabbitmq/setup.go: the scaler.
pub mod Statuses
use wing.Base.{
  if◌then◌else◌, ℤ, eqb_ℤ, pos, Result, bind_at, message, ok, err, panic, Duration, Float64, String,
  Bool, none, some, List, [], ◌∷◌,
}
use wing.Api.Types.{Raw, TargetStatus, average_value_metric_type}
use wing.Utils.Status.{set_target_status}
use wing.Engine.Interfaces.{ScalerOutput, ScalerContext, ScalerState, Scaler, load_settings}
use wing.Plugins.Rabbitmq.Settings.{Settings, get_status_metric_name, validate}

abbrev pub plugin_name : String
plugin_name = "rabbitmq"

module _ (F : Type 0) ⦃f : Float64 F⦄ where
  open f use {of_int, constant, sub, mul, div, abs, ceil, lt, le, eq, to_int32, to_int64}

  pub record ScalerConfig : Type 0 where
    pub toleration : F
    pub default_timeout : Duration

  unfoldable pub validate_config : ScalerConfig → Result (Unit {0})
  validate_config c =
      if lt c.toleration (constant 0 1)
      then err (message "toleration must be non-negative")
      else ok tt

  unfoldable pub wake_up : F → F → ℤ × F
  wake_up value metric =
      let desired = to_int32 (ceil (div metric value)) in
      (desired, if eqb_ℤ desired (pos 0) then constant 0 1 else div metric (of_int desired))

  -- Within the toleration the replicas stay at the zero of their declaration.
  unfoldable pub scale_ratio : F → F → ℤ → F → ℤ × F
  scale_ratio toleration value current metric =
      let average = div metric (of_int current) in
      let ratio = div average value in
      (
        if le (mul toleration (constant 100 1))
              (abs (sub (constant 100 1) (mul ratio (constant 100 1))))
            then to_int32 (ceil (mul ratio (of_int current)))
            else pos 0,
        average,
      )

  -- The replicas and the average of a metric.
  unfoldable pub desired_of : F → F → ℤ → F → ℤ × F
  unfolding wake_up scale_ratio
  desired_of toleration value current metric =
      if eq metric (constant 0 1)
      then (pos 0, constant 0 1)
      else if eqb_ℤ current (pos 0)
      then wake_up value metric
      else scale_ratio toleration value current metric

  unfoldable pub rabbitmq_status : String → ℤ → F → TargetStatus
  rabbitmq_status name desired average = record {
    target = name;
    scaler = plugin_name;
    desired_replicas = desired;
    metric = record {
      type = average_value_metric_type;
      value = none;
      average_value = some (to_int64 (mul average (constant 1000 1)));
      average_utilization = none;
    };
  }

  -- What is written and returned, from the metric on.
  unfoldable pub conclude_metric :
      ScalerConfig
      → ScalerContext
      → Settings F
      → Result F
      → ScalerState
      → Result ScalerOutput × ScalerState
  unfolding desired_of rabbitmq_status set_target_status get_status_metric_name
  conclude_metric config c settings (err e) s = (err e, s)
  conclude_metric config c settings panic s = (panic, s)
  conclude_metric config c settings (ok metric) s =
      let (desired, average) =
        desired_of config.toleration settings.value c.current_replicas metric in
      let name = get_status_metric_name F settings in
      (
        ok (record { desired_replicas = desired; managed_target_status = name ∷ [] }),
        record s { status = set_target_status s.status (rabbitmq_status name desired average) },
      )

  -- `request` is the method of the settings, which asks RabbitMQ over HTTP or AMQP.
  unfoldable pub get :
      (String → Result String)
      → (List (String × Bool) → List (String × Bool))
      → (Settings F → Duration → Result F)
      → (Raw → Result (Settings F))
      → ScalerConfig
      → Scaler
  unfolding load_settings validate conclude_metric
  get parse_scheme walk request unmarshal config c s =
      bind_at (load_settings unmarshal c, s)
        λ loaded s'.
          bind_at (validate F parse_scheme walk loaded, s')
            λ settings. conclude_metric config c settings (
              request settings
                (elim settings.timeout [ none ↦ config.default_timeout | some t ↦ t ]))
