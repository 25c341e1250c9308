-- ===== src/Prometheus/Scaler.antt =====
-- utils/scalerprovider/prometheus/scaler.go. `query` is the method of the interface QueryClient,
-- which returns -1 beside an error; `farm_hash` is FarmHash.
pub mod Laws
use wing.Base.{
  if◌then◌else◌, ℤ, eqb_ℤ, pos, negsuc, ◌<>◌, Error, Result, and_then, deref, M, bind_at, message,
  wrapped, ok, err, panic, Time, Duration, seconds, now, tick, Float64, String, Bool, true, false,
  none, some, [], ◌∷◌, ◌==◌,
}
use wing.Api.Types.{
  Raw, Quantity, TargetStatus, MetricTarget, ReplicaAutoscalerStatus, average_value_metric_type,
}
use wing.Utils.Status.{set_target_status, get_target_status}
use wing.Engine.Interfaces.{ScalerOutput, ScalerContext, ScalerState, Scaler, load_settings}
use wing.Prometheus.Query.{Server}

abbrev pub fail_as_error : String
fail_as_error = ""

abbrev pub fail_as_zero : String
fail_as_zero = "FailAsZero"

abbrev pub fail_as_last_value : String
fail_as_last_value = "FailAsLastValue"

pub record Settings (F : Type 0) : Type 0 where
  pub server : Server
  pub query : String
  pub threshold : F
  pub failure_mode : String

pub record ScalerConfig (F : Type 0) : Type 0 where
  pub toleration : F
  pub default_timeout : Duration
  pub default_server : Server

-- What the switch on the failure mode leaves: the value, the average, and whether to update.
pub record Reading (F : Type 0) : Type 0 where
  pub value : F
  pub average_value : F
  pub should_update : Bool

abbrev pub provision_server : Server → Server → Server
provision_server settings default_server = elim settings.server_address [
  | none ↦ default_server
  | some _ ↦ settings
]

unfoldable pub make_target_status_name : (String → String) → String → String → String
make_target_status_name farm_hash plugin query = plugin <> "/" <> farm_hash query

module _ (F : Type 0) ⦃f : Float64 F⦄ where
  open f use {of_int, constant, sub, mul, div, abs, ceil, lt, le, eq, to_int32, to_int64, max_float}

  abbrev pub zero_value : F
  zero_value = constant 0 1

  abbrev pub hundred : F
  hundred = constant 100 1

  unfoldable pub new_default_config : ScalerConfig F
  unfolding seconds
  new_default_config = record {
    toleration = constant 5 100;
    default_timeout = seconds (pos 30);
    default_server = record {
      server_address = none;
      insecure_ssl = none;
      bearer_token = none;
      username = none;
      password = none;
    };
  }

  unfoldable pub validate_config : ScalerConfig F → Result (Unit {0})
  validate_config c =
      if lt c.toleration zero_value
      then err (message "toleration must be non-negative")
      else elim c.default_server.server_address [
        | none ↦ err (message "default server is required")
        | some _ ↦ ok tt
      ]

  unfoldable pub validate : Settings F → Result (Unit {0})
  validate s =
      if s.query == ""
      then err (message "query is empty")
      else if le s.threshold zero_value
      then err (message "threshold must be positive")
      else ok tt

  -- `Metric.AverageValue` is dereferenced.
  unfoldable pub last_average : TargetStatus → Result F
  last_average t =
      and_then (deref t.metric.average_value) λ q. ok (div (of_int q) (constant 1000 1))

  unfoldable pub last_value : ReplicaAutoscalerStatus → String → Error → Result (Reading F)
  unfolding last_average get_target_status
  last_value status name e = elim (get_target_status status name) [
    | none ↦ err (wrapped "unable to get latest value from status when failover is enabled: " e)
    | some t ↦ and_then (last_average t) λ average.
        ok (record { value = of_int (negsuc 0); average_value = average; should_update = false })
  ]

  unfoldable pub reading : String → ReplicaAutoscalerStatus → String → Result F → Result (Reading F)
  unfolding last_value
  reading mode status name (ok v) =
      ok (record { value = v; average_value = max_float; should_update = true })
  reading mode status name (err e) =
      if mode == fail_as_error
      then err e
      else if mode == fail_as_last_value
      then last_value status name e
      else if mode == fail_as_zero
      then ok (record { value = zero_value; average_value = max_float; should_update = false })
      else err (message ("unknown failure mode: `" <> mode <> "`"))
  reading mode status name panic = panic

  -- No replicas run: the branch is behind the early return of `CalculateDesiredReplicas`.
  unfoldable pub scale_from_zero : F → Reading F → ℤ × F
  scale_from_zero threshold r =
      let desired = to_int32 (ceil (div r.value threshold)) in
      (desired, if eqb_ℤ desired (pos 0) then r.average_value else div r.value (of_int desired))

  -- An average that is not set yet is calculated from the value.
  unfoldable pub average_of : ℤ → Reading F → F
  average_of current r =
      if eq r.average_value max_float then div r.value (of_int current) else r.average_value

  unfoldable pub scale_by_average : F → F → ℤ → F → ℤ
  scale_by_average toleration threshold current average =
      let ratio = div average threshold in
      if le (mul toleration hundred) (abs (sub hundred (mul ratio hundred)))
      then to_int32 (ceil (mul ratio (of_int current)))
      else current

  -- The replicas and the average value of a reading.
  unfoldable pub desired_from : F → F → ℤ → Reading F → ℤ × F
  unfolding scale_from_zero average_of scale_by_average
  desired_from toleration threshold current r =
      if eq r.value zero_value
      then (pos 0, zero_value)
      else if eqb_ℤ current (pos 0)
      then scale_from_zero threshold r
      else (
        scale_by_average toleration threshold current (average_of current r),
        average_of current r,
      )

  unfoldable pub average_status : String → String → ℤ → F → TargetStatus
  average_status name plugin desired average = record {
    target = name;
    scaler = plugin;
    desired_replicas = desired;
    metric = record {
      type = average_value_metric_type;
      value = none;
      average_value = some (to_int64 (mul average (constant 1000 1)));
      average_utilization = none;
    };
  }

  unfoldable pub conclude :
      String → String → Bool → ℤ × F → ScalerState → Result ScalerOutput × ScalerState
  unfolding average_status set_target_status
  conclude name plugin should_update (desired, average) s = (
    ok (record { desired_replicas = desired; managed_target_status = name ∷ [] }),
    if should_update
        then record s {
          status = set_target_status s.status (average_status name plugin desired average);
        }
        else s,
  )

  unfoldable pub calculate_desired_replicas :
      (Server → String → Time → Result F)
      → (String → String)
      → String
      → ScalerConfig F
      → ScalerContext
      → Settings F
      → M ScalerState ScalerOutput
  unfolding make_target_status_name reading desired_from conclude
  calculate_desired_replicas query farm_hash plugin config c settings s =
      if eqb_ℤ c.current_replicas (pos 0)
      then (ok (record { desired_replicas = pos 0; managed_target_status = [] }), s)
      else let name = make_target_status_name farm_hash plugin settings.query in
        let answer =
          query (provision_server settings.server config.default_server) settings.query
            (now s.clock) in
        bind_at
          (reading settings.failure_mode s.status name answer, record s { clock = tick s.clock })
          λ r.
            conclude name plugin r.should_update
              (desired_from config.toleration settings.threshold c.current_replicas r)

  unfoldable pub get :
      (Server → String → Time → Result F)
      → (String → String)
      → (Raw → Result (Settings F))
      → String
      → ScalerConfig F
      → Scaler
  unfolding load_settings validate calculate_desired_replicas
  get query farm_hash unmarshal plugin config c s =
      bind_at (load_settings unmarshal c, s)
        λ settings s'.
          bind_at (validate settings, s')
            λ _. calculate_desired_replicas query farm_hash plugin config c settings
