-- ===== src/PodResource/Scaler.antt =====
-- utils/scalerprovider/podresource/scaler.go.
pub mod Laws
use wing.Base.{
  ltb, eqb, if◌then◌else◌, ℤ, ltb_ℤ, pos, wrap32, length, Dict, lookup, insert, Result, and_then,
  explain, M, bind_at, message, ok, err, panic, Time, second, seconds, Clock, Float64, ℕ, String,
  Bool, not, ◌&&◌, ◌||◌, none, some, List, [], ◌∷◌,
}
use wing.Api.Types.{Raw, TargetStatus, MetricTarget, utilization_metric_type}
use wing.Kubernetes.{Pod}
use wing.Utils.Status.{set_target_status}
use wing.Engine.Interfaces.{ScalerOutput, ScalerContext, ScalerState, Scaler, load_settings}
use wing.Metrics.{PodMetric, PodMetricsInfo, get_resource_utilization_ratio}
use wing.PodResource.Pods.{Groups, group_pods, remove_metrics_for_pods, calculate_pod_requests}

pub record Settings : Type 0 where
  pub utilization : ℤ

-- A missing request reads as zero from the map.
unfoldable pub request_of : String → Dict ℤ → ℤ
unfolding lookup
request_of name requests = elim (lookup name requests) [ none ↦ pos 0 | some r ↦ r ]

abbrev pub metric_of : ℤ → PodMetric
metric_of v = record { timestamp = pos 0; window = pos 0; value = v }

unfoldable pub fill_requests : List String → Dict ℤ → PodMetricsInfo → PodMetricsInfo
unfolding request_of insert
fill_requests [] requests metrics = metrics
fill_requests (name ∷ names) requests metrics =
    fill_requests names requests (insert name (metric_of (request_of name requests)) metrics)

unfoldable pub fill_zero : List String → PodMetricsInfo → PodMetricsInfo
unfolding insert
fill_zero [] metrics = metrics
fill_zero (name ∷ names) metrics = fill_zero names (insert name (metric_of (pos 0)) metrics)

-- What GetResourceMetric of the metrics client and the pod lister return.
pub record PodSource : Type 0 where
  pub list_pods : String → String → Result (List Pod)
  pub get_resource_metric : String → String → String → String → Result (PodMetricsInfo × Time)

module _ (F : Type 0) ⦃f : Float64 F⦄ where
  open f use {of_int, constant, sub, mul, abs, ceil, lt, le, to_int32}

  pub record Config : Type 0 where
    pub utilization_toleration : F

  abbrev pub default_utilization_toleration : F
  default_utilization_toleration = constant 5 100

  abbrev pub one : F
  one = constant 1 1

  unfoldable pub new_default_config : Config
  new_default_config = record { utilization_toleration = default_utilization_toleration }

  unfoldable pub validate : Config → Result (Unit {0})
  validate c =
      if lt c.utilization_toleration default_utilization_toleration
        || lt one c.utilization_toleration
      then err (message "pod resource toleration is in valid, requires [0.05, 1]")
      else ok tt

  -- math.Abs(1.0 - ratio) <= toleration.
  unfoldable pub is_tolerated : F → F → Bool
  is_tolerated toleration ratio = le (abs (sub one ratio)) toleration

  -- The metrics for the second calculation: a missing pod counts as using all that it requests on
  -- the way down and nothing on the way up, and there an unready pod counts as using nothing.
  unfoldable pub rebalanced_metrics : F → Bool → Groups → Dict ℤ → PodMetricsInfo → PodMetricsInfo
  unfolding fill_requests fill_zero
  rebalanced_metrics ratio rebalance_ignored g requests metrics =
      let with_missing =
        if lt ratio one
        then fill_requests g.missing_pods requests metrics
        else if lt one ratio
        then fill_zero g.missing_pods metrics
        else metrics in
      if rebalance_ignored then fill_zero g.unready_pods with_missing else with_missing

  -- The end of the function, from the second ratio on.
  unfoldable pub settle : F → F → F → ℕ → ℤ → ℤ
  unfolding is_tolerated
  settle toleration ratio new_ratio count current =
      if is_tolerated toleration new_ratio
        || (lt ratio one && lt one new_ratio)
        || (lt one ratio && lt new_ratio one)
      then current
      else let new_replicas = to_int32 (ceil (mul new_ratio (of_int (pos count)))) in
        if (lt new_ratio one && ltb_ℤ current new_replicas)
          || (lt one new_ratio && ltb_ℤ new_replicas current)
        then current
        else new_replicas

  -- From the first ratio on. The results are the replicas, the utilization and the raw average.
  unfoldable pub decide :
      F → Groups → PodMetricsInfo → Dict ℤ → ℤ → ℤ → F × ℤ × ℤ → Result (ℤ × ℤ × ℤ)
  unfolding is_tolerated rebalanced_metrics get_resource_utilization_ratio settle
  decide toleration g metrics requests target current (ratio, utilization, raw) =
      let rebalance_ignored = ltb 0 (length g.unready_pods) && lt one ratio in
      if not rebalance_ignored && eqb (length g.missing_pods) 0
      then if is_tolerated toleration ratio
        then ok (current, utilization, raw)
        else ok (to_int32 (ceil (mul ratio (of_int (pos g.ready_pod_count)))), utilization, raw)
      else let metrics' = rebalanced_metrics ratio rebalance_ignored g requests metrics in
        and_then (get_resource_utilization_ratio F metrics' requests target) λ second.
          ok (settle toleration ratio second.0 (length metrics') current, utilization, raw)

  unfoldable pub calculate :
      F → Groups → PodMetricsInfo → Result (Dict ℤ) → ℤ → ℤ → Result (ℤ × ℤ × ℤ)
  unfolding get_resource_utilization_ratio decide
  calculate toleration g metrics asked target current = and_then asked λ requests.
      if eqb (length metrics) 0
      then err (message "did not receive metrics for any ready pods")
      else and_then (get_resource_utilization_ratio F metrics requests target)
          (decide toleration g metrics requests target current)

  unfoldable pub tidy_and_calculate_desired_replicas :
      F → PodMetricsInfo → List Pod → String → String → ℤ → ℤ → Clock → Result (ℤ × ℤ × ℤ) × Clock
  unfolding group_pods remove_metrics_for_pods calculate_pod_requests calculate seconds
  tidy_and_calculate_desired_replicas toleration metrics pods resource container target current k =
      let (g, k') = group_pods pods metrics resource (seconds (pos 10)) (seconds (pos 3)) k in
      let tidied =
        remove_metrics_for_pods (remove_metrics_for_pods metrics g.ignored_pods) g.unready_pods in
      (
        calculate toleration g tidied (calculate_pod_requests pods container resource) target
            current,
        k',
      )

  unfoldable pub utilization_status : String → ℤ → ℤ → TargetStatus
  utilization_status plugin desired utilization = record {
    target = plugin;
    scaler = plugin;
    desired_replicas = desired;
    metric = record {
      type = utilization_metric_type;
      value = none;
      average_value = none;
      average_utilization = some utilization;
    };
  }

  abbrev pub managed : String → ℤ → ScalerOutput
  managed plugin desired = record {
    desired_replicas = desired;
    managed_target_status = plugin ∷ [];
  }

  -- What the metrics lead to: the new status and the output, or the error.
  unfoldable pub report :
      String → ScalerState → Result (ℤ × ℤ × ℤ) × Clock → Result ScalerOutput × ScalerState
  unfolding utilization_status set_target_status
  report plugin s (ok (desired, utilization, raw), k) = (
    ok (managed plugin desired),
    record {
      status = set_target_status s.status (utilization_status plugin desired utilization);
      clock = k;
    },
  )
  report plugin s (err e, k) = (err e, record s { clock = k })
  report plugin s (panic, k) = (panic, record s { clock = k })

  -- A pod list that is empty keeps the current replicas.
  unfoldable pub from_pods :
      PodSource
      → String
      → Config
      → String
      → Settings
      → ScalerContext
      → List Pod
      → M ScalerState ScalerOutput
  unfolding tidy_and_calculate_desired_replicas report wrap32
  from_pods source plugin config resource settings c [] s =
      (ok (managed plugin c.current_replicas), s)
  from_pods source plugin config resource settings c (p ∷ ps) s =
      bind_at (source.get_resource_metric resource c.namespace c.scaled_object_selector "", s)
        λ metrics s'. report plugin s' (
          tidy_and_calculate_desired_replicas config.utilization_toleration metrics.0 (p ∷ ps)
            resource "" (wrap32 settings.utilization) c.current_replicas s'.clock)

  unfoldable pub get : PodSource → (Raw → Result Settings) → String → Config → String → Scaler
  unfolding load_settings from_pods
  get source unmarshal plugin config resource c s =
      bind_at (load_settings unmarshal c, s)
        λ settings s'.
          bind_at
            (
              explain "failed to list pods: "
                  (source.list_pods c.namespace c.scaled_object_selector),
              s',
            )
            λ pods. from_pods source plugin config resource settings c pods
