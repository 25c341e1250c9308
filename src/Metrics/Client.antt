-- ===== src/Metrics/Client.antt =====
-- utils/metrics/client.go: what the answers of the metrics APIs become. The REST clients are the
-- functions of `MetricsApi`; a quantity is held by its thousandths.
pub mod Entries
pub mod Laws
use wing.Base.{
  if◌then◌else◌, ℤ, ◌*ℤ◌, pos, wrap64, add64, Dict, lookup, insert, ◌<>◌, Result, and_then, explain,
  message, external, ok, err, Time, Duration, second, String, not, ◌&&◌, Option, none, some, List,
  [], ◌∷◌, map, ◌==◌,
}
use wing.Api.Gvkr.{CrossVersionObjectReference}
use wing.Metrics.{PodMetric, PodMetricsInfo}

pub record ContainerMetrics : Type 0 where
  pub name : String
  pub usage : Dict ℤ

pub record PodMetrics : Type 0 where
  pub name : String
  pub namespace : String
  pub timestamp : Time
  pub window : Duration
  pub containers : List ContainerMetrics

-- A value of the custom or the external metrics API, with the name of the object it describes.
pub record MetricValue : Type 0 where
  pub described_object : String
  pub timestamp : Time
  pub window_seconds : Option ℤ
  pub value : ℤ

pub record MetricsApi : Type 0 where
  -- PodMetricses(namespace).List.
  pub list_pod_metrics : String → String → Result (List PodMetrics)
  -- NamespacedMetrics(namespace).GetForObjects of pods.
  pub get_for_objects : String → String → String → String → Result (List MetricValue)
  -- RootScopedMetrics().GetForObject and NamespacedMetrics(namespace).GetForObject, by the group and
  -- the kind.
  pub get_for_root : String × String → String → String → String → Result MetricValue
  pub get_for_object : String → String × String → String → String → String → Result MetricValue
  -- The external NamespacedMetrics(namespace).List.
  pub list_external : String → String → String → Result (List MetricValue)
  -- The group that schema.FromAPIVersionAndKind reads.
  pub group_of : String → String

abbrev pub metric_server_default_metric_window : Duration
metric_server_default_metric_window = pos 60_000_000_000

abbrev pub pod_metric : PodMetrics → ℤ → PodMetric
pod_metric m value = record { timestamp = m.timestamp; window = m.window; value = value }

-- The first container of that name: the inner loop ends there.
unfoldable pub find_container : String → List ContainerMetrics → Option ContainerMetrics
find_container container [] = none
find_container container (c ∷ cs) =
    if c.name == container then some c else find_container container cs

-- A container without the resource adds no entry.
unfoldable pub put_usage : PodMetrics → Option ℤ → PodMetricsInfo → PodMetricsInfo
unfolding insert
put_usage m none res = res
put_usage m (some value) res = insert m.name (pod_metric m value) res

unfoldable pub put_container : String → String → PodMetrics → PodMetricsInfo → Result PodMetricsInfo
unfolding find_container put_usage lookup
put_container resource container m res = elim (find_container container m.containers) [
  | some c ↦ ok (put_usage m (lookup resource c.usage) res)
  | none ↦ err (
      message (
        "container " <> container <> " not present in metrics for pod " <> m.namespace <> "/"
        <> m.name))
]

unfoldable pub container_metrics_from :
    String → String → List PodMetrics → PodMetricsInfo → Result PodMetricsInfo
unfolding put_container
container_metrics_from resource container [] res = ok res
container_metrics_from resource container (m ∷ ms) res =
    and_then (put_container resource container m res) (container_metrics_from resource container ms)

unfoldable pub get_container_metrics : List PodMetrics → String → String → Result PodMetricsInfo
unfolding container_metrics_from
get_container_metrics raw_metrics resource container =
    container_metrics_from resource container raw_metrics []

-- The sum of the inner loop, or nothing where a container has no such resource.
unfoldable pub sum_usage : String → ℤ → List ContainerMetrics → Option ℤ
unfolding lookup add64
sum_usage resource pod_sum [] = some pod_sum
sum_usage resource pod_sum (c ∷ cs) = elim (lookup resource c.usage) [
  | none ↦ none
  | some value ↦ sum_usage resource (add64 pod_sum value) cs
]

-- A pod without containers is missing.
unfoldable pub pod_usage : String → List ContainerMetrics → Option ℤ
unfolding sum_usage
pod_usage resource [] = none
pod_usage resource (c ∷ cs) = sum_usage resource (pos 0) (c ∷ cs)

unfoldable pub pod_metrics_from : String → List PodMetrics → PodMetricsInfo → PodMetricsInfo
unfolding pod_usage put_usage
pod_metrics_from resource [] res = res
pod_metrics_from resource (m ∷ ms) res =
    pod_metrics_from resource ms (put_usage m (pod_usage resource m.containers) res)

unfoldable pub get_pod_metrics : List PodMetrics → String → PodMetricsInfo
unfolding pod_metrics_from
get_pod_metrics raw_metrics resource = pod_metrics_from resource raw_metrics []

-- The metrics of the pods, with the time of the first one.
unfoldable pub metrics_with_time :
    String → String → List PodMetrics → Result (PodMetricsInfo × Time)
unfolding get_container_metrics get_pod_metrics
metrics_with_time resource container [] =
    err (message "no metrics returned from resource metrics API")
metrics_with_time resource container (m ∷ ms) =
    if container == ""
    then ok (get_pod_metrics (m ∷ ms) resource, m.timestamp)
    else and_then
        (explain "failed to get container metrics: "
          (get_container_metrics (m ∷ ms) resource container))
        (λ res. ok (res, m.timestamp))

unfoldable pub get_resource_metric :
    MetricsApi → String → String → String → String → Result (PodMetricsInfo × Time)
unfolding metrics_with_time
get_resource_metric api resource namespace selector container =
    and_then
      (explain "unable to fetch metrics from resource metrics API: "
        (api.list_pod_metrics namespace selector))
      (metrics_with_time resource container)

unfoldable pub window_of : Option ℤ → Duration
unfolding ◌*ℤ◌ wrap64
window_of none = metric_server_default_metric_window
window_of (some n) = wrap64 (n *ℤ second)

unfoldable pub raw_metrics_from : List MetricValue → PodMetricsInfo → PodMetricsInfo
unfolding insert window_of
raw_metrics_from [] res = res
raw_metrics_from (m ∷ ms) res = raw_metrics_from ms (
    insert m.described_object
      (record { timestamp = m.timestamp; window = window_of m.window_seconds; value = m.value })
      res)

unfoldable pub raw_with_time : List MetricValue → Result (PodMetricsInfo × Time)
unfolding raw_metrics_from
raw_with_time [] = err (message "no metrics returned from custom metrics API")
raw_with_time (m ∷ ms) = ok (raw_metrics_from (m ∷ ms) [], m.timestamp)

unfoldable pub get_raw_metric :
    MetricsApi → String → String → String → String → Result (PodMetricsInfo × Time)
unfolding raw_with_time
get_raw_metric api metric_name namespace selector metric_selector =
    and_then
      (explain "unable to fetch metrics from custom metrics API: "
        (api.get_for_objects namespace selector metric_name metric_selector))
      raw_with_time

-- A namespace is asked for at the root, by the namespace of the caller.
unfoldable pub get_object_metric :
    MetricsApi → String → String → CrossVersionObjectReference → String → Result (ℤ × Time)
get_object_metric api metric_name namespace object metric_selector =
    let group = api.group_of object.api_version in
    and_then
      (explain "unable to fetch metrics from custom metrics API: " (
        if object.kind == "Namespace" && group == ""
        then api.get_for_root (group, object.kind) namespace metric_name metric_selector
        else api.get_for_object namespace (group, object.kind) object.name metric_name
            metric_selector))
      (λ m. ok (m.value, m.timestamp))

unfoldable pub external_with_time : List MetricValue → Result (List ℤ × Time)
external_with_time [] = err (message "no metrics returned from external metrics API")
external_with_time (m ∷ ms) = ok (map (λ v. v.value) (m ∷ ms), m.timestamp)

unfoldable pub get_external_metric : MetricsApi → String → String → String → Result (List ℤ × Time)
unfolding external_with_time
get_external_metric api metric_name namespace selector =
    and_then
      (explain "unable to fetch metrics from external metrics API: "
        (api.list_external namespace metric_name selector))
      external_with_time
