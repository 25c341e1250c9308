-- ===== src/Examples/Usage.antt =====
-- The metrics client, and the engine that the program starts.
use wing.Base.{
  ℤ, ◌+ℤ◌, pos, wrap64, All, Stands, Dict, lookup, external, ok, err, Exact, exact, String, ◌≡◌,
  refl, ◌≢◌, ◌⊎◌, none, some, [], ◌∷◌,
}
use wing.Engine.Interfaces.{Scaler, Replicator}
use wing.Engine.Registry.{get_scaler, get_replicator}
use wing.Metrics.{PodMetric}
use wing.Metrics.Client.{PodMetrics, MetricsApi, pod_metric, get_pod_metrics, get_container_metrics}
use wing.Metrics.Client.Entries.{Holds}
use wing.Metrics.Client.Laws.{
  IsUsageOf, get_pod_metrics_lem, container_usage, missing_container, Lacks,
  get_container_metrics_outcome,
}
use wing.PodResource.Pods.{resource_cpu, resource_memory}
use wing.Plugins.Simple.{History}
use wing.Plugins.Rabbitmq.Scaler.{plugin_name}
use wing.Plugins.Setup.{
  Environment, start_engine, cpu_name, memory_name, prometheus_name, simple_name,
}
use wing.Plugins.Setup.Laws.{IsPodsScaler, IsPrometheusScaler, IsSimpleReplicator}
use wing.Plugins.Setup.Start.{start_loads}

-- A pod with two containers, of which each uses some of the CPU.
abbrev web_pod : PodMetrics
web_pod = record {
  name = "web-1";
  namespace = "default";
  timestamp = pos 100;
  window = pos 60;
  containers =
      record { name = "app"; usage = ("cpu", pos 200) ∷ [] }
      ∷ record { name = "proxy"; usage = ("cpu", pos 50) ∷ [] }
      ∷ [];
}

two_hundred_and_fifty :
    lookup "web-1" (get_pod_metrics (web_pod ∷ []) "cpu") ≡ some (pod_metric web_pod (pos 250))
unfolding get_pod_metrics lookup wrap64 ◌+ℤ◌
two_hundred_and_fifty = refl

get_pod_metrics_lem_example :
    ((name : String) (p : PodMetric)
      → lookup name (get_pod_metrics (web_pod ∷ []) "cpu") ≡ some p
      → (m : PodMetrics) × Stands m (web_pod ∷ [])
        × (m.name ≡ name)
        × ((v : ℤ) × IsUsageOf "cpu" m.containers v × (p ≡ pod_metric m v)))
    × ((m : PodMetrics) (v : ℤ)
        → Stands m (web_pod ∷ [])
        → IsUsageOf "cpu" m.containers v
        → lookup m.name (get_pod_metrics (web_pod ∷ []) "cpu") ≢ none)
get_pod_metrics_lem_example = get_pod_metrics_lem (web_pod ∷ []) "cpu"

get_container_metrics_outcome_example :
    ((info : Dict PodMetric) × (get_container_metrics (web_pod ∷ []) "cpu" "proxy" ≡ ok info)
      × All (λ m. ¬ Lacks "proxy" m) (web_pod ∷ [])
      × Holds (container_usage "cpu" "proxy") (web_pod ∷ []) info)
    ⊎ ((m : PodMetrics) × Stands m (web_pod ∷ [])
        × Lacks "proxy" m
        × (get_container_metrics (web_pod ∷ []) "cpu" "proxy" ≡ err (missing_container "proxy" m)))
get_container_metrics_outcome_example = get_container_metrics_outcome (web_pod ∷ []) "cpu" "proxy"

abbrev no_metrics : MetricsApi
no_metrics = record {
  list_pod_metrics = λ namespace selector. ok [];
  get_for_objects = λ namespace selector name metric. ok [];
  get_for_root = λ kind namespace name metric. err (external "none");
  get_for_object = λ namespace kind object name metric. err (external "none");
  list_external = λ namespace name selector. ok [];
  group_of = λ version. "";
}

-- Every plugin is configured by an empty text, which changes no default but Prometheus's server.
abbrev pub environment : Environment Exact ⦃f = exact⦄
environment = record {
  plugin_configs =
      (simple_name, "") ∷ (cpu_name, "") ∷ (memory_name, "") ∷ (prometheus_name, "") ∷ [];
  decode_simple = λ raw config. ok config;
  decode_pods = λ raw config. ok config;
  decode_prometheus = λ raw config. ok (record config {
    default_server = record config.default_server { server_address = some "http://prometheus" };
  });
  decode_rabbitmq = λ raw config. ok config;
  metrics_api = no_metrics;
  list_pods = λ namespace selector. ok [];
  http = λ timeout. record {
    query_escape = λ text. text;
    new_request = λ url. ok tt;
    exchange = λ unchecked request. err (external "refused");
    unmarshal = λ body. err (external "invalid");
  };
  farm_hash = λ text. text;
  unmarshal_pods = λ raw. err (external "invalid");
  unmarshal_prometheus = λ raw. err (external "invalid");
  unmarshal_rabbitmq = λ raw. err (external "invalid");
  parse_scheme = λ host. ok "amqp";
  walk = λ checks. checks;
  request = λ settings timeout. err (external "refused");
}

start_loads_example :
    let p = (start_engine Exact ⦃f = exact⦄ environment).1 in
    (cpu memory prometheus : Scaler) × (simple : Replicator History) × (get_scaler cpu_name p
      ≡ some cpu)
    × (get_scaler memory_name p ≡ some memory)
    × (get_scaler prometheus_name p ≡ some prometheus)
    × (get_replicator simple_name p ≡ some simple)
    × (get_scaler plugin_name p ≡ none)
    × IsPodsScaler Exact ⦃f = exact⦄ environment cpu_name resource_cpu cpu
    × IsPodsScaler Exact ⦃f = exact⦄ environment memory_name resource_memory memory
    × IsPrometheusScaler Exact ⦃f = exact⦄ environment prometheus
    × IsSimpleReplicator Exact ⦃f = exact⦄ simple
unfolding start_engine exact
start_loads_example = start_loads Exact ⦃f = exact⦄ environment refl
