-- ===== src/Plugins/Setup.antt =====
-- The setup of the plugins: GetPluginConfig of core/engine/engine.go, the file setup.go of each
-- plugin, and what their init functions register.
pub mod Laws
pub mod Start
use wing.Base.{
  if◌then◌else◌, pos, Dict, lookup, Result, and_then, bind_at, message, wrapped, ok, err, panic,
  Duration, Float64, String, Bool, true, false, not, Option, none, some, List, [], ◌∷◌,
}
use wing.Api.Types.{Raw}
use wing.Engine.Interfaces.{ScalerContext, Scaler, Replicator}
use wing.Engine.Registry.{
  Provisioner, Plugin, Registry, plugin_endpoint_scaler, plugin_endpoint_replicator, add_replicator,
  add_scaler, register_plugin, load_plugins,
}
use wing.Kubernetes.{Pod}
use wing.Metrics.Client.{MetricsApi, get_resource_metric}
use wing.PodResource.Pods.{resource_cpu, resource_memory}
use wing.PodResource.Scaler.{PodSource}
use wing.PodResource.Scaler as Pods
use wing.Prometheus.Query.{Http, query_server}
use wing.Prometheus.Scaler as Prometheus
use wing.Plugins.Simple as Simple
use wing.Plugins.Simple.{History}
use wing.Plugins.Rabbitmq.Settings.{Settings}
use wing.Plugins.Rabbitmq.Scaler as Rabbitmq

-- What GetPluginConfig is given: the default configuration behind a pointer, how YAML is decoded
-- into it, and its method Validate.
pub record Receiver (C : Type 0) : Type 0 where
  pub is_pointer : Bool
  pub value : C
  pub decode : Raw → C → Result C
  pub validate : C → Result (Unit {0})

-- Nothing where the name has no configuration, which is no error.
unfoldable pub get_plugin_config : {C : Type 0} → Dict Raw → String → Receiver C → Result (Option C)
unfolding lookup
get_plugin_config plugin_configs name r = elim (lookup name plugin_configs) [
  | none ↦ ok none
  | some raw_config ↦
      if not r.is_pointer
      then err (message "plugin config receiver must be a non-nil pointer")
      else and_then (r.decode raw_config r.value)
          (λ config. and_then (r.validate config) (λ _. ok (some config)))
]

-- Each setup fails alike without a configuration.
unfoldable pub required : {C : Type 0} → Result (Option C) → Result C
required (ok (some config)) = ok config
required (ok none) = err (message "plugin config is required: ok false err <nil>")
required (err e) = err (wrapped "plugin config is required: ok true err " e)
required panic = panic

-- The plugins' names.
abbrev pub simple_name : String
simple_name = "simple"

abbrev pub cpu_name : String
cpu_name = "cpu"

abbrev pub memory_name : String
memory_name = "memory"

abbrev pub prometheus_name : String
prometheus_name = "prometheus"

-- The names that core/engine/pluginz.go lists.
abbrev pub scalers : List String
scalers = cpu_name ∷ memory_name ∷ prometheus_name ∷ []

abbrev pub replicators : List String
replicators = simple_name ∷ []

-- The engine that the plugins set up.
abbrev pub Setups : Type 0
Setups = Provisioner Scaler (Replicator History)

module _ (F : Type 0) ⦃f : Float64 F⦄ where
  -- What the plugins find outside: their YAML configurations and the decoding of these, the metrics
  -- API and the pods, the HTTP of the Prometheus client by its timeout, FarmHash, and for each scaler
  -- the decoding of its settings. The last two are of RabbitMQ: url.Parse with the order in which
  -- the map of tests is walked, and the request.
  pub record Environment : Type 0 where
    pub plugin_configs : Dict Raw
    pub decode_simple : Raw → Simple.Config → Result Simple.Config
    pub decode_pods : Raw → Pods.Config F → Result (Pods.Config F)
    pub decode_prometheus : Raw → Prometheus.ScalerConfig F → Result (Prometheus.ScalerConfig F)
    pub decode_rabbitmq : Raw → Rabbitmq.ScalerConfig F → Result (Rabbitmq.ScalerConfig F)
    pub metrics_api : MetricsApi
    pub list_pods : String → String → Result (List Pod)
    pub http : Duration → Http F
    pub farm_hash : String → String
    pub unmarshal_pods : Raw → Result Pods.Settings
    pub unmarshal_prometheus : Raw → Result (Prometheus.Settings F)
    pub unmarshal_rabbitmq : Raw → Result (Settings F)
    pub parse_scheme : String → Result String
    pub walk : List (String × Bool) → List (String × Bool)
    pub request : Settings F → Duration → Result F

  -- The pods and metrics of a scaler by the metrics client.
  unfoldable pub pod_source : Environment → PodSource
  unfolding get_resource_metric
  pod_source env = record {
    list_pods = env.list_pods;
    get_resource_metric = get_resource_metric env.metrics_api;
  }

  -- `podresource.New`.
  unfoldable pub new_pod_resource : Environment → String → Pods.Config F → String → Result Scaler
  unfolding pod_source Pods.validate Pods.get
  new_pod_resource env plugin config resource =
      and_then (Pods.validate F config)
        λ _. ok (Pods.get F (pod_source env) env.unmarshal_pods plugin config resource)

  -- `prometheus.New`.
  unfoldable pub new_prometheus : Environment → String → Prometheus.ScalerConfig F → Result Scaler
  unfolding Prometheus.validate_config Prometheus.get query_server
  new_prometheus env plugin config = and_then (Prometheus.validate_config F config) λ _. ok (
      Prometheus.get F (query_server F (env.http config.default_timeout)) env.farm_hash
        env.unmarshal_prometheus plugin config)

  -- The configuration of the replicator.
  unfoldable pub simple_config : Environment → Result Simple.Config
  unfolding get_plugin_config required Simple.new_default_config Simple.validate
  simple_config env = required (
      get_plugin_config env.plugin_configs simple_name (record {
        is_pointer = true;
        value = Simple.new_default_config;
        decode = env.decode_simple;
        validate = Simple.validate;
      }))

  unfoldable pub setup_simple : Environment → Setups → Result (Unit {0}) × Setups
  unfolding simple_config add_replicator Simple.get_desired_replicas
  setup_simple env p =
      bind_at (simple_config env, p)
        λ config p'. (ok tt, add_replicator "simple" (Simple.get_desired_replicas config) p')

  -- The configuration of a scaler by resource usage.
  unfoldable pub pods_config : Environment → String → Result (Pods.Config F)
  unfolding get_plugin_config required Pods.new_default_config Pods.validate
  pods_config env plugin = required (
      get_plugin_config env.plugin_configs plugin (record {
        is_pointer = true;
        value = Pods.new_default_config F;
        decode = env.decode_pods;
        validate = Pods.validate F;
      }))

  unfoldable pub setup_cpu : Environment → Setups → Result (Unit {0}) × Setups
  unfolding pods_config new_pod_resource add_scaler
  setup_cpu env p =
      bind_at (pods_config env cpu_name, p)
        λ config p'.
          bind_at (new_pod_resource env cpu_name config resource_cpu, p')
            λ scaler p''. (ok tt, add_scaler cpu_name scaler p'')

  unfoldable pub setup_memory : Environment → Setups → Result (Unit {0}) × Setups
  unfolding pods_config new_pod_resource add_scaler
  setup_memory env p =
      bind_at (pods_config env memory_name, p)
        λ config p'.
          bind_at (new_pod_resource env memory_name config resource_memory, p')
            λ scaler p''. (ok tt, add_scaler memory_name scaler p'')

  -- The configuration of the Prometheus scaler.
  unfoldable pub prometheus_config : Environment → Result (Prometheus.ScalerConfig F)
  unfolding get_plugin_config required Prometheus.new_default_config Prometheus.validate_config
  prometheus_config env = required (
      get_plugin_config env.plugin_configs prometheus_name (record {
        is_pointer = true;
        value = Prometheus.new_default_config F;
        decode = env.decode_prometheus;
        validate = Prometheus.validate_config F;
      }))

  unfoldable pub setup_prometheus : Environment → Setups → Result (Unit {0}) × Setups
  unfolding prometheus_config new_prometheus add_scaler
  setup_prometheus env p =
      bind_at (prometheus_config env, p)
        λ config p'.
          bind_at (new_prometheus env prometheus_name config, p')
            λ scaler p''. (ok tt, add_scaler prometheus_name scaler p'')

  -- That of the RabbitMQ scaler, of which the default is the zero value.
  unfoldable pub rabbitmq_config : Environment → Result (Rabbitmq.ScalerConfig F)
  unfolding get_plugin_config required Rabbitmq.validate_config
  rabbitmq_config env = required (
      get_plugin_config env.plugin_configs Rabbitmq.plugin_name (record {
        is_pointer = true;
        value = record { toleration = f.constant 0 1; default_timeout = pos 0 };
        decode = env.decode_rabbitmq;
        validate = Rabbitmq.validate_config F;
      }))

  unfoldable pub setup_rabbitmq : Environment → Setups → Result (Unit {0}) × Setups
  unfolding rabbitmq_config Rabbitmq.get add_scaler
  setup_rabbitmq env p =
      bind_at (rabbitmq_config env, p)
        λ config p'. (
          ok tt,
          add_scaler Rabbitmq.plugin_name
              (Rabbitmq.get F env.parse_scheme env.walk env.request env.unmarshal_rabbitmq config)
              p',
        )

  -- The plugin that each init function registers.
  abbrev pub scaler_plugin :
      (Setups → Result (Unit {0}) × Setups) → Plugin Scaler (Replicator History)
  scaler_plugin setup = record { endpoint = plugin_endpoint_scaler; setup = setup }

  -- The init functions of the packages that the program imports, which does not import the one of
  -- RabbitMQ.
  unfoldable pub registered_plugins : Environment → Result (Registry Scaler (Replicator History))
  unfolding register_plugin setup_simple setup_cpu setup_memory setup_prometheus
  registered_plugins env =
      and_then
        (register_plugin simple_name
          (record { endpoint = plugin_endpoint_replicator; setup = setup_simple env }) [])
        λ r. and_then (register_plugin cpu_name (scaler_plugin (setup_cpu env)) r) λ r'.
          and_then (register_plugin memory_name (scaler_plugin (setup_memory env)) r')
            (register_plugin prometheus_name (scaler_plugin (setup_prometheus env)))

  -- The engine as the program starts it.
  unfoldable pub start_engine : Environment → Result (Unit {0}) × Setups
  unfolding registered_plugins load_plugins
  start_engine env =
      bind_at (registered_plugins env, record { scalers = []; replicators = [] })
        (λ registered. load_plugins replicators scalers registered)
