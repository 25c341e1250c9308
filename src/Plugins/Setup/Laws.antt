-- ===== src/Plugins/Setup/Laws.antt =====
-- Laws of the setup of the plugins.
use wing.Base.{
  Option-cases, some-injective, none-ne-some, Dict, lookup, Result, and_then, and_then-eq-ok,
  ok-injective, err-ne-ok, panic-ne-ok, ok, err, panic, Float64, String, ◌≡◌, refl, sym, ap, subst,
  inl, inr, true, Option, none, some,
}
use wing.Api.Types.{Raw}
use wing.Engine.Interfaces.{Scaler, Replicator}
use wing.Engine.Registry.{add_replicator, add_scaler}
use wing.Engine.Registry.Laws.{lift-inversion}
use wing.PodResource.Pods.{resource_cpu, resource_memory}
use wing.PodResource.Scaler as Pods
use wing.Prometheus.Query.{query_server}
use wing.Prometheus.Scaler as Prometheus
use wing.Plugins.Simple as Simple
use wing.Plugins.Simple.{History}
use wing.Plugins.Setup.{
  Receiver, get_plugin_config, required, Environment, Setups, cpu_name, memory_name,
  prometheus_name, simple_name, pod_source, new_pod_resource, new_prometheus, simple_config,
  prometheus_config, pods_config, setup_simple, setup_cpu, setup_memory, setup_prometheus,
}

-- A configuration that a plugin gets is valid.
required-found :
    {C : Type 0} (o : Result (Option C)) (config : C)
    → required o ≡ ok config
    → o ≡ ok (some config)
unfolding required
required-found (ok none) config h = absurd (err-ne-ok h)
required-found (ok (some c)) config h = ap (λ x. ok (some x)) (ok-injective h)
required-found (err e) config h = absurd (err-ne-ok h)
required-found panic config h = absurd (panic-ne-ok h)

configured : {C : Type 0} {c config : C} → ok (some c) ≡ ok (some config) → c ≡ config
configured h = some-injective (ok-injective h)

required-validates :
    {C : Type 0} (plugin_configs : Dict Raw) (name : String) (r : Receiver C) (config : C)
    → r.is_pointer ≡ true
    → required (get_plugin_config plugin_configs name r) ≡ ok config
    → r.validate config ≡ ok tt
unfolding get_plugin_config
required-validates {C} plugin_configs name r config pointer h =
    let found = required-found (get_plugin_config plugin_configs name r) config h in
    elim (Option-cases (lookup name plugin_configs)) [
      | inl missing ↦
          absurd (none-ne-some (ok-injective (rw (missing, get_plugin_config) at found)))
      | inr (raw, e) ↦
          let (c, _, validated) =
            and_then-eq-ok {B = Option C} (r.decode raw r.value)
              (λ c. and_then (r.validate c) (λ _. ok (some c)))
              (rw (e, pointer, get_plugin_config) at found) in
          let (u, valid, same) =
            and_then-eq-ok {B = Option C} (r.validate c) (λ _. ok (some c)) validated in
          subst (λ (x : C). r.validate x ≡ ok tt) (configured same) valid
    ]

module _ (F : Type 0) ⦃f : Float64 F⦄ where
  -- A scaler by resource usage as its plugin makes it, of a valid configuration.
  abbrev pub IsPodsScaler : Environment F → String → String → Scaler → Type 0
  IsPodsScaler env name resource scaler =
      (config : Pods.Config F) × (Pods.validate F config ≡ ok tt)
      × (scaler ≡ Pods.get F (pod_source F env) env.unmarshal_pods name config resource)

  abbrev pub IsPrometheusScaler : Environment F → Scaler → Type 0
  IsPrometheusScaler env scaler =
      (config : Prometheus.ScalerConfig F) × (Prometheus.validate_config F config ≡ ok tt)
      × (scaler
          ≡ Prometheus.get F (query_server F (env.http config.default_timeout)) env.farm_hash
              env.unmarshal_prometheus prometheus_name config)

  abbrev pub IsSimpleReplicator : Replicator History → Type 0
  IsSimpleReplicator replicator =
      (config : Simple.Config) × (Simple.validate config ≡ ok tt)
      × (replicator ≡ Simple.get_desired_replicas config)

  new_pod_resource-IsPodsScaler :
      (env : Environment F) (name resource : String) (config : Pods.Config F) (scaler : Scaler)
      → new_pod_resource F env name config resource ≡ ok scaler
      → IsPodsScaler env name resource scaler
  unfolding new_pod_resource
  new_pod_resource-IsPodsScaler env name resource config scaler h =
      let (u, valid, same) = and_then-eq-ok (Pods.validate F config) _ h in
      (config, valid, sym (ok-injective same))

  pub setup_cpu-inversion :
      (env : Environment F) (p t : Setups)
      → setup_cpu F env p ≡ (ok tt, t)
      → (scaler : Scaler) × IsPodsScaler env cpu_name resource_cpu scaler
        × (t ≡ add_scaler cpu_name scaler p)
  unfolding setup_cpu
  setup_cpu-inversion env p t h =
      let (config, _, rest) = lift-inversion (pods_config F env cpu_name) p _ tt t h in
      let (scaler, made, done) =
        lift-inversion (new_pod_resource F env cpu_name config resource_cpu) p _ tt t rest in
      (
        scaler,
        new_pod_resource-IsPodsScaler env cpu_name resource_cpu config scaler made,
        sym (ap (λ x. x.1) done),
      )

  pub setup_memory-inversion :
      (env : Environment F) (p t : Setups)
      → setup_memory F env p ≡ (ok tt, t)
      → (scaler : Scaler) × IsPodsScaler env memory_name resource_memory scaler
        × (t ≡ add_scaler memory_name scaler p)
  unfolding setup_memory
  setup_memory-inversion env p t h =
      let (config, _, rest) = lift-inversion (pods_config F env memory_name) p _ tt t h in
      let (scaler, made, done) =
        lift-inversion (new_pod_resource F env memory_name config resource_memory) p _ tt t rest in
      (
        scaler,
        new_pod_resource-IsPodsScaler env memory_name resource_memory config scaler made,
        sym (ap (λ x. x.1) done),
      )

  pub setup_prometheus-inversion :
      (env : Environment F) (p t : Setups)
      → setup_prometheus F env p ≡ (ok tt, t)
      → (scaler : Scaler) × IsPrometheusScaler env scaler
        × (t ≡ add_scaler prometheus_name scaler p)
  unfolding setup_prometheus new_prometheus
  setup_prometheus-inversion env p t h =
      let (config, _, rest) = lift-inversion (prometheus_config F env) p _ tt t h in
      let (scaler, made, done) =
        lift-inversion (new_prometheus F env prometheus_name config) p _ tt t rest in
      let (u, valid, same) = and_then-eq-ok (Prometheus.validate_config F config) _ made in
      (scaler, (config, valid, sym (ok-injective same)), sym (ap (λ x. x.1) done))

  simple_config-IsValid :
      (env : Environment F) (config : Simple.Config)
      → simple_config F env ≡ ok config
      → Simple.validate config ≡ ok tt
  unfolding simple_config
  simple_config-IsValid env config e =
      required-validates env.plugin_configs simple_name
        (record {
          is_pointer = true;
          value = Simple.new_default_config;
          decode = env.decode_simple;
          validate = Simple.validate;
        })
        config refl e

  pub setup_simple-inversion :
      (env : Environment F) (p t : Setups)
      → setup_simple F env p ≡ (ok tt, t)
      → (replicator : Replicator History) × IsSimpleReplicator replicator
        × (t ≡ add_replicator simple_name replicator p)
  unfolding setup_simple
  setup_simple-inversion env p t h =
      let (config, e, done) = lift-inversion (simple_config F env) p _ tt t h in
      (
        Simple.get_desired_replicas config,
        (config, simple_config-IsValid env config e, refl),
        sym (ap (λ x. x.1) done),
      )
