-- ===== src/Plugins/Setup/Start.antt =====
-- The engine as the program starts it: which plugins it has, and how they are configured.
use wing.Base.{
  lookup, insert, lookup-All, ok-injective, ok, Float64, String, ◌≡◌, refl, sym, ap, ◌∙◌, none,
  some, [], ◌∷◌,
}
use wing.Engine.Interfaces.{Scaler, Replicator}
use wing.Engine.Registry.{
  Plugin, Registry, plugin_endpoint_scaler, plugin_endpoint_replicator, add_replicator, add_scaler,
  get_scaler, get_replicator, get_plugin, plugins_of, register_plugin, load_endpoint, load_plugins,
}
use wing.Engine.Registry.Laws.{bind_at-inversion, lift-inversion, load_endpoint-cons}
use wing.PodResource.Pods.{resource_cpu, resource_memory}
use wing.Plugins.Simple.{History}
use wing.Plugins.Rabbitmq.Scaler.{plugin_name}
use wing.Plugins.Setup.{
  Environment, Setups, cpu_name, memory_name, prometheus_name, simple_name, scalers, replicators,
  scaler_plugin, setup_simple, setup_cpu, setup_memory, setup_prometheus, registered_plugins,
  start_engine,
}
use wing.Plugins.Setup.Laws.{
  IsPodsScaler, IsPrometheusScaler, IsSimpleReplicator, setup_cpu-inversion, setup_memory-inversion,
  setup_prometheus-inversion, setup_simple-inversion,
}

module _ (F : Type 0) ⦃f : Float64 F⦄ where
  abbrev simple_plugin : Environment F → Plugin Scaler (Replicator History)
  simple_plugin env = record { endpoint = plugin_endpoint_replicator; setup = setup_simple F env }

  -- What the init functions leave.
  abbrev program_plugins : Environment F → Registry Scaler (Replicator History)
  program_plugins env =
      (plugin_endpoint_replicator, (simple_name, simple_plugin env) ∷ [])
      ∷ (
        plugin_endpoint_scaler,
        (cpu_name, scaler_plugin F (setup_cpu F env))
            ∷ (memory_name, scaler_plugin F (setup_memory F env))
            ∷ (prometheus_name, scaler_plugin F (setup_prometheus F env))
            ∷ [],
      )
      ∷ []

  registered_plugins_lem :
      (env : Environment F) → registered_plugins F env ≡ ok (program_plugins env)
  unfolding registered_plugins register_plugin get_plugin plugins_of insert lookup
  registered_plugins_lem env = refl

  abbrev no_plugins : Setups
  no_plugins = record { scalers = []; replicators = [] }

  scalers_loaded :
      (env : Environment F) (p t : Setups)
      → load_endpoint plugin_endpoint_scaler (program_plugins env) scalers p ≡ (ok tt, t)
      → (cpu memory prometheus : Scaler) × IsPodsScaler F env cpu_name resource_cpu cpu
        × IsPodsScaler F env memory_name resource_memory memory
        × IsPrometheusScaler F env prometheus
        × (t
            ≡ add_scaler prometheus_name prometheus
                (add_scaler memory_name memory (add_scaler cpu_name cpu p)))
  unfolding get_plugin plugins_of lookup load_endpoint
  scalers_loaded env p t h =
      let (p1, cpu_done, rest1) =
        load_endpoint-cons plugin_endpoint_scaler cpu_name (memory_name ∷ prometheus_name ∷ [])
          (program_plugins env) (scaler_plugin F (setup_cpu F env)) p t refl h in
      let (p2, memory_done, rest2) =
        load_endpoint-cons plugin_endpoint_scaler memory_name (prometheus_name ∷ [])
          (program_plugins env) (scaler_plugin F (setup_memory F env)) p1 t refl rest1 in
      let (p3, prometheus_done, rest3) =
        load_endpoint-cons plugin_endpoint_scaler prometheus_name [] (program_plugins env)
          (scaler_plugin F (setup_prometheus F env)) p2 t refl rest2 in
      let (cpu, is_cpu, e1) = setup_cpu-inversion F env p p1 cpu_done in
      let (memory, is_memory, e2) = setup_memory-inversion F env p1 p2 memory_done in
      let (prometheus, is_prometheus, e3) =
        setup_prometheus-inversion F env p2 p3 prometheus_done in
      (
        cpu,
        memory,
        prometheus,
        is_cpu,
        is_memory,
        is_prometheus,
        sym (ap (λ x. x.1) rest3)
            ∙ (e3
                ∙ ap (add_scaler prometheus_name prometheus)
                    (e2 ∙ ap (add_scaler memory_name memory) e1)),
      )

  -- The engine that is left, by what was added to it.
  abbrev loaded : Scaler → Scaler → Scaler → Replicator History → Setups
  loaded cpu memory prometheus simple = add_scaler prometheus_name prometheus (
      add_scaler memory_name memory
        (add_scaler cpu_name cpu (add_replicator simple_name simple no_plugins)))

  load_plugins-inversion :
      (env : Environment F) (t : Setups)
      → load_plugins replicators scalers (program_plugins env) no_plugins ≡ (ok tt, t)
      → (cpu memory prometheus : Scaler) × (simple : Replicator History) × IsPodsScaler F env
          cpu_name resource_cpu cpu
        × IsPodsScaler F env memory_name resource_memory memory
        × IsPrometheusScaler F env prometheus
        × IsSimpleReplicator F simple
        × (t ≡ loaded cpu memory prometheus simple)
  unfolding load_plugins get_plugin plugins_of lookup load_endpoint
  load_plugins-inversion env t h =
      let (_, p, first, rest) =
        bind_at-inversion
          (load_endpoint plugin_endpoint_replicator (program_plugins env) replicators no_plugins)
          (λ _. load_endpoint plugin_endpoint_scaler (program_plugins env) scalers) tt t h in
      let (q, simple_done, none_left) =
        load_endpoint-cons plugin_endpoint_replicator simple_name [] (program_plugins env)
          (simple_plugin env) no_plugins p refl first in
      let (simple, is_simple, e) = setup_simple-inversion F env no_plugins q simple_done in
      let (cpu, memory, prometheus, is_cpu, is_memory, is_prometheus, e') =
        scalers_loaded env p t rest in
      (
        cpu,
        memory,
        prometheus,
        simple,
        is_cpu,
        is_memory,
        is_prometheus,
        is_simple,
        e'
            ∙ ap
                (λ (x : Setups).
                  add_scaler prometheus_name prometheus
                    (add_scaler memory_name memory (add_scaler cpu_name cpu x)))
                (sym (ap (λ x. x.1) none_left) ∙ e),
      )

  -- What a start that succeeds has added to the engine.
  pub start_engine-inversion :
      (env : Environment F)
      → (start_engine F env).0 ≡ ok tt
      → (cpu memory prometheus : Scaler) × (simple : Replicator History) × IsPodsScaler F env
          cpu_name resource_cpu cpu
        × IsPodsScaler F env memory_name resource_memory memory
        × IsPrometheusScaler F env prometheus
        × IsSimpleReplicator F simple
        × ((start_engine F env).1 ≡ loaded cpu memory prometheus simple)
  unfolding start_engine
  start_engine-inversion env h =
      let t = (start_engine F env).1 in
      let (registered, r, loading) =
        lift-inversion (registered_plugins F env) no_plugins
          (λ registered. load_plugins replicators scalers registered) tt t (λ i. (h i, t)) in
      let same : registered ≡ program_plugins env =
        ok-injective (sym r ∙ registered_plugins_lem env) in
      load_plugins-inversion env t
        (ap (λ x. load_plugins replicators scalers x no_plugins) (sym same) ∙ loading)

  -- If the program starts, its engine has the scalers of CPU, memory and Prometheus and the simple
  -- replicator, each with a valid configuration, and no scaler of RabbitMQ.
  pub start_loads :
      (env : Environment F)
      → (start_engine F env).0 ≡ ok tt
      → (cpu memory prometheus : Scaler) × (simple : Replicator History) × (get_scaler cpu_name
            (start_engine F env).1
          ≡ some cpu)
        × (get_scaler memory_name (start_engine F env).1 ≡ some memory)
        × (get_scaler prometheus_name (start_engine F env).1 ≡ some prometheus)
        × (get_replicator simple_name (start_engine F env).1 ≡ some simple)
        × (get_scaler plugin_name (start_engine F env).1 ≡ none)
        × IsPodsScaler F env cpu_name resource_cpu cpu
        × IsPodsScaler F env memory_name resource_memory memory
        × IsPrometheusScaler F env prometheus
        × IsSimpleReplicator F simple
  unfolding get_scaler get_replicator add_scaler add_replicator insert lookup
  start_loads env h =
      let (cpu, memory, prometheus, simple, is_cpu, is_memory, is_prometheus, is_simple, e) =
        start_engine-inversion env h in
      (
        cpu,
        memory,
        prometheus,
        simple,
        ap (get_scaler cpu_name) e,
        ap (get_scaler memory_name) e,
        ap (get_scaler prometheus_name) e,
        ap (get_replicator simple_name) e,
        ap (get_scaler plugin_name) e,
        is_cpu,
        is_memory,
        is_prometheus,
        is_simple,
      )

  -- Every scaler of the engine is one of the three.
  pub loaded_scalers :
      (env : Environment F) (Q : Scaler → Type 0) (name : String) (scaler : Scaler)
      → (start_engine F env).0 ≡ ok tt
      → ((plugin resource : String) (x : Scaler) → IsPodsScaler F env plugin resource x → Q x)
      → ((x : Scaler) → IsPrometheusScaler F env x → Q x)
      → lookup name (start_engine F env).1.scalers ≡ some scaler
      → Q scaler
  unfolding add_scaler add_replicator insert
  loaded_scalers env Q name scaler h pods prometheus found =
      let (cpu, memory, prom, simple, is_cpu, is_memory, is_prometheus, is_simple, e) =
        start_engine-inversion env h in
      lookup-All Q name ((cpu_name, cpu) ∷ (memory_name, memory) ∷ (prometheus_name, prom) ∷ [])
        scaler
        (
          pods cpu_name resource_cpu cpu is_cpu,
          (pods memory_name resource_memory memory is_memory, (prometheus prom is_prometheus, tt)),
        )
        (ap (λ (p : Setups). lookup name p.scalers) (sym e) ∙ found)
