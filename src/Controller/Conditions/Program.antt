-- ===== src/Controller/Conditions/Program.antt =====
-- A reconciliation with the plugins that the program starts.
use wing.Base.{ok, Float64, String, ◌≡◌, sym, subst}
use wing.Api.Types.{Conditions}
use wing.Utils.Timerange.{TimeLibrary}
use wing.Utils.ReplicaPatches.{PatchCodec}
use wing.Engine.Interfaces.{Scaler}
use wing.Prometheus.Query.{query_server}
use wing.Plugins.Simple.{History}
use wing.Plugins.Setup.{Environment, Setups, start_engine, pod_source, prometheus_name}
use wing.Plugins.Setup.Laws.{IsPodsScaler, IsPrometheusScaler}
use wing.Plugins.Setup.Start.{loaded_scalers}
use wing.Controller.State.{State, Cluster, Plugins}
use wing.Controller.Reconcile.{reconcile}
use wing.Controller.Conditions.{Keeps, Spares}
use wing.Controller.Conditions.Scalers.{pods-Spares, prometheus-Spares}
use wing.Controller.Conditions.Whole.{reconcile-Holds}

-- The engine's scalers and replicators, as the controller asks for them by name.
abbrev pub engine_plugins : Setups → Plugins History
engine_plugins p = record { scalers = p.scalers; replicators = p.replicators }

module _ (F : Type 0) ⦃f : Float64 F⦄ where
  IsPodsScaler-Spares :
      (env : Environment F) (plugin resource : String) (x : Scaler)
      → IsPodsScaler F env plugin resource x
      → Spares x
  IsPodsScaler-Spares env plugin resource x (config, valid, same) =
      subst Spares (sym same)
        (pods-Spares F (pod_source F env) env.unmarshal_pods plugin config resource)

  IsPrometheusScaler-Spares :
      (env : Environment F) (x : Scaler) → IsPrometheusScaler F env x → Spares x
  IsPrometheusScaler-Spares env x (config, valid, same) = subst Spares (sym same) (
      prometheus-Spares F (query_server F (env.http config.default_timeout)) env.farm_hash
        env.unmarshal_prometheus prometheus_name config)

  pub program-Holds :
      (P : Conditions → Type 0) (env : Environment F) (lib : TimeLibrary) (json : PatchCodec)
      (cluster : Cluster) (s : State History)
      → Keeps P
      → (start_engine F env).0 ≡ ok tt
      → P s.autoscaler.status.conditions
      → P
          (reconcile F lib json cluster
            (engine_plugins (start_engine F env).1)
            s).1.autoscaler.status.conditions
  program-Holds P env lib json cluster s keeps started h =
      reconcile-Holds F P keeps lib json cluster (engine_plugins (start_engine F env).1)
        (λ name scaler found.
          loaded_scalers F env Spares name scaler started (IsPodsScaler-Spares env)
            (IsPrometheusScaler-Spares env) found)
        s h
