-- ===== src/Controller/Conditions/Scalers.antt =====
-- What the scalers of utils/scalerprovider and plugins/scaler_rabbitmq leave of the conditions.
use wing.Prometheus.Scaler.{calculate_desired_replicas}
use wing.Base.{
  if◌then◌else◌, ℤ, eqb_ℤ, pos, Result, explain, M, bind_at, ok, err, panic, Time, Duration, Clock,
  now, tick, Float64, String, ◌≡◌, refl, Bool, true, false, List, [], ◌∷◌,
}
use wing.Api.Types.{Raw}
use wing.Kubernetes.{Pod}
use wing.Utils.Status.{set_target_status}
use wing.Engine.Interfaces.{ScalerContext, ScalerState, load_settings}
use wing.PodResource.Scaler as Pods
use wing.PodResource.Scaler.{PodSource}
use wing.Prometheus.Query.{Server}
use wing.Prometheus.Scaler as Prometheus
use wing.Plugins.Rabbitmq.Settings.{Settings, validate}
use wing.Plugins.Rabbitmq.Scaler as Rabbitmq
use wing.Controller.Conditions.{Spares}

-- The conditions after a step are those before.
data Same {ℓ} {A : Type ℓ} (s : ScalerState) (x : A × ScalerState) : Type 0 where
  stay : x.1.status.conditions ≡ s.status.conditions → Same s x

Same-inversion {ℓ} :
    {A : Type ℓ} {s : ScalerState} {x : A × ScalerState}
    → Same s x
    → x.1.status.conditions ≡ s.status.conditions
Same-inversion (stay e) = e

-- A value, an error or a panic, and then a step.
bind_at-Same {ℓ κ} :
    {A : Type ℓ} {B : Type κ} (s : ScalerState) (r : Result A) (g : A → M ScalerState B)
    → ((a : A) → Same s (g a s))
    → Same s (bind_at (r, s) g)
bind_at-Same s (ok a) g k = k a
bind_at-Same s (err _) g k = stay refl
bind_at-Same s panic g k = stay refl

if-Same {ℓ} :
    {A : Type ℓ} (s : ScalerState) (b : Bool) (x y : A × ScalerState)
    → Same s x
    → Same s y
    → Same s (if b then x else y)
if-Same s true x y h k = h
if-Same s false x y h k = k

ticked-Same {ℓ} :
    {A : Type ℓ} (s : ScalerState) (x : A × ScalerState)
    → Same (record s { clock = tick s.clock }) x
    → Same s x
ticked-Same s x (stay e) = stay e

module _ (F : Type 0) ⦃f : Float64 F⦄ where
  report-Same :
      (plugin : String) (s : ScalerState) (x : Result (ℤ × ℤ × ℤ) × Clock)
      → Same s (Pods.report F plugin s x)
  unfolding Pods.report set_target_status
  report-Same plugin s (ok (desired, utilization, raw), k) = stay refl
  report-Same plugin s (err e, k) = stay refl
  report-Same plugin s (panic, k) = stay refl

  from_pods-Same :
      (source : PodSource) (plugin : String) (config : Pods.Config F) (resource : String)
      (settings : Pods.Settings) (c : ScalerContext) (pods : List Pod) (s : ScalerState)
      → Same s (Pods.from_pods F source plugin config resource settings c pods s)
  unfolding Pods.from_pods
  from_pods-Same source plugin config resource settings c [] s = stay refl
  from_pods-Same source plugin config resource settings c (p ∷ ps) s =
      bind_at-Same s (source.get_resource_metric resource c.namespace c.scaled_object_selector "") _
        (λ metrics. report-Same plugin s _)

  pub pods-Spares :
      (source : PodSource) (unmarshal : Raw → Result Pods.Settings) (plugin : String)
      (config : Pods.Config F) (resource : String)
      → Spares (Pods.get F source unmarshal plugin config resource)
  unfolding Pods.get
  pods-Spares source unmarshal plugin config resource c s = Same-inversion (
      bind_at-Same s (load_settings unmarshal c) _ (λ settings.
        bind_at-Same s
          (explain "failed to list pods: " (source.list_pods c.namespace c.scaled_object_selector))
          _ (λ pods. from_pods-Same source plugin config resource settings c pods s)))

  conclude-Same :
      (name plugin : String) (should_update : Bool) (out : ℤ × F) (s : ScalerState)
      → Same s (Prometheus.conclude F name plugin should_update out s)
  unfolding Prometheus.conclude set_target_status
  conclude-Same name plugin true out s = stay refl
  conclude-Same name plugin false out s = stay refl

  calculate_desired_replicas-Same :
      (query : Server → String → Time → Result F) (farm_hash : String → String) (plugin : String)
      (config : Prometheus.ScalerConfig F) (c : ScalerContext) (settings : Prometheus.Settings F)
      (s : ScalerState)
      → Same s (Prometheus.calculate_desired_replicas F query farm_hash plugin config c settings s)
  unfolding Prometheus.calculate_desired_replicas
  calculate_desired_replicas-Same query farm_hash plugin config c settings s =
      let name = Prometheus.make_target_status_name farm_hash plugin settings.query in
      let asked : ScalerState = record s { clock = tick s.clock } in
      let answer =
        query (Prometheus.provision_server settings.server config.default_server) settings.query
          (now s.clock) in
      if-Same s (eqb_ℤ c.current_replicas (pos 0)) _ _ (stay refl) (
        ticked-Same s _ (
          bind_at-Same asked (Prometheus.reading F settings.failure_mode s.status name answer) _
            (λ r. conclude-Same name plugin r.should_update _ asked)))

  pub prometheus-Spares :
      (query : Server → String → Time → Result F) (farm_hash : String → String)
      (unmarshal : Raw → Result (Prometheus.Settings F)) (plugin : String)
      (config : Prometheus.ScalerConfig F)
      → Spares (Prometheus.get F query farm_hash unmarshal plugin config)
  unfolding Prometheus.get
  prometheus-Spares query farm_hash unmarshal plugin config c s = Same-inversion (
      bind_at-Same s (load_settings unmarshal c) _ (λ settings.
        bind_at-Same s (Prometheus.validate F settings) _
          (λ _. calculate_desired_replicas-Same query farm_hash plugin config c settings s)))

  conclude_metric-Same :
      (config : Rabbitmq.ScalerConfig F) (c : ScalerContext) (settings : Settings F)
      (metric : Result F) (s : ScalerState)
      → Same s (Rabbitmq.conclude_metric F config c settings metric s)
  unfolding Rabbitmq.conclude_metric set_target_status
  conclude_metric-Same config c settings (ok metric) s = stay refl
  conclude_metric-Same config c settings (err e) s = stay refl
  conclude_metric-Same config c settings panic s = stay refl

  pub rabbitmq-Spares :
      (parse_scheme : String → Result String) (walk : List (String × Bool) → List (String × Bool))
      (request : Settings F → Duration → Result F) (unmarshal : Raw → Result (Settings F))
      (config : Rabbitmq.ScalerConfig F)
      → Spares (Rabbitmq.get F parse_scheme walk request unmarshal config)
  unfolding Rabbitmq.get
  rabbitmq-Spares parse_scheme walk request unmarshal config c s = Same-inversion (
      bind_at-Same s (load_settings unmarshal c) _ (λ loaded.
        bind_at-Same s (validate F parse_scheme walk loaded) _
          (λ settings. conclude_metric-Same config c settings _ s)))
