-- ===== src/Plugins/Rabbitmq/Scaler/Statuses.antt =====
-- What the scaler of plugins/scaler_rabbitmq/setup.go answers, and what it keeps in the status.
use wing.Base.{
  eq-false_of_ne, Result, bind_at, err-ne-ok, panic-ne-ok, ok, err, panic, Duration, Float64,
  String, ◌≡◌, refl, sym, ◌∙◌, ◌≢◌, ◌⊎◌, inl, inr, Bool, some, List, [], ◌∷◌, eq_iff,
}
use wing.Api.Types.{Raw, TargetStatus}
use wing.Utils.Status.{get_target_status}
use wing.Utils.Status.Laws.{get-set_target_status}
use wing.Engine.Interfaces.{ScalerOutput, ScalerContext, ScalerState, load_settings}
use wing.Plugins.Rabbitmq.Settings.{Settings, get_status_metric_name, validate}
use wing.Plugins.Rabbitmq.Scaler.{
  ScalerConfig, plugin_name, rabbitmq_status, desired_of, conclude_metric, get,
}

-- The answer names one target. Its status is by this scaler and has the replicas of the answer, every
-- other target has the status that it had, and the clock is not read.
pub record Tells (s : ScalerState) (out : ScalerOutput) (s' : ScalerState) : Type 0 where
  pub name : String
  pub kept : TargetStatus
  pub names_one : out.managed_target_status ≡ name ∷ []
  pub finds : get_target_status s'.status name ≡ some kept
  pub same_replicas : kept.desired_replicas ≡ out.desired_replicas
  pub own : kept.scaler ≡ plugin_name
  pub others :
      (target : String)
      → target ≢ name
      → get_target_status s'.status target ≡ get_target_status s.status target
  pub same_clock : s'.clock ≡ s.clock

-- An answer that is told, or no answer and the state as it was.
abbrev pub Agrees : ScalerState → Result ScalerOutput × ScalerState → Type 0
Agrees s (r, s') =
    ((out : ScalerOutput) × (r ≡ ok out) × Tells s out s')
    ⊎ (((out : ScalerOutput) → r ≢ ok out) × (s' ≡ s))

bind_at-Agrees :
    {A : Type 0} (s : ScalerState) (x : Result A)
    (k : A → ScalerState → Result ScalerOutput × ScalerState)
    → ((a : A) → Agrees s (k a s))
    → Agrees s (bind_at (x, s) k)
bind_at-Agrees s (ok a) k h = h a
bind_at-Agrees s (err e) k h = inr ((λ out q. err-ne-ok q), refl)
bind_at-Agrees s panic k h = inr ((λ out q. panic-ne-ok q), refl)

module _ (F : Type 0) ⦃f : Float64 F⦄ where
  conclude_metric-Agrees :
      (config : ScalerConfig F) (c : ScalerContext) (settings : Settings F) (metric : Result F)
      (s : ScalerState)
      → Agrees s (conclude_metric F config c settings metric s)
  unfolding conclude_metric rabbitmq_status
  conclude_metric-Agrees config c settings (ok metric) s =
      let (desired, average) =
        desired_of F config.toleration settings.value c.current_replicas metric in
      let name = get_status_metric_name F settings in
      let kept = rabbitmq_status F name desired average in
      inl (
        _,
        refl,
        record {
          name = name;
          kept = kept;
          names_one = refl;
          finds = get-set_target_status s.status kept name ∙ rw ((eq_iff name name).1 refl) refl;
          same_replicas = refl;
          own = refl;
          others = λ target other.
              get-set_target_status s.status kept target
              ∙ rw (eq-false_of_ne name target (λ e. other (sym e))) refl;
          same_clock = refl;
        },
      )
  conclude_metric-Agrees config c settings (err e) s = inr ((λ out q. err-ne-ok q), refl)
  conclude_metric-Agrees config c settings panic s = inr ((λ out q. panic-ne-ok q), refl)

  -- The scaler answers and its status agrees, or it gives no answer and leaves the state as it was.
  -- Whatever the settings, RabbitMQ and the calculation are, an answer names one target, the status of
  -- that target is then by this scaler and has the replicas of the answer, no other target's status
  -- has changed, and the clock was not read.
  pub get-Agrees :
      (parse_scheme : String → Result String) (walk : List (String × Bool) → List (String × Bool))
      (request : Settings F → Duration → Result F) (unmarshal : Raw → Result (Settings F))
      (config : ScalerConfig F) (c : ScalerContext) (s : ScalerState)
      → Agrees s (get F parse_scheme walk request unmarshal config c s)
  unfolding get
  get-Agrees parse_scheme walk request unmarshal config c s =
      bind_at-Agrees s (load_settings unmarshal c) _ λ loaded.
        bind_at-Agrees s (validate F parse_scheme walk loaded) _
          λ settings. conclude_metric-Agrees config c settings _ s
