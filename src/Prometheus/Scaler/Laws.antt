-- ===== src/Prometheus/Scaler/Laws.antt =====
-- Laws of utils/scalerprovider/prometheus/scaler.go.
use wing.Base.{
  Bool-cases, Option-cases, ℤ, eqb_ℤ, eqb_ℤ_iff, pos, negsuc, Error, Result, bind_at,
  and_then-eq-ok, err-ne-ok, ok, err, panic, Time, now, tick, Float64, String, ◌≡◌, refl, ◌≢◌, inl,
  inr, false, some, [], ◌∷◌, arith,
}
use wing.Api.Types.{Quantity, TargetStatus, ReplicaAutoscalerStatus}
use wing.Utils.Status.{get_target_status}
use wing.Engine.Interfaces.{ScalerContext, ScalerState}
use wing.Prometheus.Query.{Server}
use wing.Prometheus.Scaler.{
  average_of, scale_by_average, fail_as_last_value, last_average, Reading, last_value, zero_value,
  Settings, ScalerConfig, calculate_desired_replicas, reading, conclude, provision_server,
  make_target_status_name,
}

module _ (F : Type 0) ⦃f : Float64 F⦄ where
  abbrev name_of : (String → String) → String → Settings F → String
  name_of farm_hash plugin settings = make_target_status_name farm_hash plugin settings.query

  -- What the switch on the failure mode leaves of a failed query asks for no update.
  last_value-no_update :
      (status : ReplicaAutoscalerStatus) (name : String) (e : Error) (r : Reading F)
      → last_value F status name e ≡ ok r
      → r.should_update ≡ false
  unfolding last_value
  last_value-no_update status name e r h = elim (Option-cases (get_target_status status name)) [
    | inl lost ↦ absurd (err-ne-ok (rw (lost, last_value) at h))
    | inr (t, found) ↦
        let (_, _, q) = and_then-eq-ok (last_average F t) _ (rw (found, last_value) at h) in
        ground arith
  ]

  reading-no_update :
      (mode : String) (status : ReplicaAutoscalerStatus) (name : String) (e : Error) (r : Reading F)
      → reading F mode status name (err e) ≡ ok r
      → r.should_update ≡ false
  unfolding reading
  reading-no_update mode status name e r h = ground (arith, last_value-no_update status name e r)

  conclude-no_update :
      (name plugin : String) (desired : Reading F → ℤ × F) (x : Result (Reading F))
      (s : ScalerState)
      → ((r : Reading F) → x ≡ ok r → r.should_update ≡ false)
      → (bind_at (x, s) (λ r. conclude F name plugin r.should_update (desired r))).1.status
        ≡ s.status
  unfolding conclude
  conclude-no_update name plugin desired (ok r) s h = rw (h r refl)
  conclude-no_update name plugin desired (err e) s h = refl
  conclude-no_update name plugin desired panic s h = refl

  -- A query that fails never changes the status, whatever the failure mode.
  pub failed_query_keeps_status :
      (query : Server → String → Time → Result F) (farm_hash : String → String) (plugin : String)
      (config : ScalerConfig F) (c : ScalerContext) (settings : Settings F) (s : ScalerState)
      (e : Error)
      → query (provision_server settings.server config.default_server) settings.query (now s.clock)
        ≡ err e
      → (calculate_desired_replicas F query farm_hash plugin config c settings s).1.status
        ≡ s.status
  unfolding calculate_desired_replicas
  failed_query_keeps_status query farm_hash plugin config c settings s e h =
      let name = name_of farm_hash plugin settings in
      elim (Bool-cases (eqb_ℤ c.current_replicas (pos 0))) [
        | inl idle ↦ rw idle
        | inr busy ↦
            rw (busy, h)
              (conclude-no_update name plugin _
                (reading F settings.failure_mode s.status name (err e))
                (record s { clock = tick s.clock })
                (reading-no_update settings.failure_mode s.status name e))
      ]

  -- In the mode `FailAsLastValue`, a scaler that runs replicas wants after a failed query the replicas
  -- for the average value that the status keeps of its target.
  pub failed_query_uses_last_average :
      (query : Server → String → Time → Result F) (farm_hash : String → String) (plugin : String)
      (config : ScalerConfig F) (c : ScalerContext) (settings : Settings F) (s : ScalerState)
      (e : Error) (t : TargetStatus) (q : Quantity)
      → query (provision_server settings.server config.default_server) settings.query (now s.clock)
        ≡ err e
      → c.current_replicas ≢ pos 0
      → settings.failure_mode ≡ fail_as_last_value
      → get_target_status s.status (make_target_status_name farm_hash plugin settings.query)
        ≡ some t
      → t.metric.average_value ≡ some q
      → f.eq (f.of_int (negsuc 0)) (zero_value F) ≡ false
      → f.eq (f.div (f.of_int q) (f.constant 1000 1)) f.max_float ≡ false
      → (calculate_desired_replicas F query farm_hash plugin config c settings s).0
        ≡ ok (record {
          desired_replicas =
              scale_by_average F config.toleration settings.threshold c.current_replicas
                (f.div (f.of_int q) (f.constant 1000 1));
          managed_target_status = make_target_status_name farm_hash plugin settings.query ∷ [];
        })
  unfolding calculate_desired_replicas
  failed_query_uses_last_average query farm_hash plugin config c settings s e t q h busy mode found
        kept minus finite =
      let running : eqb_ℤ c.current_replicas (pos 0) ≡ false =
        ground (arith, eqb_ℤ_iff c.current_replicas (pos 0)) in
      rw (running, h, mode, last_value, found, last_average, kept, minus, average_of, finite)
