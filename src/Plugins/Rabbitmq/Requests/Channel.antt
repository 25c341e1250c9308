-- ===== src/Plugins/Rabbitmq/Requests/Channel.antt =====
-- The requests of plugins/scaler_rabbitmq/settings.go over AMQP.
use wing.Base.{
  ℤ, pos, eq-false_of_ne, Result, bind_at, err-ne-ok, panic-ne-ok, ok, err, panic, Duration,
  Float64, ◌≡◌, refl, ap, ◌≢◌, true, false, arith, ◌==◌,
}
use wing.Engine.Interfaces.{ScalerContext, ScalerState, ScalerOutput}
use wing.HttpClient.Requester.{Network, Encoding}
use wing.Plugins.Rabbitmq.Settings.{Settings, mode_queue_length, protocol_http}
use wing.Plugins.Rabbitmq.Scaler.{ScalerConfig, desired_of, conclude_metric}
use wing.Plugins.Rabbitmq.Requests.{
  UrlLibrary, Received, Amqp, Connections, request_via_channel, open_connection, inspect,
  metric_by_mode, request_metric,
}

module _ (F : Type 0) ⦃f : Float64 F⦄ where
  via_channel_rate :
      (amqp : Amqp) (s : Settings F) (timeout : Duration) (k : Connections) (answer : ℤ × F)
      → (request_via_channel F amqp s timeout k).0 ≡ ok answer
      → answer.1 ≡ f.constant 0 1
  unfolding request_via_channel open_connection inspect
  via_channel_rate amqp s timeout k answer h = ground arith

  request_metric_rate :
      {S B : Type 0} (urls : UrlLibrary) (net : Network S) (encoding : Encoding B (Received F))
      (amqp : Amqp) (s : Settings F) (timeout : Duration) (k : Connections)
      → s.protocol == protocol_http ≡ false
      → s.mode == mode_queue_length ≡ false
      → (metric : F) → (request_metric F urls net encoding amqp s timeout k).0 ≡ ok metric
      → metric ≡ f.constant 0 1
  unfolding request_metric metric_by_mode
  request_metric_rate urls net encoding amqp s timeout k p m metric h =
      through (request_via_channel F amqp s timeout k) refl (rw (p, request_metric) at h)
    where
      through :
          (r : Result (ℤ × F) × Connections)
          → request_via_channel F amqp s timeout k ≡ r
          → (bind_at r λ answer k'. (ok (metric_by_mode F s.mode answer), k')).0 ≡ ok metric
          → metric ≡ f.constant 0 1
      through (ok (messages, rate), k') e q = ground (
        arith,
        via_channel_rate amqp s timeout k (messages, rate)
            (ap (λ (x : Result (ℤ × F) × Connections). x.0) e),
      )
      through (err x, k') e q = absurd (err-ne-ok q)
      through (panic, k') e q = absurd (panic-ne-ok q)

  wants_none_at_zero :
      (config : ScalerConfig F) (c : ScalerContext) (settings : Settings F) (metric : F)
      (s : ScalerState) (out : ScalerOutput)
      → f.eq (f.constant 0 1) (f.constant 0 1) ≡ true
      → metric ≡ f.constant 0 1
      → (conclude_metric F config c settings (ok metric) s).0 ≡ ok out
      → out.desired_replicas ≡ pos 0
  unfolding conclude_metric desired_of
  wants_none_at_zero config c settings metric s out same none' h = ground arith

  -- Over AMQP, a scaler by the rate of messages wants no replicas, whatever the queue holds.
  pub amqp_rate_wants_none :
      {S B : Type 0} (urls : UrlLibrary) (net : Network S) (encoding : Encoding B (Received F))
      (amqp : Amqp) (config : ScalerConfig F) (c : ScalerContext) (settings : Settings F)
      (timeout : Duration) (k : Connections) (s : ScalerState) (out : ScalerOutput)
      → f.eq (f.constant 0 1) (f.constant 0 1) ≡ true
      → settings.protocol ≢ protocol_http
      → settings.mode ≢ mode_queue_length
      → (conclude_metric F config c settings
          (request_metric F urls net encoding amqp settings timeout k).0
          s).0
        ≡ ok out
      → out.desired_replicas ≡ pos 0
  unfolding conclude_metric
  amqp_rate_wants_none urls net encoding amqp config c settings timeout k s out same p m h =
      through (request_metric F urls net encoding amqp settings timeout k).0 refl h
    where
      through :
          (r : Result F)
          → (request_metric F urls net encoding amqp settings timeout k).0 ≡ r
          → (conclude_metric F config c settings r s).0 ≡ ok out
          → out.desired_replicas ≡ pos 0
      through (ok metric) e q =
          wants_none_at_zero config c settings metric s out same
            (request_metric_rate urls net encoding amqp settings timeout k (eq-false_of_ne _ _ p)
              (eq-false_of_ne _ _ m) metric e)
            q
      through (err x) e q = absurd (err-ne-ok q)
      through panic e q = absurd (panic-ne-ok q)
