-- ===== src/Examples/Scaling.antt =====
-- Pods, metrics and queries.
use mathlib.Core.List.{Permᴰ}
use wing.Base.{
  ℤ, ◌+ℤ◌, ◌-ℤ◌, ◌*ℤ◌, quot, ◌≤ℤ◌, pos, wrap64, wrap32, add64, Dict, lookup, insert, Result,
  external, err, panic, Time, stopped, Exact, exact, String, ◌≡◌, refl, subst, ◌≢◌, inl, inr, true,
  none, some, List, [], ◌∷◌,
}
use wing.Api.Types.{TargetStatus, average_value_metric_type}
use wing.Kubernetes.{Pod}
use wing.Engine.Interfaces.{ScalerContext, ScalerState}
use wing.Metrics.{
  PodMetric, PodMetricsInfo, get_resource_utilization_ratio, totals, add_entry, add_request,
}
use wing.Metrics.Laws.{get_resource_utilization_ratio-perm}
use wing.PodResource.Pods.{Groups, group_pods}
use wing.PodResource.Pods.Laws.{grouped, HasUniqueNames, group_pods-partition}
use wing.PodResource.Scaler.{
  is_tolerated, rebalanced_metrics, fill_zero, settle, decide, tidy_and_calculate_desired_replicas,
}
use wing.PodResource.Scaler.Laws.{
  IsNumber, decide_direction, tidy_and_calculate_desired_replicas-ne-panic,
}
use wing.Prometheus.Query.{Server}
use wing.Prometheus.Scaler.{Settings, ScalerConfig, calculate_desired_replicas, fail_as_last_value}
use wing.Prometheus.Scaler.Laws.{failed_query_keeps_status}
use wing.Examples.Data.{no_status, pending_pod}

abbrev usage : ℤ → PodMetric
usage v = record { timestamp = pos 0; window = pos 0; value = v }

abbrev two_metrics : PodMetricsInfo
two_metrics = ("a", usage (pos 300)) ∷ ("b", usage (pos 100)) ∷ []

abbrev two_requests : Dict ℤ
two_requests = ("a", pos 200) ∷ ("b", pos 200) ∷ []

get_resource_utilization_ratio-perm_example :
    get_resource_utilization_ratio Exact ⦃f = exact⦄ two_metrics two_requests (pos 50)
    ≡ get_resource_utilization_ratio Exact ⦃f = exact⦄
        (("b", usage (pos 100)) ∷ ("a", usage (pos 300)) ∷ [])
        two_requests
        (pos 50)
get_resource_utilization_ratio-perm_example =
    get_resource_utilization_ratio-perm Exact ⦃f = exact⦄ two_metrics
      (("b", usage (pos 100)) ∷ ("a", usage (pos 300)) ∷ []) two_requests (pos 50)
      (Permᴰ.swap refl refl)

abbrev two_pods : List Pod
two_pods =
    pending_pod
    ∷ record pending_pod {
      name = "web-1";
      status = record pending_pod.status { phase = "Running" };
    }
    ∷ []

two_pods-HasUniqueNames : HasUniqueNames two_pods
two_pods-HasUniqueNames = (((λ e. cc), tt), (tt, tt))

group_pods-partition_example :
    grouped (group_pods two_pods two_metrics "cpu" (pos 10) (pos 3) (stopped (pos 50))).0 ≡ 2
group_pods-partition_example =
    group_pods-partition two_pods two_metrics "cpu" (pos 10) (pos 3) (stopped (pos 50))
      two_pods-HasUniqueNames

tidy_and_calculate_desired_replicas-ne-panic_example :
    (tidy_and_calculate_desired_replicas Exact ⦃f = exact⦄
      (pos 5, 100)
      two_metrics
      two_pods
      "cpu"
      ""
      (pos 50)
      (pos 2)
      (stopped (pos 50))).0
    ≢ panic
tidy_and_calculate_desired_replicas-ne-panic_example =
    tidy_and_calculate_desired_replicas-ne-panic Exact ⦃f = exact⦄ (pos 5, 100) two_metrics two_pods
      "cpu" "" (pos 50) (pos 2) (stopped (pos 50))

-- One pod misses its metrics, and the other uses twice what it should.
abbrev one_missing : Groups
one_missing = record {
  ready_pod_count = 1;
  unready_pods = [];
  missing_pods = "b" ∷ [];
  ignored_pods = [];
}

abbrev pressed : Exact × ℤ × ℤ
pressed = ((pos 200, 50), pos 200, pos 400)

abbrev pressed_metrics : PodMetricsInfo
pressed_metrics = ("a", usage (pos 400)) ∷ []

decide_direction_example :
    (exact.lt pressed.0 (pos 1, 1) ≡ true → pos 4 ≤ℤ pos 2)
    × (exact.lt (pos 1, 1) pressed.0 ≡ true → pos 2 ≤ℤ pos 4)
unfolding decide is_tolerated rebalanced_metrics settle get_resource_utilization_ratio fill_zero
    insert totals add_entry add_request lookup add64 wrap64 wrap32 quot ◌*ℤ◌ ◌+ℤ◌ ◌-ℤ◌ exact
decide_direction_example =
    decide_direction Exact ⦃f = exact⦄ (pos 5, 100) one_missing pressed_metrics two_requests
      (pos 50) (pos 2) pressed (pos 4, pos 200, pos 400) (inr (λ e. cc))
      (λ second e.
        let same : ((pos 100, 50), pos 100, pos 200) ≡ second = cc in
        subst (λ (x : Exact × ℤ × ℤ). IsNumber Exact ⦃f = exact⦄ (pos 5, 100) x.0) same
          (inr (inl refl)))
      refl

abbrev sleeping : Settings Exact
sleeping = record {
  server = record {
    server_address = none;
    insecure_ssl = none;
    bearer_token = none;
    username = none;
    password = none;
  };
  query = "up";
  threshold = (pos 10, 1);
  failure_mode = fail_as_last_value;
}

abbrev prometheus : ScalerConfig Exact
prometheus = record {
  toleration = (pos 5, 100);
  default_timeout = pos 0;
  default_server = sleeping.server;
}

abbrev three : ScalerContext
three = record {
  raw_settings = "";
  scale_target_ref = record { kind = ""; name = ""; api_version = "" };
  namespace = "default";
  scaled_object_selector = "";
  current_replicas = pos 3;
}

abbrev broken : Server → String → Time → Result Exact
broken server query at = err (external "unreachable")

abbrev at_start : ScalerState
at_start = record { status = no_status; clock = stopped (pos 50) }

failed_query_keeps_status_example :
    (calculate_desired_replicas Exact ⦃f = exact⦄ broken
      (λ text. text)
      "prometheus"
      prometheus
      three
      sleeping
      at_start).1.status
    ≡ no_status
failed_query_keeps_status_example =
    failed_query_keeps_status Exact ⦃f = exact⦄ broken (λ text. text) "prometheus" prometheus three
      sleeping at_start (external "unreachable") refl

abbrev kept_status : TargetStatus
kept_status = record {
  target = "prometheus/up";
  scaler = "prometheus";
  desired_replicas = pos 3;
  metric = record {
    type = average_value_metric_type;
    value = none;
    average_value = some (pos 20_000);
    average_utilization = none;
  };
}

abbrev after_success : ScalerState
after_success = record at_start { status = record no_status { targets = kept_status ∷ [] } }
