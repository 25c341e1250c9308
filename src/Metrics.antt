-- ===== src/Metrics.antt =====
-- utils/metrics/utilization.go: usage against requests.
pub mod Laws
pub mod Client
use wing.Base.{
  if◌then◌else◌, ℤ, ◌*ℤ◌, quot, eqb_ℤ, pos, wrap64, wrap32, add64, length, Dict, lookup, Result,
  and_then, message, ok, err, panic, Time, Duration, Float64, ℕ, ◌+◌, String, Option, none, some,
  [], ◌∷◌,
}

pub record PodMetric : Type 0 where
  pub timestamp : Time
  pub window : Duration
  pub value : ℤ

abbrev pub PodMetricsInfo : Type 0
PodMetricsInfo = Dict PodMetric

-- The sums of the loop, which is over the metrics in the order in which the map is walked.
pub record Totals : Type 0 where
  pub metrics_total : ℤ
  pub requests_total : ℤ
  pub num_entries : ℕ

-- A metric without a request is passed over.
unfoldable pub add_request : Option ℤ → PodMetric → Totals → Totals
unfolding add64
add_request none metric t = t
add_request (some request) metric t = record {
  metrics_total = add64 t.metrics_total metric.value;
  requests_total = add64 t.requests_total request;
  num_entries = t.num_entries + 1;
}

unfoldable pub add_entry : Dict ℤ → String × PodMetric → Totals → Totals
unfolding lookup add_request
add_entry requests (pod, metric) t = add_request (lookup pod requests) metric t

unfoldable pub totals : Dict ℤ → PodMetricsInfo → Totals → Totals
unfolding add_entry
totals requests [] t = t
totals requests (m ∷ ms) t = totals requests ms (add_entry requests m t)

abbrev pub no_totals : Totals
no_totals = record { metrics_total = pos 0; requests_total = pos 0; num_entries = 0 }

-- Go panics where it divides an integer by zero.
unfoldable pub divide64 : ℤ → ℤ → Result ℤ
unfolding quot wrap64
divide64 a b = if eqb_ℤ b (pos 0) then panic else ok (wrap64 (quot a b))

abbrev pub values_total : PodMetricsInfo → ℤ → ℤ
unfolding add64
values_total [] t = t
values_total ((pod, m) ∷ ms) t = values_total ms (add64 t m.value)

module _ (F : Type 0) ⦃f : Float64 F⦄ where
  open f use {of_int, div}

  unfoldable pub get_resource_utilization_ratio : PodMetricsInfo → Dict ℤ → ℤ → Result (F × ℤ × ℤ)
  unfolding totals wrap64 wrap32 ◌*ℤ◌ divide64
  get_resource_utilization_ratio metrics requests target =
      let t = totals requests metrics no_totals in
      if eqb_ℤ t.requests_total (pos 0)
      then err (message "no metrics returned matched known pods")
      else and_then (divide64 (wrap64 (t.metrics_total *ℤ pos 100)) t.requests_total) λ percent.
        and_then (divide64 t.metrics_total (pos t.num_entries)) λ average.
          let current = wrap32 percent in
          ok (div (of_int current) (of_int target), current, average)

  unfoldable pub get_metric_utilization_ratio : PodMetricsInfo → ℤ → Result (F × ℤ)
  unfolding divide64 add64
  get_metric_utilization_ratio metrics target =
      and_then (divide64 (values_total metrics (pos 0)) (pos (length metrics)))
        λ current. ok (div (of_int current) (of_int target), current)
