-- ===== src/Metrics/Laws.antt =====
-- Laws of utils/metrics/utilization.go.
use mathlib.Core.List.{Permᴰ}
use mathlib.Core.Path.{ap₂}
use wing.Base.{
  Option-cases, ℤ, pos, add64_swap, Dict, lookup, panic, Float64, String, ◌≡◌, refl, ap, ◌∙◌, ◌≢◌,
  inl, inr, Option, none, some, [], ◌∷◌, arith,
}
use wing.Metrics.{
  add_request, PodMetric, PodMetricsInfo, Totals, add_entry, totals, no_totals, divide64,
  get_resource_utilization_ratio,
}

-- Requests can only add up to something if a metric was counted.
num_entries-pos :
    (requests : Dict ℤ) (ms : PodMetricsInfo) (t : Totals)
    → (t.num_entries ≡ 0 → t.requests_total ≡ pos 0)
    → (totals requests ms t).num_entries ≡ 0
    → (totals requests ms t).requests_total ≡ pos 0
unfolding totals
num_entries-pos requests [] t h e = h e
num_entries-pos requests (m ∷ ms) t h e =
    num_entries-pos requests ms (add_entry requests m t)
      (elim (Option-cases (lookup m.0 requests)) [
        | inl none_there ↦ rw (none_there, add_entry) h
        | inr (r, there) ↦ rw (there, add_entry) (λ z. absurd (omega arith))
      ])
      e

-- The two divisions of `GetResourceUtilizationRatio` never divide by zero: it never panics.
pub get_resource_utilization_ratio-ne-panic :
    (F : Type 0) ⦃f : Float64 F⦄ (metrics : PodMetricsInfo) (requests : Dict ℤ) (target : ℤ)
    → get_resource_utilization_ratio F metrics requests target ≢ panic
unfolding get_resource_utilization_ratio divide64
get_resource_utilization_ratio-ne-panic F metrics requests target =
    ground (arith, num_entries-pos requests metrics no_totals)

add_request_swap :
    (r q : Option ℤ) (a b : PodMetric) (t : Totals)
    → add_request q b (add_request r a t) ≡ add_request r a (add_request q b t)
unfolding add_request
add_request_swap none q a b t = refl
add_request_swap (some r) none a b t = refl
add_request_swap (some r) (some q) a b t =
    ground (arith, add64_swap t.metrics_total a.value b.value, add64_swap t.requests_total r q)

add_entry_swap :
    (requests : Dict ℤ) (a b : String × PodMetric) (t : Totals)
    → add_entry requests b (add_entry requests a t) ≡ add_entry requests a (add_entry requests b t)
add_entry_swap requests a b t =
    unfold add_entry in add_request_swap (lookup a.0 requests) (lookup b.0 requests) a.1 b.1 t

totals-perm :
    (requests : Dict ℤ) {ms ns : PodMetricsInfo} (t : Totals)
    → Permᴰ ms ns
    → totals requests ms t ≡ totals requests ns t
unfolding totals
totals-perm requests t Permᴰ.nil = refl
totals-perm requests t (Permᴰ.cons {a = a} {l₂ = l} e p) =
    totals-perm requests (add_entry requests a t) p
    ∙ ap (λ (x : String × PodMetric). totals requests l (add_entry requests x t)) e
totals-perm requests t (Permᴰ.swap {a = a} {b = b} {l = l} e d) =
    ap (totals requests l) (add_entry_swap requests a b t)
    ∙ ap₂
        (λ (x y : String × PodMetric).
          totals requests l (add_entry requests y (add_entry requests x t)))
        d e
totals-perm requests t (Permᴰ.trans p q) = totals-perm requests t p ∙ totals-perm requests t q

-- The map of metrics may be walked in any order: the result, with its sums that wrap, is the same.
pub get_resource_utilization_ratio-perm :
    (F : Type 0) ⦃f : Float64 F⦄ (metrics shuffled : PodMetricsInfo) (requests : Dict ℤ)
    (target : ℤ)
    → Permᴰ metrics shuffled
    → get_resource_utilization_ratio F metrics requests target
      ≡ get_resource_utilization_ratio F shuffled requests target
unfolding get_resource_utilization_ratio
get_resource_utilization_ratio-perm F metrics shuffled requests target p =
    rw (totals-perm requests no_totals p)
