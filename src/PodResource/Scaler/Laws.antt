-- ===== src/PodResource/Scaler/Laws.antt =====
-- Laws of utils/scalerprovider/podresource/scaler.go.
use wing.Base.{
  ltb, eqb, Bool-cases, Option-cases, ℤ, ◌≤ℤ◌, pos, add64, length, Dict, lookup, insert, Result,
  and_then-eq-ok, and_then-ne-panic, ok, err, panic, second, seconds, Clock, Float64, ℕ, String,
  ◌≡◌, refl, subst, ◌≢◌, ◌⊎◌, inl, inr, true, false, not, ◌&&◌, List, [], ◌∷◌, arith,
}
use wing.Metrics.{PodMetricsInfo, get_resource_utilization_ratio}
use wing.Kubernetes.{Pod, Container}
use wing.Metrics.Laws.{get_resource_utilization_ratio-ne-panic}
use wing.PodResource.Pods.{
  Groups, group_pods, remove_metrics_for_pods, calculate_pod_requests, sum_requests, requests_from,
}
use wing.PodResource.Scaler.{
  one, is_tolerated, rebalanced_metrics, settle, decide, calculate,
  tidy_and_calculate_desired_replicas,
}

sum_requests-ne-panic :
    (container resource : String) (sum : ℤ) (cs : List Container)
    → sum_requests container resource sum cs ≢ panic
unfolding sum_requests
sum_requests-ne-panic container resource sum [] = λ e. cc
sum_requests-ne-panic container resource sum (c ∷ cs) =
    elim (Option-cases (lookup resource c.requests)) [
      | inl e ↦ rw e (ground (arith, sum_requests-ne-panic container resource sum cs))
      | inr (r, e) ↦ rw e (
          ground (
            arith,
            sum_requests-ne-panic container resource sum cs,
            sum_requests-ne-panic container resource (add64 sum r) cs,
          ))
    ]

requests_from-ne-panic :
    (container resource : String) (requests : Dict ℤ) (ps : List Pod)
    → requests_from container resource requests ps ≢ panic
unfolding requests_from
requests_from-ne-panic container resource requests [] = λ e. cc
requests_from-ne-panic container resource requests (p ∷ ps) =
    and_then-ne-panic (sum_requests container resource (pos 0) p.containers) _
      (sum_requests-ne-panic container resource (pos 0) p.containers)
      (λ sum. requests_from-ne-panic container resource (insert p.name sum requests) ps)

module _ (F : Type 0) ⦃f : Float64 F⦄ where
  open f use {lt}

  -- The ratio is a number: below one, above one, or near enough to it.
  abbrev pub IsNumber : F → F → Type 0
  IsNumber toleration ratio =
      (lt ratio (one F) ≡ true)
      ⊎ ((lt (one F) ratio ≡ true) ⊎ (is_tolerated F toleration ratio ≡ true))

  settle_direction :
      (toleration ratio new_ratio : F) (count : ℕ) (current : ℤ)
      → IsNumber toleration new_ratio
      → let r = settle F toleration ratio new_ratio count current in
        (lt ratio (one F) ≡ true → r ≤ℤ current) × (lt (one F) ratio ≡ true → current ≤ℤ r)
  unfolding settle
  settle_direction toleration ratio new_ratio count current number = ground arith

  -- The second calculation is made, because a pod misses its metrics, or because some pod is not
  -- ready and the ratio is above one.
  abbrev pub Rebalances : Groups → F → Type 0
  Rebalances g ratio =
      (ltb 0 (length g.unready_pods) && lt (one F) ratio ≡ true) ⊎ (length g.missing_pods ≢ 0)

  abbrev second_metrics : Groups → F → Dict ℤ → PodMetricsInfo → PodMetricsInfo
  second_metrics g ratio requests metrics =
      rebalanced_metrics F ratio (ltb 0 (length g.unready_pods) && lt (one F) ratio) g requests
        metrics

  skips_first :
      (g : Groups) (ratio : F)
      → Rebalances g ratio
      → not (ltb 0 (length g.unready_pods) && lt (one F) ratio) && eqb (length g.missing_pods) 0
        ≡ false
  skips_first g ratio (inl some_unready) = rw some_unready
  skips_first g ratio (inr some_missing) = ground arith

  -- Where the second calculation is made and gives a number, a first ratio below one never leads to
  -- more replicas than there are, and one above one never to less.
  pub decide_direction :
      (toleration : F) (g : Groups) (metrics : PodMetricsInfo) (requests : Dict ℤ)
      (target current : ℤ) (first : F × ℤ × ℤ) (r : ℤ × ℤ × ℤ)
      → Rebalances g first.0
      → ((second : F × ℤ × ℤ)
          → get_resource_utilization_ratio F
              (second_metrics g first.0 requests metrics)
              requests
              target
            ≡ ok second
          → IsNumber toleration second.0)
      → decide F toleration g metrics requests target current first ≡ ok r
      → (lt first.0 (one F) ≡ true → r.0 ≤ℤ current) × (lt (one F) first.0 ≡ true → current ≤ℤ r.0)
  unfolding decide
  decide_direction toleration g metrics requests target current (ratio, utilization, raw) r gaps
        number h =
      let metrics' = second_metrics g ratio requests metrics in
      let (second, again, settled) =
        and_then-eq-ok (get_resource_utilization_ratio F metrics' requests target)
          (λ second.
            ok (settle F toleration ratio second.0 (length metrics') current, utilization, raw))
          (rw (skips_first g ratio gaps) at h) in
      let same : settle F toleration ratio second.0 (length metrics') current ≡ r.0 =
        ground arith in
      subst
        (λ x. (lt ratio (one F) ≡ true → x ≤ℤ current) × (lt (one F) ratio ≡ true → current ≤ℤ x))
        same
        (settle_direction toleration ratio second.0 (length metrics') current (number second again))

  decide-ne-panic :
      (toleration : F) (g : Groups) (metrics : PodMetricsInfo) (requests : Dict ℤ)
      (target current : ℤ) (first : F × ℤ × ℤ)
      → decide F toleration g metrics requests target current first ≢ panic
  unfolding decide
  decide-ne-panic toleration g metrics requests target current (ratio, utilization, raw) =
      let metrics' = second_metrics g ratio requests metrics in
      ground (arith, get_resource_utilization_ratio-ne-panic F metrics' requests target)

  calculate-ne-panic :
      (toleration : F) (g : Groups) (metrics : PodMetricsInfo) (asked : Result (Dict ℤ))
      (target current : ℤ)
      → asked ≢ panic
      → calculate F toleration g metrics asked target current ≢ panic
  unfolding calculate
  calculate-ne-panic toleration g metrics (ok requests) target current h =
      elim (Bool-cases (eqb (length metrics) 0)) [
        | inl empty ↦ rw empty (λ e. cc)
        | inr some_left ↦ rw some_left (
            and_then-ne-panic (get_resource_utilization_ratio F metrics requests target) _
              (get_resource_utilization_ratio-ne-panic F metrics requests target)
              (decide-ne-panic toleration g metrics requests target current))
      ]
  calculate-ne-panic toleration g metrics (err e) target current h = λ q. cc
  calculate-ne-panic toleration g metrics panic target current h = absurd (h refl)

  -- Whatever pods, metrics and requests there are, the calculation does not panic.
  pub tidy_and_calculate_desired_replicas-ne-panic :
      (toleration : F) (metrics : PodMetricsInfo) (pods : List Pod) (resource container : String)
      (target current : ℤ) (k : Clock)
      → (tidy_and_calculate_desired_replicas F toleration metrics pods resource container target
          current k).0
        ≢ panic
  unfolding tidy_and_calculate_desired_replicas calculate_pod_requests
  tidy_and_calculate_desired_replicas-ne-panic toleration metrics pods resource container target
        current k =
      let g = (group_pods pods metrics resource (seconds (pos 10)) (seconds (pos 3)) k).0 in
      calculate-ne-panic toleration g
        (remove_metrics_for_pods (remove_metrics_for_pods metrics g.ignored_pods) g.unready_pods)
        (calculate_pod_requests pods container resource) target current
        (requests_from-ne-panic container resource [] pods)
