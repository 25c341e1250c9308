-- ===== src/Metrics/Client/Laws.antt =====
-- Laws of utils/metrics/client.go.
use wing.Base.{
  Option-cases, some-injective, none-ne-some, ℤ, pos, add64, All, Stands, lookup, ◌<>◌, Error,
  Result, message, ok, err, String, ◌≡◌, refl, sym, ◌∙◌, ◌≢◌, ◌⊎◌, inl, inr, Option, none, some,
  List, [], ◌∷◌, arith,
}
use wing.Metrics.{PodMetric, PodMetricsInfo}
use wing.Metrics.Client.{
  ContainerMetrics, PodMetrics, pod_metric, find_container, put_usage, put_container,
  container_metrics_from, get_container_metrics, sum_usage, pod_usage, pod_metrics_from,
  get_pod_metrics,
}
use wing.Metrics.Client.Entries.{put_all, Holds, put_all-Holds}

-- The usages that the containers report, all of them.
abbrev pub Usages : String → List ContainerMetrics → List ℤ → Type 0
Usages resource [] [] = Unit {0}
Usages resource [] (v ∷ vs) = ⊥
Usages resource (c ∷ cs) [] = ⊥
Usages resource (c ∷ cs) (v ∷ vs) = (lookup resource c.usage ≡ some v) × Usages resource cs vs

-- Their sum, as an int64.
abbrev pub sum64 : ℤ → List ℤ → ℤ
sum64 t [] = t
sum64 t (v ∷ vs) = sum64 (add64 t v) vs

sum_usage-Usages :
    (resource : String) (t : ℤ) (cs : List ContainerMetrics) (v : ℤ)
    → sum_usage resource t cs ≡ some v
    → (vs : List ℤ) × Usages resource cs vs × (v ≡ sum64 t vs)
unfolding sum_usage
sum_usage-Usages resource t [] v h = ([], tt, sym (some-injective h))
sum_usage-Usages resource t (c ∷ cs) v h = elim (Option-cases (lookup resource c.usage)) [
  | inl e ↦ absurd (none-ne-some (rw (e, sum_usage) at h))
  | inr (w, e) ↦
      let (vs, us, same) = sum_usage-Usages resource (add64 t w) cs v (rw (e, sum_usage) at h) in
      (w ∷ vs, (e, us), same)
]

Usages-sum_usage :
    (resource : String) (t : ℤ) (cs : List ContainerMetrics) (vs : List ℤ)
    → Usages resource cs vs
    → sum_usage resource t cs ≡ some (sum64 t vs)
unfolding sum_usage
Usages-sum_usage resource t [] [] us = refl
Usages-sum_usage resource t [] (v ∷ vs) us = elim us [ ]
Usages-sum_usage resource t (c ∷ cs) [] us = elim us [ ]
Usages-sum_usage resource t (c ∷ cs) (v ∷ vs) (e, us) =
    rw (e, sum_usage) (Usages-sum_usage resource (add64 t v) cs vs us)

-- There is a container, each reports the resource, and the value is the sum.
abbrev pub IsUsageOf : String → List ContainerMetrics → ℤ → Type 0
IsUsageOf resource cs v =
    (cs ≢ []) × ((vs : List ℤ) × Usages resource cs vs × (v ≡ sum64 (pos 0) vs))

pod_usage-IsUsageOf :
    (resource : String) (cs : List ContainerMetrics) (v : ℤ)
    → pod_usage resource cs ≡ some v
    → IsUsageOf resource cs v
unfolding pod_usage
pod_usage-IsUsageOf resource [] v h = absurd (none-ne-some h)
pod_usage-IsUsageOf resource (c ∷ cs) v h =
    ((λ e. cc), sum_usage-Usages resource (pos 0) (c ∷ cs) v h)

IsUsageOf-pod_usage :
    (resource : String) (cs : List ContainerMetrics) (v : ℤ)
    → IsUsageOf resource cs v
    → pod_usage resource cs ≡ some v
unfolding pod_usage
IsUsageOf-pod_usage resource [] v (some', us) = absurd (some' refl)
IsUsageOf-pod_usage resource (c ∷ cs) v (some', (vs, us, same)) =
    rw same (Usages-sum_usage resource (pos 0) (c ∷ cs) vs us)

pod_metrics_from-eq-put_all :
    (resource : String) (ms : List PodMetrics) (res : PodMetricsInfo)
    → pod_metrics_from resource ms res ≡ put_all (λ m. pod_usage resource m.containers) ms res
unfolding pod_metrics_from
pod_metrics_from-eq-put_all resource [] res = refl
pod_metrics_from-eq-put_all resource (m ∷ ms) res =
    pod_metrics_from-eq-put_all resource ms (put_usage m (pod_usage resource m.containers) res)

-- Each entry of the map is that of a pod of the list, and its value is the sum over the pod's
-- containers, of which there is one and each reports the resource. Each such pod's name has an
-- entry.
pub get_pod_metrics_lem :
    (ms : List PodMetrics) (resource : String)
    → ((name : String) (p : PodMetric)
        → lookup name (get_pod_metrics ms resource) ≡ some p
        → (m : PodMetrics) × Stands m ms
          × (m.name ≡ name)
          × ((v : ℤ) × IsUsageOf resource m.containers v × (p ≡ pod_metric m v)))
      × ((m : PodMetrics) (v : ℤ)
          → Stands m ms
          → IsUsageOf resource m.containers v
          → lookup m.name (get_pod_metrics ms resource) ≢ none)
unfolding get_pod_metrics
get_pod_metrics_lem ms resource =
    let same = pod_metrics_from-eq-put_all resource ms [] in
    let (sound, complete) = put_all-Holds (λ m. pod_usage resource m.containers) ms in
    (
      λ name p h.
          let (m, stands, named, (v, e, q)) = sound name p (rw same at h) in
          (m, stands, named, (v, pod_usage-IsUsageOf resource m.containers v e, q)),
      λ m v stands u. rw same (complete m v stands (IsUsageOf-pod_usage resource m.containers v u)),
    )

-- What the container of a pod uses, if the pod has it and it reports the resource.
abbrev pub container_usage : String → String → PodMetrics → Option ℤ
container_usage resource container m = elim (find_container container m.containers) [
  | none ↦ none
  | some c ↦ lookup resource c.usage
]

-- The error of a pod without the container.
abbrev pub missing_container : String → PodMetrics → Error
missing_container container m = message (
    "container " <> container <> " not present in metrics for pod " <> m.namespace <> "/" <> m.name)

abbrev pub Lacks : String → PodMetrics → Type 0
Lacks container m = find_container container m.containers ≡ none

put_container-found :
    (resource container : String) (m : PodMetrics) (c : ContainerMetrics) (res : PodMetricsInfo)
    → find_container container m.containers ≡ some c
    → put_container resource container m res
      ≡ ok (put_usage m (container_usage resource container m) res)
unfolding put_container
put_container-found resource container m c res e = ground arith

ContainersOutcome :
    String → String → List PodMetrics → PodMetricsInfo → Result PodMetricsInfo → Type 0
ContainersOutcome resource container ms res r =
    ((r ≡ ok (put_all (container_usage resource container) ms res))
      × All (λ m. ¬ Lacks container m) ms)
    ⊎ ((m : PodMetrics) × Stands m ms
        × Lacks container m
        × (r ≡ err (missing_container container m)))

container_metrics_from-Outcome :
    (resource container : String) (ms : List PodMetrics) (res : PodMetricsInfo)
    → ContainersOutcome resource container ms res (container_metrics_from resource container ms res)
unfolding ContainersOutcome container_metrics_from put_container
container_metrics_from-Outcome resource container [] res = inl (refl, tt)
container_metrics_from-Outcome resource container (m ∷ ms) res =
    elim (Option-cases (find_container container m.containers)) [
      | inl e ↦ inr (m, inl refl, e, rw (e, put_container) refl)
      | inr (c, e) ↦
          elim (container_metrics_from-Outcome resource container ms
            (put_usage m (container_usage resource container m) res)) [
              | inl (same, all) ↦ inl (
                rw (put_container-found resource container m c res e) same,
                ((λ q. none-ne-some (sym q ∙ e)), all),
              )
              | inr (n, stands, lacks, failed) ↦ inr (
                n,
                inr stands,
                lacks,
                rw (put_container-found resource container m c res e) failed,
              )
            ]
    ]

-- `getContainerMetrics` fails at a pod without the container. If every pod has it, each entry of
-- the map is the usage of the first such container of a pod, and each such pod's name whose
-- container reports the resource has an entry.
pub get_container_metrics_outcome :
    (ms : List PodMetrics) (resource container : String)
    → ((info : PodMetricsInfo) × (get_container_metrics ms resource container ≡ ok info)
        × All (λ m. ¬ Lacks container m) ms
        × Holds (container_usage resource container) ms info)
      ⊎ ((m : PodMetrics) × Stands m ms
          × Lacks container m
          × (get_container_metrics ms resource container ≡ err (missing_container container m)))
unfolding get_container_metrics ContainersOutcome
get_container_metrics_outcome ms resource container =
    elim (container_metrics_from-Outcome resource container ms []) [
      | inl (same, all) ↦ inl (_, same, all, put_all-Holds (container_usage resource container) ms)
      | inr failed ↦ inr failed
    ]
