-- ===== src/Metrics/Client/Entries.antt =====
-- The map that the loops of utils/metrics/client.go fill: of which pods it has entries.
use wing.Base.{
  Bool-cases, some-injective, ℤ, Stands, lookup, lookup-insert, lookup-insert_self, String, ◌≡◌,
  refl, sym, subst, ◌≢◌, ◌⊎◌, inl, inr, Option, none, some, List, [], ◌∷◌, ◌==◌, eq_iff,
}
use wing.Metrics.{PodMetric, PodMetricsInfo}
use wing.Metrics.Client.{PodMetrics, pod_metric, put_usage}

lookup-nil : (name : String) (p : PodMetric) → lookup name [] ≢ some p
unfolding lookup
lookup-nil name p h = cc

put_usage-inversion :
    (m : PodMetrics) (u : Option ℤ) (res : PodMetricsInfo) (name : String) (p : PodMetric)
    → lookup name (put_usage m u res) ≡ some p
    → ((m.name ≡ name) × ((v : ℤ) × (u ≡ some v) × (p ≡ pod_metric m v)))
      ⊎ (lookup name res ≡ some p)
unfolding put_usage
put_usage-inversion m none res name p h = inr h
put_usage-inversion m (some v) res name p h = elim (Bool-cases (m.name == name)) [
  | inl same ↦ inl (
    (eq_iff m.name name).0 same,
    (
      v,
      refl,
      sym (some-injective (rw (lookup-insert m.name name (pod_metric m v) res, same) at h)),
    ),
  )
  | inr other ↦ inr (rw (lookup-insert m.name name (pod_metric m v) res, other) at h)
]

put_usage-keeps :
    (m : PodMetrics) (u : Option ℤ) (res : PodMetricsInfo) (name : String)
    → lookup name res ≢ none
    → lookup name (put_usage m u res) ≢ none
unfolding put_usage
put_usage-keeps m none res name h = h
put_usage-keeps m (some v) res name h = elim (Bool-cases (m.name == name)) [
  | inl same ↦ rw (lookup-insert m.name name (pod_metric m v) res, same) (λ e. cc)
  | inr other ↦ rw (lookup-insert m.name name (pod_metric m v) res, other) h
]

put_usage-adds :
    (m : PodMetrics) (u : Option ℤ) (v : ℤ) (res : PodMetricsInfo)
    → u ≡ some v
    → lookup m.name (put_usage m u res) ≢ none
unfolding put_usage
put_usage-adds m none v res e = cc
put_usage-adds m (some w) v res e = rw (lookup-insert_self m.name (pod_metric m w) res) (λ q. cc)

-- A loop over the pods that puts in what `value` gives for each.
module _ (value : PodMetrics → Option ℤ) where
  abbrev pub put_all : List PodMetrics → PodMetricsInfo → PodMetricsInfo
  put_all [] res = res
  put_all (m ∷ ms) res = put_all ms (put_usage m (value m) res)

  -- The entry of one of the pods.
  abbrev pub IsEntryOf : List PodMetrics → String → PodMetric → Type 0
  IsEntryOf ms name p =
      (m : PodMetrics) × Stands m ms
      × (m.name ≡ name)
      × ((v : ℤ) × (value m ≡ some v) × (p ≡ pod_metric m v))

  put_all-inversion :
      (ms : List PodMetrics) (res : PodMetricsInfo) (name : String) (p : PodMetric)
      → lookup name (put_all ms res) ≡ some p
      → IsEntryOf ms name p ⊎ (lookup name res ≡ some p)
  put_all-inversion [] res name p h = inr h
  put_all-inversion (m ∷ ms) res name p h =
      elim (put_all-inversion ms (put_usage m (value m) res) name p h) [
        | inl (n, stands, named, entry) ↦ inl (n, inr stands, named, entry)
        | inr h' ↦ elim (put_usage-inversion m (value m) res name p h') [
          | inl (named, entry) ↦ inl (m, inl refl, named, entry)
          | inr old ↦ inr old
        ]
      ]

  put_all-keeps :
      (ms : List PodMetrics) (res : PodMetricsInfo) (name : String)
      → lookup name res ≢ none
      → lookup name (put_all ms res) ≢ none
  put_all-keeps [] res name h = h
  put_all-keeps (m ∷ ms) res name h =
      put_all-keeps ms _ name (put_usage-keeps m (value m) res name h)

  put_all-adds :
      (ms : List PodMetrics) (res : PodMetricsInfo) (m : PodMetrics) (v : ℤ)
      → Stands m ms
      → value m ≡ some v
      → lookup m.name (put_all ms res) ≢ none
  put_all-adds [] res m v s e = elim s [ ]
  put_all-adds (n ∷ ms) res m v (inl same) e = put_all-keeps ms _ m.name (
      subst (λ (x : PodMetrics). lookup m.name (put_usage x (value x) res) ≢ none) (sym same)
        (put_usage-adds m (value m) v res e))
  put_all-adds (n ∷ ms) res m v (inr s) e = put_all-adds ms _ m v s e

  -- A map holds an entry for the name of each pod with a value, and only such entries.
  abbrev pub Holds : List PodMetrics → PodMetricsInfo → Type 0
  Holds ms info =
      ((name : String) (p : PodMetric) → lookup name info ≡ some p → IsEntryOf ms name p)
      × ((m : PodMetrics) (v : ℤ) → Stands m ms → value m ≡ some v → lookup m.name info ≢ none)

  pub put_all-Holds : (ms : List PodMetrics) → Holds ms (put_all ms [])
  put_all-Holds ms = (
    λ name p h. elim (put_all-inversion ms [] name p h) [
      | inl entry ↦ entry
      | inr nothing ↦ absurd (lookup-nil name p nothing)
    ],
    λ m v s e. put_all-adds ms [] m v s e,
  )
