-- ===== src/PodResource/Pods/Laws.antt =====
-- Laws of utils/scalerprovider/podresource/utils.go.
use wing.Base.{
  length, All, Duration, Clock, ℕ, ◌+◌, String, ◌≡◌, refl, sym, ◌≢◌, false, List, [], ◌∷◌, arith,
  eq_iff,
}
use wing.PodResource.Pods.{
  ignored, missing, unready, ready, no_groups, classify, PodClass, PodMetricsInfo, group_from,
  put_pod, Pod, member, group_pods, Groups,
}

-- The pods that are counted as ready, and those in the three sets.
abbrev pub grouped : Groups → ℕ
grouped g =
    g.ready_pod_count + length g.unready_pods + length g.missing_pods + length g.ignored_pods

-- No pod of the list has the name.
abbrev pub Unused : String → List Pod → Type 0
Unused name [] = Unit
Unused name (p ∷ ps) = (p.name ≢ name) × Unused name ps

abbrev pub HasUniqueNames : List Pod → Type 0
HasUniqueNames [] = Unit
HasUniqueNames (p ∷ ps) = Unused p.name ps × HasUniqueNames ps

-- The name stands in none of the sets.
abbrev IsFree : String → Groups → Type 0
IsFree name g =
    (member name g.unready_pods ≡ false)
    × (member name g.missing_pods ≡ false)
    × (member name g.ignored_pods ≡ false)

abbrev AllFree : List Pod → Groups → Type 0
AllFree ps g = All (λ p. IsFree p.name g) ps

grouped-put_pod :
    (name : String) (c : PodClass) (g : Groups)
    → IsFree name g
    → grouped (put_pod name c g) ≡ grouped g + 1
unfolding put_pod
grouped-put_pod name ready g h = omega arith
grouped-put_pod name unready g (u, m, i) = rw u (omega arith)
grouped-put_pod name missing g (u, m, i) = rw m (omega arith)
grouped-put_pod name ignored g (u, m, i) = rw i (omega arith)

IsFree-put_pod :
    (name other : String) (c : PodClass) (g : Groups)
    → other ≢ name
    → IsFree name g
    → IsFree name (put_pod other c g)
unfolding put_pod member
IsFree-put_pod name other ready g ne h = h
IsFree-put_pod name other unready g ne h = ground (arith, eq_iff other name)
IsFree-put_pod name other missing g ne h = ground (arith, eq_iff other name)
IsFree-put_pod name other ignored g ne h = ground (arith, eq_iff other name)

AllFree-put_pod :
    (ps : List Pod) (name : String) (c : PodClass) (g : Groups)
    → Unused name ps
    → AllFree ps g
    → AllFree ps (put_pod name c g)
AllFree-put_pod [] name c g u h = tt
AllFree-put_pod (p ∷ ps) name c g (ne, u) (h, hs) =
    (IsFree-put_pod p.name name c g (λ e. ne (sym e)) h, AllFree-put_pod ps name c g u hs)

grouped-group_from :
    (metrics : PodMetricsInfo) (resource : String) (initialization delay : Duration) (ps : List Pod)
    (g : Groups) (k : Clock)
    → HasUniqueNames ps
    → AllFree ps g
    → grouped (group_from metrics resource initialization delay ps g k).0 ≡ grouped g + length ps
unfolding group_from
grouped-group_from metrics resource initialization delay [] g k u h = omega arith
grouped-group_from metrics resource initialization delay (p ∷ ps) g k (new, u) (h, hs) =
    let (c, k') = classify metrics resource initialization delay p k in
    omega (
      arith,
      grouped-put_pod p.name c g h,
      grouped-group_from metrics resource initialization delay ps (put_pod p.name c g) k' u
          (AllFree-put_pod ps p.name c g new hs),
    )

All-true : {A : Type 0} (P : A → Type 0) → ((a : A) → P a) → (xs : List A) → All P xs
All-true P h [] = tt
All-true P h (x ∷ xs) = (h x, All-true P h xs)

-- `groupPods` counts every pod once: as ready, or in one of the three sets, if the pods' names differ.
pub group_pods-partition :
    (pods : List Pod) (metrics : PodMetricsInfo) (resource : String)
    (initialization delay : Duration) (k : Clock)
    → HasUniqueNames pods
    → grouped (group_pods pods metrics resource initialization delay k).0 ≡ length pods
unfolding group_pods member
group_pods-partition pods metrics resource initialization delay k u = omega (
  arith,
  grouped-group_from metrics resource initialization delay pods no_groups k u
      (All-true _ (λ p. (refl, refl, refl)) pods),
)
