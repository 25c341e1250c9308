-- ===== src/PodResource/Pods.antt =====
-- utils/scalerprovider/podresource/utils.go: what each pod counts as, and what it requests.
pub mod Laws
use wing.Base.{
  if◌then◌else◌, ℤ, ◌+ℤ◌, pos, negsuc, add64, Dict, lookup, insert, delete, ◌<>◌, Result, and_then,
  message, ok, err, Time, Duration, before, after, Clock, now, tick, ℕ, ◌+◌, String, Bool, true,
  false, ◌&&◌, ◌||◌, Option, none, some, List, [], ◌∷◌, ◌==◌,
}
use wing.Kubernetes.{Pod, PodStatus, PodCondition, Container, pod_pending, pod_failed}
use wing.Metrics.{PodMetric, PodMetricsInfo}

abbrev pub resource_cpu : String
resource_cpu = "cpu"

abbrev pub resource_memory : String
resource_memory = "memory"

-- The index, which is -1 if there is no such condition, and the condition.
unfoldable pub condition_from : ℕ → List PodCondition → String → ℤ × Option PodCondition
condition_from i [] type = (negsuc 0, none)
condition_from i (c ∷ cs) type =
    if c.type == type then (pos i, some c) else condition_from (i + 1) cs type

unfoldable pub get_pod_condition_from_list : List PodCondition → String → ℤ × Option PodCondition
unfolding condition_from
get_pod_condition_from_list conditions type = condition_from 0 conditions type

unfoldable pub get_pod_condition : PodStatus → String → ℤ × Option PodCondition
unfolding get_pod_condition_from_list
get_pod_condition status type = get_pod_condition_from_list status.conditions type

-- A set of names, as a list in which each stands once.
unfoldable pub member : String → List String → Bool
member name [] = false
member name (n ∷ ns) = n == name || member name ns

unfoldable pub insert_name : String → List String → List String
unfolding member
insert_name name names = if member name names then names else name ∷ names

pub record Groups : Type 0 where
  pub ready_pod_count : ℕ
  pub unready_pods : List String
  pub missing_pods : List String
  pub ignored_pods : List String

abbrev pub no_groups : Groups
no_groups = record { ready_pod_count = 0; unready_pods = []; missing_pods = []; ignored_pods = [] }

-- What one round of the loop finds.
pub data PodClass : Type 0 where
  ready unready missing ignored : PodClass

-- A pod of which the ready condition and the start time are known.
unfoldable pub is_unready_at : PodMetric → PodCondition → Time → Duration → Duration → Time → Bool
unfolding ◌+ℤ◌
is_unready_at metric c start initialization delay at =
    if after (start +ℤ initialization) at
    then c.status == "False" || before metric.timestamp (c.last_transition_time +ℤ metric.window)
    else c.status == "False" && after (start +ℤ delay) c.last_transition_time

unfoldable pub cpu_class :
    PodMetric → Option PodCondition → Option Time → Duration → Duration → Clock → PodClass × Clock
unfolding is_unready_at
cpu_class metric none start initialization delay k = (unready, k)
cpu_class metric (some c) none initialization delay k = (unready, k)
cpu_class metric (some c) (some start) initialization delay k =
    (if is_unready_at metric c start initialization delay (now k) then unready else ready, tick k)

-- The rest of the round, after the tests on the pod's phase.
unfoldable pub metric_class :
    Pod → Option PodMetric → String → Duration → Duration → Clock → PodClass × Clock
unfolding cpu_class get_pod_condition
metric_class pod none resource initialization delay k = (missing, k)
metric_class pod (some metric) resource initialization delay k =
    if resource == resource_cpu
    then cpu_class metric (get_pod_condition pod.status "Ready").1 pod.status.start_time
        initialization delay k
    else (ready, k)

abbrev pub is_deleted : Option Time → Bool
is_deleted none = false
is_deleted (some _) = true

unfoldable pub classify :
    PodMetricsInfo → String → Duration → Duration → Pod → Clock → PodClass × Clock
unfolding metric_class lookup
classify metrics resource initialization delay pod k =
    if is_deleted pod.deletion_timestamp || pod.status.phase == pod_failed
    then (ignored, k)
    else if pod.status.phase == pod_pending
    then (unready, k)
    else metric_class pod (lookup pod.name metrics) resource initialization delay k

unfoldable pub put_pod : String → PodClass → Groups → Groups
unfolding insert_name
put_pod name ready g = record g { ready_pod_count = g.ready_pod_count + 1 }
put_pod name unready g = record g { unready_pods = insert_name name g.unready_pods }
put_pod name missing g = record g { missing_pods = insert_name name g.missing_pods }
put_pod name ignored g = record g { ignored_pods = insert_name name g.ignored_pods }

unfoldable pub group_from :
    PodMetricsInfo → String → Duration → Duration → List Pod → Groups → Clock → Groups × Clock
unfolding classify put_pod
group_from metrics resource initialization delay [] g k = (g, k)
group_from metrics resource initialization delay (p ∷ ps) g k =
    let (class, k') = classify metrics resource initialization delay p k in
    group_from metrics resource initialization delay ps (put_pod p.name class g) k'

unfoldable pub group_pods :
    List Pod → PodMetricsInfo → String → Duration → Duration → Clock → Groups × Clock
unfolding group_from
group_pods pods metrics resource initialization delay k =
    group_from metrics resource initialization delay pods no_groups k

unfoldable pub remove_metrics_for_pods : PodMetricsInfo → List String → PodMetricsInfo
unfolding delete
remove_metrics_for_pods metrics [] = metrics
remove_metrics_for_pods metrics (name ∷ names) = remove_metrics_for_pods (delete name metrics) names

unfoldable pub sum_requests : String → String → ℤ → List Container → Result ℤ
unfolding lookup add64
sum_requests container resource sum [] = ok sum
sum_requests container resource sum (c ∷ cs) =
    let wanted = container == "" || container == c.name in
    let request = lookup resource c.requests in
    let skipped = sum_requests container resource sum cs in
    let added = λ (r : ℤ). sum_requests container resource (add64 sum r) cs in
    if wanted
    then elim request [
      | some r ↦ added r
      | none ↦ err (message ("missing request for " <> resource))
    ]
    else skipped

unfoldable pub requests_from : String → String → Dict ℤ → List Pod → Result (Dict ℤ)
unfolding sum_requests insert
requests_from container resource requests [] = ok requests
requests_from container resource requests (p ∷ ps) =
    and_then (sum_requests container resource (pos 0) p.containers)
      λ sum. requests_from container resource (insert p.name sum requests) ps

unfoldable pub calculate_pod_requests : List Pod → String → String → Result (Dict ℤ)
unfolding requests_from
calculate_pod_requests pods container resource = requests_from container resource [] pods
