-- ===== src/Utils/Status.antt =====
-- utils/status.go: the list of target statuses in a status.
pub mod Laws
use wing.Api.Types.{ReplicaAutoscalerStatus, TargetStatus}
use wing.Base.{if◌then◌else◌, String, Option, none, some, List, [], ◌∷◌, ◌++◌, ◌==◌}

unfoldable pub replace_first : List TargetStatus → TargetStatus → List TargetStatus
replace_first [] new = new ∷ []
replace_first (t ∷ ts) new = if t.target == new.target then new ∷ ts else t ∷ replace_first ts new

unfoldable pub set_target_status : ReplicaAutoscalerStatus → TargetStatus → ReplicaAutoscalerStatus
unfolding replace_first
set_target_status status new = record status { targets = replace_first status.targets new }

unfoldable pub find_target : List TargetStatus → String → Option TargetStatus
find_target [] target = none
find_target (t ∷ ts) target = if t.target == target then some t else find_target ts target

unfoldable pub get_target_status : ReplicaAutoscalerStatus → String → Option TargetStatus
unfolding find_target
get_target_status status target = find_target status.targets target

-- The inner loop: a copy of the status for every managed name that is its target.
unfoldable pub copies : TargetStatus → List String → List TargetStatus
copies t [] = []
copies t (name ∷ names) = if t.target == name then t ∷ copies t names else copies t names

unfoldable pub purge : List TargetStatus → List String → List TargetStatus
unfolding copies
purge [] managed = []
purge (t ∷ ts) managed = copies t managed ++ purge ts managed

unfoldable pub purge_target_status : List String → ReplicaAutoscalerStatus → ReplicaAutoscalerStatus
unfolding purge
purge_target_status managed status = record status { targets = purge status.targets managed }
