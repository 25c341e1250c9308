-- ===== src/Api/Condition.antt =====
-- api/v1/condition.go: the list of conditions in a status. `metav1.Now` reads the clock, so a
-- function that may call it takes the clock and returns it.
pub mod Laws
pub mod Unique
use wing.Base.{
  String, List, [], ◌∷◌, ◌++◌, Bool, true, false, not, ◌||◌, if◌then◌else◌, ◌==◌, pos, ◌≡◌, refl,
  Clock, now, tick, stopped,
}
use wing.Api.Types.{Condition, Conditions}

abbrev pub condition_replica_patched : String
condition_replica_patched = "ReplicaPatched"

abbrev pub condition_scale_limited : String
condition_scale_limited = "ScaleLimited"

abbrev pub condition_ready : String
condition_ready = "Ready"

abbrev pub condition_panic_mode : String
condition_panic_mode = "PanicMode"

abbrev pub condition_exhausted : String
condition_exhausted = "Exhausted"

abbrev pub condition_true : String
condition_true = "True"

abbrev pub condition_false : String
condition_false = "False"

abbrev pub condition_unknown : String
condition_unknown = "Unknown"

-- A condition as a composite literal gives it, with the fields that it leaves out at their zero.
abbrev pub new_condition : String → String → String → String → Condition
new_condition type status reason message = record {
  type = type;
  status = status;
  reason = reason;
  message = message;
  last_transition_time = pos 0;
}

-- `Condition{}`.
abbrev pub empty_condition : Condition
empty_condition = new_condition "" "" "" ""

unfoldable pub initialize_conditions : Conditions → Conditions
initialize_conditions cs = cs ++ (new_condition condition_ready condition_unknown "" "" ∷ [])

-- The three functions initialise an empty list first.
abbrev pub initialized : Conditions → Conditions
unfolding initialize_conditions
initialized [] = initialize_conditions []
initialized (c ∷ cs) = c ∷ cs

-- The loop's body at an entry of the type that is set.
unfoldable pub overwrite : Condition → Condition → Clock → Condition × Clock
overwrite old new k =
    let moved = not (old.status == new.status) || not (old.reason == new.reason) in
    let old' = record old { status = new.status; reason = new.reason; message = new.message } in
    if moved then (record old' { last_transition_time = now k }, tick k) else (old', k)

unfoldable pub overwrite_all : Conditions → Condition → Clock → Conditions × Clock
unfolding overwrite
overwrite_all [] new k = ([], k)
overwrite_all (c ∷ cs) new k =
    let (c', k') = if c.type == new.type then overwrite c new k else (c, k) in
    let (cs', k'') = overwrite_all cs new k' in (c' ∷ cs', k'')

unfoldable pub found : Conditions → String → Bool
found [] type = false
found (c ∷ cs) type = c.type == type || found cs type

unfoldable pub set_condition : Conditions → Condition → Clock → Conditions × Clock
unfolding initialized overwrite_all found
set_condition conditions new k =
    let cs = initialized conditions in
    let (cs', k') = overwrite_all cs new k in
    if found cs new.type
    then (cs', k')
    else (cs' ++ (record new { last_transition_time = now k' } ∷ []), tick k')

unfoldable pub find_condition : Conditions → String → Condition
find_condition [] type = empty_condition
find_condition (c ∷ cs) type = if c.type == type then c else find_condition cs type

unfoldable pub get_condition : Conditions → String → Condition
unfolding initialized find_condition
get_condition conditions type = find_condition (initialized conditions) type

unfoldable pub delete_first : Conditions → String → Conditions
delete_first [] type = []
delete_first (c ∷ cs) type = if c.type == type then cs else c ∷ delete_first cs type

unfoldable pub delete_condition : Conditions → String → Conditions
unfolding initialized delete_first
delete_condition conditions type = delete_first (initialized conditions) type

set_then_get :
    (get_condition
      (set_condition [] (new_condition condition_panic_mode "True" "r" "m") (stopped (pos 7))).0
      condition_panic_mode).last_transition_time
    ≡ pos 7
unfolding set_condition get_condition
set_then_get = refl
