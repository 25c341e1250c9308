-- ===== src/Utils/Status/Laws.antt =====
-- Laws of utils/status.go.
use wing.Base.{
  if◌then◌else◌, ℕ, zero, suc, ◌+◌, ◌*◌, String, ◌≡◌, refl, ap, Bool, true, false, some, List, [],
  ◌∷◌, ◌++◌, arith, ◌==◌, eq_iff,
}
use wing.Api.Types.{ReplicaAutoscalerStatus, TargetStatus}
use wing.Utils.Status.{
  replace_first, set_target_status, find_target, get_target_status, copies, purge,
  purge_target_status,
}

find-replace_first :
    (ts : List TargetStatus) (new : TargetStatus) (target : String)
    → find_target (replace_first ts new) target
      ≡ (if new.target == target then some new else find_target ts target)
unfolding find_target replace_first
find-replace_first [] new target = refl
find-replace_first (t ∷ ts) new target = ground (
  arith,
  eq_iff t.target target,
  eq_iff t.target new.target,
  eq_iff new.target target,
  find-replace_first ts new target,
)

-- After `SetTargetStatus` a lookup of its target finds the new status, and a lookup of any other
-- target finds what it found before.
pub get-set_target_status :
    (s : ReplicaAutoscalerStatus) (new : TargetStatus) (target : String)
    → get_target_status (set_target_status s new) target
      ≡ (if new.target == target then some new else get_target_status s target)
unfolding get_target_status set_target_status
get-set_target_status s new target = find-replace_first s.targets new target

-- How often a target stands among the statuses, and a name among the managed names.
abbrev pub occurrences : String → List TargetStatus → ℕ
occurrences name [] = 0
occurrences name (t ∷ ts) = (if t.target == name then 1 else 0) + occurrences name ts

abbrev pub multiplicity : String → List String → ℕ
multiplicity name [] = 0
multiplicity name (m ∷ ms) = (if m == name then 1 else 0) + multiplicity name ms

occurrences-append :
    (name : String) (xs ys : List TargetStatus)
    → occurrences name (xs ++ ys) ≡ occurrences name xs + occurrences name ys
occurrences-append name [] ys = omega arith
occurrences-append name (x ∷ xs) ys = omega (arith, occurrences-append name xs ys)

occurrences-copies :
    (name : String) (t : TargetStatus) (managed : List String)
    → occurrences name (copies t managed)
      ≡ (if t.target == name then multiplicity name managed else 0)
unfolding copies
occurrences-copies name t [] = ground arith
occurrences-copies name t (m ∷ ms) =
    ground
      (arith, eq_iff t.target name, eq_iff t.target m, eq_iff m name, occurrences-copies name t ms)

occurrences-purge_list :
    (name : String) (managed : List String) (ts : List TargetStatus)
    → occurrences name (purge ts managed) ≡ occurrences name ts * multiplicity name managed
unfolding purge
occurrences-purge_list name managed [] = omega arith
occurrences-purge_list name managed (t ∷ ts) = ground (
  arith,
  occurrences-append name (copies t managed) (purge ts managed),
  occurrences-copies name t managed,
  occurrences-purge_list name managed ts,
)

-- A status so many times.
abbrev pub repeat : ℕ → TargetStatus → List TargetStatus
repeat zero t = []
repeat (suc n) t = t ∷ repeat n t

-- Every status, in its order, as many times as its target is managed.
abbrev pub repeated : List String → List TargetStatus → List TargetStatus
repeated managed [] = []
repeated managed (t ∷ ts) = repeat (multiplicity t.target managed) t ++ repeated managed ts

repeat_step :
    (b : Bool) (n : ℕ) (t : TargetStatus)
    → (if b then t ∷ repeat n t else repeat n t) ≡ repeat ((if b then 1 else 0) + n) t
repeat_step true n t = let next : suc n ≡ 1 + n = omega arith in ap (λ (k : ℕ). repeat k t) next
repeat_step false n t = ap (λ (k : ℕ). repeat k t) (omega arith)

copies-repeat :
    (t : TargetStatus) (managed : List String)
    → copies t managed ≡ repeat (multiplicity t.target managed) t
unfolding copies
copies-repeat t [] = refl
copies-repeat t (m ∷ ms) =
    let same : (m == t.target) ≡ (t.target == m) =
      ground (arith, eq_iff t.target m, eq_iff m t.target) in
    rw (same, copies-repeat t ms) (repeat_step (t.target == m) (multiplicity t.target ms) t)

purge-repeated :
    (managed : List String) (ts : List TargetStatus) → purge ts managed ≡ repeated managed ts
unfolding purge
purge-repeated managed [] = refl
purge-repeated managed (t ∷ ts) = rw (copies-repeat t managed, purge-repeated managed ts) refl

-- `PurgeTargetStatus` changes the list of target statuses alone. Every status stands there, whole and
-- in its order, as many times as its target is among the managed names: one that is not managed is
-- gone, and one that two targets of a spec manage is doubled. So a target stands there as often as it
-- stood before times as often as its name is managed.
pub purge_target_status_lem :
    (managed : List String) (s : ReplicaAutoscalerStatus)
    → (purge_target_status managed s ≡ record s { targets = repeated managed s.targets })
      × ((name : String)
          → occurrences name (purge_target_status managed s).targets
            ≡ occurrences name s.targets * multiplicity name managed)
unfolding purge_target_status
purge_target_status_lem managed s = (
  rw (purge-repeated managed s.targets) refl,
  λ name. occurrences-purge_list name managed s.targets,
)
