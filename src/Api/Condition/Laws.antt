-- ===== src/Api/Condition/Laws.antt =====
-- Laws of api/v1/condition.go: what `SetCondition` writes and what it leaves.
use wing.Base.{
  Bool-cases, Clock, now, tick, String, ◌≡◌, refl, ◌∙◌, ◌≢◌, ◌⊎◌, inl, inr, true, false, ◌||◌, [],
  ◌∷◌, ◌++◌, arith, ◌==◌, eq_iff,
}
use wing.Api.Types.{Condition, Conditions}
use wing.Api.Condition.{
  initialized, overwrite_all, found, set_condition, find_condition, get_condition,
}

-- What an entry says, without the time of its transition.
abbrev pub Says : Condition → Condition → Type 0
Says c new = (c.status ≡ new.status) × (c.reason ≡ new.reason) × (c.message ≡ new.message)

find-append_ne :
    (cs : Conditions) (new : Condition) (type : String)
    → type ≢ new.type
    → find_condition (cs ++ (new ∷ [])) type ≡ find_condition cs type
unfolding find_condition
find-append_ne [] new type h = ground (arith, eq_iff new.type type)
find-append_ne (c ∷ cs) new type h = ground (arith, find-append_ne cs new type h)

find-append_self :
    (cs : Conditions) (new : Condition)
    → found cs new.type ≡ false
    → find_condition (cs ++ (new ∷ [])) new.type ≡ new
unfolding find_condition found
find-append_self [] new h = ground (arith, eq_iff new.type new.type)
find-append_self (c ∷ cs) new h = ground (arith, find-append_self cs new)

pub found-append :
    (cs : Conditions) (new : Condition) (type : String)
    → found (cs ++ (new ∷ [])) type ≡ (found cs type || new.type == type)
unfolding found
found-append [] new type = ground arith
found-append (c ∷ cs) new type = ground (arith, found-append cs new type)

find-overwrite_all_ne :
    (cs : Conditions) (new : Condition) (k : Clock) (type : String)
    → type ≢ new.type
    → find_condition (overwrite_all cs new k).0 type ≡ find_condition cs type
unfolding find_condition overwrite_all
find-overwrite_all_ne [] new k type h = refl
find-overwrite_all_ne (c ∷ cs) new k type h = ground (
  arith,
  eq_iff c.type type,
  eq_iff c.type new.type,
  find-overwrite_all_ne cs new k type,
  find-overwrite_all_ne cs new (tick k) type,
)

find-overwrite_all_self :
    (cs : Conditions) (new : Condition) (k : Clock)
    → found cs new.type ≡ true
    → Says (find_condition (overwrite_all cs new k).0 new.type) new
unfolding find_condition overwrite_all found
find-overwrite_all_self [] new k h = ground arith
find-overwrite_all_self (c ∷ cs) new k h = ground (arith, find-overwrite_all_self cs new k)

pub found-overwrite_all :
    (cs : Conditions) (new : Condition) (k : Clock) (type : String)
    → found (overwrite_all cs new k).0 type ≡ found cs type
unfolding overwrite_all found
found-overwrite_all [] new k type = refl
found-overwrite_all (c ∷ cs) new k type =
    ground (arith, found-overwrite_all cs new k type, found-overwrite_all cs new (tick k) type)

-- The list after the loop is not empty where the list before was not, so it is not initialised again.
initialized-overwrite_all :
    (cs : Conditions) (new : Condition) (k : Clock)
    → initialized (overwrite_all (initialized cs) new k).0
      ≡ (overwrite_all (initialized cs) new k).0
unfolding overwrite_all initialized
initialized-overwrite_all [] new k = refl
initialized-overwrite_all (c ∷ cs) new k = refl

initialized-append :
    (cs : Conditions) (new : Condition) → initialized (cs ++ (new ∷ [])) ≡ cs ++ (new ∷ [])
unfolding initialized
initialized-append [] new = refl
initialized-append (c ∷ cs) new = refl

-- After `SetCondition` the condition of its type has the status, reason and message that were set.
pub get-set_condition_self :
    (cs : Conditions) (new : Condition) (k : Clock)
    → Says (get_condition (set_condition cs new k).0 new.type) new
unfolding get_condition set_condition
get-set_condition_self cs new k =
    let list = initialized cs in
    let looped = (overwrite_all list new k).0 in
    let clock = (overwrite_all list new k).1 in
    elim (Bool-cases (found list new.type)) [
      | inl old ↦
          rw (old, initialized-overwrite_all cs new k) (find-overwrite_all_self list new k old)
      | inr fresh ↦
          rw
            (
              fresh,
              initialized-append looped (record new { last_transition_time = now clock }),
              find-append_self looped (record new { last_transition_time = now clock })
                  (found-overwrite_all list new k new.type ∙ fresh),
            )
            (refl, refl, refl)
    ]

-- `SetCondition` leaves what `GetCondition` returns for every other type.
pub get-set_condition_ne :
    (cs : Conditions) (new : Condition) (k : Clock) (type : String)
    → type ≢ new.type
    → get_condition (set_condition cs new k).0 type ≡ get_condition cs type
unfolding get_condition set_condition
get-set_condition_ne cs new k type h =
    let list = initialized cs in
    let looped = (overwrite_all list new k).0 in
    let clock = (overwrite_all list new k).1 in
    let last = record new { last_transition_time = now clock } in
    elim (Bool-cases (found list new.type)) [
      | inl old ↦
          rw (old, initialized-overwrite_all cs new k) (find-overwrite_all_ne list new k type h)
      | inr fresh ↦
          rw (fresh, initialized-append looped last, find-append_ne looped last type h)
            (find-overwrite_all_ne list new k type h)
    ]

-- The time of the last transition after setting `new` over `old`.
abbrev pub Transition : Condition → Condition → Clock → Condition → Type 0
Transition old new k result =
    (old.status ≡ new.status
      → old.reason ≡ new.reason
      → result.last_transition_time ≡ old.last_transition_time)
    × ((old.status ≢ new.status) ⊎ (old.reason ≢ new.reason) → result.last_transition_time ≡ now k)
