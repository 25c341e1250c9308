-- ===== src/Api/Condition/Unique.antt =====
-- Laws of api/v1/condition.go: which types stand in the list.
use wing.Base.{
  Bool-cases, true-ne-false, Clock, now, tick, String, ◌≡◌, refl, sym, ◌∙◌, ◌≢◌, inl, inr, true,
  false, ◌||◌, [], ◌∷◌, ◌++◌, arith, ◌==◌, eq_iff,
}
use wing.Api.Types.{Condition, Conditions}
use wing.Api.Condition.{
  delete_first, delete_condition, initialized, overwrite_all, found, set_condition, find_condition,
}
use wing.Api.Condition.Laws.{found-append, found-overwrite_all}

-- Every type stands in the list once.
abbrev pub IsUnique : Conditions → Type 0
IsUnique [] = Unit
IsUnique (c ∷ cs) = (found cs c.type ≡ false) × IsUnique cs

overwrite_all-IsUnique :
    (cs : Conditions) (new : Condition) (k : Clock)
    → IsUnique cs
    → IsUnique (overwrite_all cs new k).0
unfolding overwrite_all
overwrite_all-IsUnique [] new k u = tt
overwrite_all-IsUnique (c ∷ cs) new k (u, us) = ground (
  arith,
  found-overwrite_all cs new k c.type,
  found-overwrite_all cs new (tick k) c.type,
  overwrite_all-IsUnique cs new k us,
  overwrite_all-IsUnique cs new (tick k) us,
)

append-IsUnique :
    (cs : Conditions) (new : Condition)
    → found cs new.type ≡ false
    → IsUnique cs
    → IsUnique (cs ++ (new ∷ []))
unfolding found
append-IsUnique [] new f u = (refl, tt)
append-IsUnique (c ∷ cs) new f (u, us) = ground (
  arith,
  found-append cs new c.type,
  append-IsUnique cs new,
  eq_iff new.type c.type,
  eq_iff c.type new.type,
)

initialized-IsUnique : (cs : Conditions) → IsUnique cs → IsUnique (initialized cs)
unfolding initialized found
initialized-IsUnique [] u = (refl, tt)
initialized-IsUnique (c ∷ cs) u = u

-- `SetCondition` keeps every type at most once in the list.
pub set_condition-IsUnique :
    (cs : Conditions) (new : Condition) (k : Clock)
    → IsUnique cs
    → IsUnique (set_condition cs new k).0
unfolding set_condition
set_condition-IsUnique cs new k u =
    let list = initialized cs in
    let looped = overwrite_all-IsUnique list new k (initialized-IsUnique cs u) in
    elim (Bool-cases (found list new.type)) [
      | inl old ↦ rw old looped
      | inr fresh ↦ rw fresh (
          append-IsUnique (overwrite_all list new k).0
            (record new { last_transition_time = now (overwrite_all list new k).1 })
            (found-overwrite_all list new k new.type ∙ fresh) looped)
    ]

-- A type that is equal to one in the list is in it.
found_absorbs :
    (cs : Conditions) (one type : String)
    → found cs one ≡ true
    → (found cs type || one == type) ≡ found cs type
unfolding found
found_absorbs [] one type h = ground arith
found_absorbs (c ∷ cs) one type h =
    ground
      (arith, eq_iff one type, eq_iff c.type one, eq_iff c.type type, found_absorbs cs one type)

initialized-found :
    (cs : Conditions) (type : String) → found cs type ≡ true → found (initialized cs) type ≡ true
unfolding initialized found
initialized-found [] type h = absurd (true-ne-false (sym h))
initialized-found (c ∷ cs) type h = h

-- The types after `SetCondition`: those before it, after the initialisation, and the one that is set.
found-set_condition :
    (cs : Conditions) (new : Condition) (k : Clock) (type : String)
    → found (set_condition cs new k).0 type ≡ (found (initialized cs) type || new.type == type)
unfolding set_condition
found-set_condition cs new k type =
    let list = initialized cs in
    let looped = (overwrite_all list new k).0 in
    let last = record new { last_transition_time = now (overwrite_all list new k).1 } in
    elim (Bool-cases (found list new.type)) [
      | inl old ↦
          rw (old, found-overwrite_all list new k type) (sym (found_absorbs list new.type type old))
      | inr fresh ↦
          rw (fresh, found-append looped last type, found-overwrite_all list new k type) refl
    ]

-- A type that is in the list stays in it.
pub found_stays :
    (cs : Conditions) (new : Condition) (k : Clock) (type : String)
    → found cs type ≡ true
    → found (set_condition cs new k).0 type ≡ true
found_stays cs new k type h =
    rw (found-set_condition cs new k type, initialized-found cs type h) refl

found-delete_first :
    (cs : Conditions) (type : String) → IsUnique cs → found (delete_first cs type) type ≡ false
unfolding delete_first found
found-delete_first [] type u = refl
found-delete_first (c ∷ cs) type (u, us) =
    ground (arith, eq_iff c.type type, found-delete_first cs type us)

find-delete_first_ne :
    (cs : Conditions) (type other : String)
    → other ≢ type
    → find_condition (delete_first cs type) other ≡ find_condition cs other
unfolding delete_first find_condition
find-delete_first_ne [] type other h = refl
find-delete_first_ne (c ∷ cs) type other h =
    ground (arith, eq_iff c.type type, eq_iff c.type other, find-delete_first_ne cs type other)

-- `DeleteCondition` of a list without repeated types leaves no entry of the type, and every other
-- type as it was.
pub delete_condition_lem :
    (cs : Conditions) (type : String)
    → IsUnique cs
    → (found (delete_condition cs type) type ≡ false)
      × ((other : String)
          → other ≢ type
          → find_condition (delete_condition cs type) other ≡ find_condition (initialized cs) other)
unfolding delete_condition
delete_condition_lem cs type u =
    let v = initialized-IsUnique cs u in
    (found-delete_first (initialized cs) type v, find-delete_first_ne (initialized cs) type)
