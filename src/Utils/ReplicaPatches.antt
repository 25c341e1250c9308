-- ===== src/Utils/ReplicaPatches.antt =====
-- utils/replicapatche.go: the replica patches in an annotation, and the removal of expired ones.
-- json.Unmarshal into the patches may give a nil slice (of the text "null"), which is `none`.
pub mod Laws
pub mod Annotations
use wing.Base.{
  eqb, if◌then◌else◌, ℤ, ◌+ℤ◌, wrap64, length, lookup, insert, delete, Result, and_then, M, ok, err,
  panic, Time, seconds, after, Clock, now, tick, String, Bool, true, not, Option, none, some, List,
  [], ◌∷◌,
}
use wing.Api.Types.{ReplicaAutoscaler, ReplicaPatch, replica_patches_annotation}
use wing.Utils.Timerange.{TimeLibrary, DateScheduler, new_date_scheduler}

-- encoding/json at the type of the annotation.
pub record PatchCodec : Type 0 where
  pub unmarshal : String → Result (Option (List ReplicaPatch))
  pub marshal : List ReplicaPatch → Result String

abbrev pub patches_of : Option (List ReplicaPatch) → List ReplicaPatch
patches_of none = []
patches_of (some ps) = ps

-- Of the controller's state what the removal may change.
pub record PatchState : Type 0 where
  pub autoscaler : ReplicaAutoscaler
  pub clock : Clock

module _ (json : PatchCodec) where
  unfoldable pub get_replica_patches : ReplicaAutoscaler → Result (Option (List ReplicaPatch))
  unfolding lookup
  get_replica_patches a = elim (lookup replica_patches_annotation a.annotations) [
    | none ↦ ok none
    | some raw ↦ json.unmarshal raw
  ]

-- `endTime.Add(time.Duration(*retention) * time.Second)`, whose product may wrap.
unfoldable pub retained_until : Option ℤ → Time → Time
unfolding seconds wrap64 ◌+ℤ◌
retained_until none end_time = end_time
retained_until (some n) end_time = end_time +ℤ wrap64 (seconds n)

-- When a patch expires: only one whose time zone and dates are well formed ever does.
unfoldable pub expired_time : TimeLibrary → ReplicaPatch → Option Time
unfolding retained_until new_date_scheduler
expired_time lib p = elim (lib.load_location p.timezone) [
  | ok timezone ↦ elim (new_date_scheduler lib timezone p.start p.end) [
    | ok s ↦ some (retained_until p.retention_seconds s.end_time)
    | err _ ↦ none
    | panic ↦ none
  ]
  | err _ ↦ none
  | panic ↦ none
]

-- One round of the loop: the clock is read for a patch that can expire.
unfoldable pub keeps : Option Time → Clock → Bool × Clock
keeps none k = (true, k)
keeps (some expiry) k = (not (after (now k) expiry), tick k)

unfoldable pub keep_unexpired : TimeLibrary → List ReplicaPatch → Clock → List ReplicaPatch × Clock
unfolding keeps expired_time
keep_unexpired lib [] k = ([], k)
keep_unexpired lib (p ∷ ps) k =
    let (kept, k') = keeps (expired_time lib p) k in
    let (rest, k'') = keep_unexpired lib ps k' in (if kept then p ∷ rest else rest, k'')

-- What the annotations become, after `patches` have been cut down to `new_patches`.
unfoldable pub write_patches :
    PatchCodec
    → List ReplicaPatch
    → List ReplicaPatch
    → ReplicaAutoscaler
    → Result ReplicaAutoscaler
unfolding delete insert
write_patches json patches new_patches a =
    if eqb (length new_patches) (length patches)
    then ok a
    else if eqb (length new_patches) 0
    then ok (record a { annotations = delete replica_patches_annotation a.annotations })
    else and_then (json.marshal new_patches)
        λ text. ok (record a { annotations = insert replica_patches_annotation text a.annotations })

abbrev pub keep_autoscaler :
    ReplicaAutoscaler → Clock → Result ReplicaAutoscaler → Result (Unit {0}) × PatchState
keep_autoscaler a k (ok b) = (ok tt, record { autoscaler = b; clock = k })
keep_autoscaler a k (err e) = (err e, record { autoscaler = a; clock = k })
keep_autoscaler a k panic = (panic, record { autoscaler = a; clock = k })

unfoldable pub purge_unused_replica_patches : TimeLibrary → PatchCodec → M PatchState (Unit {0})
unfolding get_replica_patches keep_unexpired write_patches
purge_unused_replica_patches lib json s = elim (get_replica_patches json s.autoscaler) [
  | ok none ↦ (ok tt, s)
  | ok (some patches) ↦
      let (new_patches, k) = keep_unexpired lib patches s.clock in
      keep_autoscaler s.autoscaler k (write_patches json patches new_patches s.autoscaler)
  | err e ↦ (err e, s)
  | panic ↦ (panic, s)
]
