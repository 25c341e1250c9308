-- ===== src/Utils/ReplicaPatches/Annotations.antt =====
-- utils/replicapatche.go: what the removal of expired patches leaves of the autoscaler.
use wing.Base.{
  eqb, Bool-cases, length, insert, Result, and_then, OkThen, ok, err, panic, Clock, String, ◌≡◌,
  refl, inl, inr, Option, none, some, List,
}
use wing.Api.Types.{ReplicaAutoscaler, ReplicaPatch, replica_patches_annotation}
use wing.Utils.Timerange.{TimeLibrary}
use wing.Utils.ReplicaPatches.{
  PatchCodec, PatchState, get_replica_patches, keep_unexpired, write_patches, keep_autoscaler,
  purge_unused_replica_patches,
}

-- The annotations may differ.
abbrev pub SameButAnnotations : ReplicaAutoscaler → ReplicaAutoscaler → Type 0
SameButAnnotations a b =
    (b.spec ≡ a.spec) × (b.status ≡ a.status) × (b.deletion_timestamp ≡ a.deletion_timestamp)

module _ (json : PatchCodec) where
  with_text-Same :
      (r : Result String) (a : ReplicaAutoscaler)
      → OkThen (SameButAnnotations a) (
          and_then r (λ text.
            ok (record a { annotations = insert replica_patches_annotation text a.annotations })))
  with_text-Same (ok text) a = (refl, refl, refl)
  with_text-Same (err e) a = tt
  with_text-Same panic a = tt

  write_patches-Same :
      (patches new_patches : List ReplicaPatch) (a : ReplicaAutoscaler)
      → OkThen (SameButAnnotations a) (write_patches json patches new_patches a)
  unfolding write_patches
  write_patches-Same patches new_patches a =
      elim (Bool-cases (eqb (length new_patches) (length patches))) [
        | inl all_kept ↦ rw (all_kept, write_patches) (refl, refl, refl)
        | inr cut ↦ elim (Bool-cases (eqb (length new_patches) 0)) [
          | inl none_kept ↦ rw (cut, none_kept, write_patches) (refl, refl, refl)
          | inr some_kept ↦
              rw (cut, some_kept, write_patches) (with_text-Same (json.marshal new_patches) a)
        ]
      ]

  keep_autoscaler-Same :
      (a : ReplicaAutoscaler) (k : Clock) (r : Result ReplicaAutoscaler)
      → OkThen (SameButAnnotations a) r
      → SameButAnnotations a (keep_autoscaler a k r).1.autoscaler
  keep_autoscaler-Same a k (ok b) h = h
  keep_autoscaler-Same a k (err e) h = (refl, refl, refl)
  keep_autoscaler-Same a k panic h = (refl, refl, refl)

  purged-Same :
      (lib : TimeLibrary) (s : PatchState) (r : Result (Option (List ReplicaPatch)))
      → get_replica_patches json s.autoscaler ≡ r
      → SameButAnnotations s.autoscaler (purge_unused_replica_patches lib json s).1.autoscaler
  unfolding purge_unused_replica_patches
  purged-Same lib s (ok none) e = rw (e, purge_unused_replica_patches) (refl, refl, refl)
  purged-Same lib s (ok (some patches)) e =
      rw (e, purge_unused_replica_patches)
        (keep_autoscaler-Same s.autoscaler (keep_unexpired lib patches s.clock).1 _
          (write_patches-Same patches (keep_unexpired lib patches s.clock).0 s.autoscaler))
  purged-Same lib s (err _) e = rw (e, purge_unused_replica_patches) (refl, refl, refl)
  purged-Same lib s panic e = rw (e, purge_unused_replica_patches) (refl, refl, refl)

  -- The removal leaves all but the annotations, its errors included.
  pub purge-Same :
      (lib : TimeLibrary) (s : PatchState)
      → SameButAnnotations s.autoscaler (purge_unused_replica_patches lib json s).1.autoscaler
  purge-Same lib s = purged-Same lib s (get_replica_patches json s.autoscaler) refl
