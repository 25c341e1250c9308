-- ===== src/Controller/Updates/Working.antt =====
-- The bounds that limit the replicas, and the replicas that may be asked for.
use wing.Base.{
  ℤ, Result, OkThen, OkThen-inversion, ok, err, panic, Time, Duration, now, ◌≡◌, refl, Option, none,
  some, List,
}
use wing.Api.Condition.{new_condition, condition_replica_patched, condition_false}
use wing.Api.Types.{ReplicaPatch, ReplicaAutoscaler}
use wing.Utils.Timerange.{TimeLibrary}
use wing.Utils.ReplicaPatches.{PatchCodec, get_replica_patches, patches_of}
use wing.Scheduling.{get_replica_patch}
use wing.Scheduling.Laws.{FirstHit, get_replica_patch-FirstHit}
use wing.Controller.State.{State, put_condition}
use wing.Controller.Limits.{
  Bounds, spec_bounds, normalize, get_working_replica_patch, patch_bounds, working_bounds,
}
use wing.Controller.Updates.{Quiet, Sends, Quiet-trans, Quiet-then-Sends, Sends-map}
use wing.Controller.Updates.Steps.{ticked-Quiet, put_condition-Quiet}

-- The bounds that may limit the replicas: those of the spec, or those of the first patch that holds
-- some time.
pub data MayLimit (lib : TimeLibrary) (json : PatchCodec) (a : ReplicaAutoscaler) (b : Bounds)
    : Type 0 where
  by_spec : b ≡ spec_bounds a → MayLimit lib json a b
  by_patch :
      (ps : Option (List ReplicaPatch)) (p : ReplicaPatch) (when : Time)
      → get_replica_patches json a ≡ ok ps
      → FirstHit lib when (patches_of ps) (some p)
      → b ≡ record { max_replicas = p.max_replicas; min_replicas = p.min_replicas }
      → MayLimit lib json a b

-- The replicas that may be asked for: the maximum, of a static setting, or a limited number.
pub data MayWant (lib : TimeLibrary) (json : PatchCodec) (a : ReplicaAutoscaler) (n : ℤ)
    : Type 0 where
  static : a.spec.min_replicas ≡ none → n ≡ a.spec.max_replicas → MayWant lib json a n
  limited :
      (b : Bounds) (desired : ℤ)
      → MayLimit lib json a b
      → n ≡ (normalize b desired).0
      → MayWant lib json a n

module _ (lib : TimeLibrary) (json : PatchCodec) where
  abbrev bounds_of : ReplicaPatch → Bounds
  bounds_of p = record { max_replicas = p.max_replicas; min_replicas = p.min_replicas }

  abbrev Found : ReplicaAutoscaler → Option ReplicaPatch → Type 0
  Found a none = Unit {0}
  Found a (some p) = MayLimit lib json a (bounds_of p)

  first_patch_lem :
      (a : ReplicaAutoscaler) (ps : Option (List ReplicaPatch)) (when : Time)
      (found : Option ReplicaPatch)
      → get_replica_patches json a ≡ ok ps
      → get_replica_patch lib when (patches_of ps) ≡ ok found
      → Found a found
  first_patch_lem a ps when none e first = tt
  first_patch_lem a ps when (some p) e first =
      by_patch ps p when e (get_replica_patch-FirstHit lib when (patches_of ps) (some p) first) refl

module _ (lib : TimeLibrary) (json : PatchCodec) {R : Type 0} where
  get_replica_patches_congr :
      (s t : State R)
      → Quiet s t
      → get_replica_patches json t.autoscaler ≡ get_replica_patches json s.autoscaler
  unfolding get_replica_patches
  get_replica_patches_congr s t q = rw q.same_annotations refl

  MayLimit-Quiet :
      (s t : State R) (b : Bounds)
      → Quiet s t
      → MayLimit lib json t.autoscaler b
      → MayLimit lib json s.autoscaler b
  unfolding spec_bounds
  MayLimit-Quiet s t b q (by_spec e) = by_spec (rw q.same_spec at e)
  MayLimit-Quiet s t b q (by_patch ps p when e first same) =
      by_patch ps p when (rw (get_replica_patches_congr s t q) at e) first same

  MayWant-Quiet :
      (s t : State R) (n : ℤ)
      → Quiet s t
      → MayWant lib json t.autoscaler n
      → MayWant lib json s.autoscaler n
  MayWant-Quiet s t n q (static fixed e) = static (rw q.same_spec at fixed) (rw q.same_spec at e)
  MayWant-Quiet s t n q (limited b desired m e) = limited b desired (MayLimit-Quiet s t b q m) e

  get_working_replica_patch_lem :
      (s u : State R) (r : Result (Option (List ReplicaPatch)))
      → Quiet s u
      → get_replica_patches json s.autoscaler ≡ r
      → get_replica_patches json u.autoscaler ≡ r
      → OkThen (Found lib json s.autoscaler) (get_working_replica_patch lib json u).0
        × Quiet s (get_working_replica_patch lib json u).1
  unfolding get_working_replica_patch
  get_working_replica_patch_lem s u (ok ps) q e e' = (
    rw (e', get_working_replica_patch)
        (OkThen-inversion _ _
          (λ found. first_patch_lem lib json s.autoscaler ps (now u.clock) found e)),
    rw (e', get_working_replica_patch) (ticked-Quiet s u _ q),
  )
  get_working_replica_patch_lem s u (err _) q e e' =
      (rw (e', get_working_replica_patch) tt, rw (e', get_working_replica_patch) q)
  get_working_replica_patch_lem s u panic q e e' =
      (rw (e', get_working_replica_patch) tt, rw (e', get_working_replica_patch) q)

  -- The working bounds, the error paths included.
  patch_bounds_lem :
      (s : State R) (x : Result (Option ReplicaPatch) × State R)
      → OkThen (Found lib json s.autoscaler) x.0
      → Quiet s x.1
      → OkThen (MayLimit lib json s.autoscaler) (patch_bounds x).0 × Quiet s (patch_bounds x).1
  unfolding patch_bounds
  patch_bounds_lem s (ok none, u) found q = (MayLimit-Quiet s u _ q (by_spec refl), q)
  patch_bounds_lem s (ok (some p), u) found q = (found, Quiet-trans q (put_condition-Quiet _ u))
  patch_bounds_lem s (err _, u) found q = (MayLimit-Quiet s u _ q (by_spec refl), q)
  patch_bounds_lem s (panic, u) found q = (tt, q)

  pub working_bounds_lem :
      (s : State R)
      → OkThen (MayLimit lib json s.autoscaler) (working_bounds lib json s).0
        × Quiet s (working_bounds lib json s).1
  unfolding working_bounds
  working_bounds_lem s =
      let c =
        new_condition condition_replica_patched condition_false "No replica patch applied" "" in
      let q = put_condition-Quiet c s in
      let (found, quiet) =
        get_working_replica_patch_lem s (put_condition c s) _ q refl
          (get_replica_patches_congr s (put_condition c s) q) in
      patch_bounds_lem s _ found quiet

  -- What the lemmas of the steps are about.
  abbrev pub Limited : State R → Result Duration × State R → Type 0
  Limited s x = Sends (MayWant lib json s.autoscaler) s x.1

  pub Quiet-Limited :
      (s t : State R) {u : State R}
      → Quiet s t
      → Sends (MayWant lib json t.autoscaler) t u
      → Sends (MayWant lib json s.autoscaler) s u
  Quiet-Limited s t q l = Sends-map _ _ (λ n. MayWant-Quiet s t n q) (Quiet-then-Sends _ q l)
