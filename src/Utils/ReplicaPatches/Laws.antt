-- ===== src/Utils/ReplicaPatches/Laws.antt =====
-- Laws of utils/replicapatche.go.
use wing.Base.{
  eqb, eqb_iff, Bool-cases, Option-cases, ◌≤ℤ◌, length, Stands, insert, delete, lookup-insert,
  lookup-delete, Result, and_then-eq-ok, ok, err, panic, Time, after, Clock, now, tick, IsMonotonic,
  ◌+◌, ◌≤◌, String, ◌≡◌, refl, sym, subst, ◌≢◌, ◌⊎◌, inl, inr, false, Option, none, some, List, [],
  ◌∷◌, arith,
}
use wing.Api.Types.{ReplicaAutoscaler, ReplicaPatch, replica_patches_annotation}
use wing.Utils.Timerange.{TimeLibrary}
use wing.Utils.ReplicaPatches.{
  patches_of, keep_autoscaler, PatchCodec, PatchState, get_replica_patches, expired_time, keeps,
  keep_unexpired, write_patches, purge_unused_replica_patches,
}

-- A patch that is not expired at a time.
abbrev pub LivesUntil : Option Time → Time → Type 0
LivesUntil none t = Unit
LivesUntil (some expiry) t = t ≤ℤ expiry

-- The clock after the loop.
clock-keep_unexpired :
    (lib : TimeLibrary) (ps : List ReplicaPatch) (k : Clock)
    → ((keep_unexpired lib ps k).1.reading ≡ k.reading)
      × (k.reads ≤ (keep_unexpired lib ps k).1.reads)
unfolding keep_unexpired
clock-keep_unexpired lib [] k = (refl, omega arith)
clock-keep_unexpired lib (p ∷ ps) k = elim (Option-cases (expired_time lib p)) [
  | inl e ↦ rw e (clock-keep_unexpired lib ps k)
  | inr (expiry, e) ↦
      let (same, later) = clock-keep_unexpired lib ps (tick k) in rw e (same, omega arith)
]

now-keep_unexpired :
    (lib : TimeLibrary) (ps : List ReplicaPatch) (k : Clock)
    → IsMonotonic k
    → now k ≤ℤ now (keep_unexpired lib ps k).1
now-keep_unexpired lib ps k m =
    let (same, later) = clock-keep_unexpired lib ps k in
    let reads = (keep_unexpired lib ps k).1.reads in
    subst (λ reading. now k ≤ℤ reading reads) (sym same) (m k.reads reads later)

not_after : (a b c : Time) → a ≤ℤ b → b ≤ℤ c → after a c ≡ false
not_after a b c h g = ground arith

not_after→le : (a c : Time) → after a c ≡ false → a ≤ℤ c
not_after→le a c h = ground arith

LivesUntil-earlier : (o : Option Time) (a b : Time) → a ≤ℤ b → LivesUntil o b → LivesUntil o a
LivesUntil-earlier none a b h l = tt
LivesUntil-earlier (some expiry) a b h l = omega arith

-- The loop keeps a patch that is not expired when the loop ends.
keep_unexpired_keeps :
    (lib : TimeLibrary) (ps : List ReplicaPatch) (k : Clock) (p : ReplicaPatch)
    → IsMonotonic k
    → Stands p ps
    → LivesUntil (expired_time lib p) (now (keep_unexpired lib ps k).1)
    → Stands p (keep_unexpired lib ps k).0
unfolding keep_unexpired
keep_unexpired_keeps lib [] k p m s l = s
keep_unexpired_keeps lib (q ∷ ps) k p m (inl same) l = elim (Option-cases (expired_time lib q)) [
  | inl e ↦ rw e (inl same)
  | inr (expiry, e) ↦
      let lives =
        subst (λ x. LivesUntil (expired_time lib x) (now (keep_unexpired lib (q ∷ ps) k).1))
          (sym same) l in
      let young =
        not_after (now k) (now (keep_unexpired lib (q ∷ ps) k).1) expiry
          (now-keep_unexpired lib (q ∷ ps) k m)
          (subst (λ o. LivesUntil o (now (keep_unexpired lib (q ∷ ps) k).1)) e lives) in
      rw (e, young) (inl same)
]
keep_unexpired_keeps lib (q ∷ ps) k p m (inr s) l = elim (Option-cases (expired_time lib q)) [
  | inl e ↦ rw e (inr (keep_unexpired_keeps lib ps k p m s (rw e at l)))
  | inr (expiry, e) ↦ elim (Bool-cases (after (now k) expiry)) [
    | inl old ↦ rw (e, old) (keep_unexpired_keeps lib ps (tick k) p m s (rw e at l))
    | inr young ↦ rw (e, young) (inr (keep_unexpired_keeps lib ps (tick k) p m s (rw e at l)))
  ]
]

-- What the loop keeps was in the list, and was not expired when the loop began.
keep_unexpired_alive :
    (lib : TimeLibrary) (ps : List ReplicaPatch) (k : Clock) (p : ReplicaPatch)
    → IsMonotonic k
    → Stands p (keep_unexpired lib ps k).0
    → Stands p ps × LivesUntil (expired_time lib p) (now k)
unfolding keep_unexpired
keep_unexpired_alive lib [] k p m s = elim s [ ]
keep_unexpired_alive lib (q ∷ ps) k p m s = elim (Option-cases (expired_time lib q)) [
  | inl e ↦ elim (rw e at s) as (λ _. Stands p (q ∷ ps) × LivesUntil (expired_time lib p) (now k)) [
    | inl same ↦ (inl same, subst (λ x. LivesUntil (expired_time lib x) (now k)) same (rw e tt))
    | inr t ↦ let (u, l) = keep_unexpired_alive lib ps k p m t in (inr u, l)
  ]
  | inr (expiry, e) ↦ elim (Bool-cases (after (now k) expiry)) [
    | inl old ↦
        let (u, l) = keep_unexpired_alive lib ps (tick k) p m (rw (e, old) at s) in
        (inr u, LivesUntil-earlier (expired_time lib p) (now k) (now (tick k)) step l)
    | inr young ↦
        elim (rw (e, young) at s)
          as (λ _. Stands p (q ∷ ps) × LivesUntil (expired_time lib p) (now k)) [
            | inl same ↦ (
              inl same,
              subst (λ x. LivesUntil (expired_time lib x) (now k)) same
                  (rw e (not_after→le (now k) expiry young)),
            )
            | inr t ↦
                let (u, l) = keep_unexpired_alive lib ps (tick k) p m t in
                (inr u, LivesUntil-earlier (expired_time lib p) (now k) (now (tick k)) step l)
          ]
  ]
]
  where
    step : now k ≤ℤ now (tick k)
    step = m k.reads (k.reads + 1) (omega arith)

-- The annotation reads back as what was written: encoding and decoding are inverse for patches.
abbrev pub RoundTrips : PatchCodec → Type 0
RoundTrips json =
    (ps : List ReplicaPatch) (text : String)
    → json.marshal ps ≡ ok text
    → json.unmarshal text ≡ ok (some ps)

nil_of_length : (ps : List ReplicaPatch) → length ps ≡ 0 → [] ≡ ps
nil_of_length [] h = refl
nil_of_length (p ∷ ps) h = absurd (omega arith)

-- What was written reads back as the remaining patches.
write_patches-get_replica_patches :
    (json : PatchCodec) (patches rest : List ReplicaPatch) (a b : ReplicaAutoscaler)
    → RoundTrips json
    → get_replica_patches json a ≡ ok (some patches)
    → (length rest ≡ length patches → rest ≡ patches)
    → write_patches json patches rest a ≡ ok b
    → (found : Option (List ReplicaPatch)) × (get_replica_patches json b ≡ ok found)
      × (patches_of found ≡ rest)
unfolding write_patches get_replica_patches
write_patches-get_replica_patches json patches rest a b trip g same h =
    elim (Bool-cases (eqb (length rest) (length patches))) [
      | inl equal ↦
          let e : a ≡ b = ground arith in
          (
            some patches,
            subst (λ x. get_replica_patches json x ≡ ok (some patches)) e g,
            sym (same ((eqb_iff _ _).0 equal)),
          )
      | inr fewer ↦ elim (Bool-cases (eqb (length rest) 0)) [
        | inl empty ↦
            let e : record a { annotations = delete replica_patches_annotation a.annotations } ≡ b =
              ground arith in
            (
              none,
              subst (λ x. get_replica_patches json x ≡ ok none) e
                  (rw
                    (
                      lookup-delete replica_patches_annotation replica_patches_annotation
                          a.annotations,
                      get_replica_patches,
                    )
                    refl),
              nil_of_length rest ((eqb_iff _ _).0 empty),
            )
        | inr some_left ↦
            let (text, marshalled, written) =
              and_then-eq-ok (json.marshal rest) _ (rw (fewer, some_left) at h) in
            let e : record a { annotations = insert replica_patches_annotation text a.annotations }
                ≡ b =
              ground arith in
            (
              some rest,
              subst (λ x. get_replica_patches json x ≡ ok (some rest)) e
                  (rw
                    (
                      lookup-insert replica_patches_annotation replica_patches_annotation text
                          a.annotations,
                      get_replica_patches,
                    )
                    (trip rest text marshalled)),
              refl,
            )
      ]
    ]

length-keep_unexpired :
    (lib : TimeLibrary) (ps : List ReplicaPatch) (k : Clock)
    → (length (keep_unexpired lib ps k).0 ≤ length ps)
      × (length (keep_unexpired lib ps k).0 ≡ length ps → (keep_unexpired lib ps k).0 ≡ ps)
unfolding keep_unexpired
length-keep_unexpired lib [] k = (omega arith, λ _. refl)
length-keep_unexpired lib (p ∷ ps) k =
    ground (arith, length-keep_unexpired lib ps (keeps (expired_time lib p) k).1)

-- What the autoscaler's annotation holds after the removal of expired patches: only patches that
-- were there and were not expired when it began, and all that are not expired when it ends.
abbrev pub IsPurged :
    TimeLibrary → PatchCodec → List ReplicaPatch → PatchState → PatchState → Type 0
IsPurged lib json patches s s' =
    (found : Option (List ReplicaPatch)) × (get_replica_patches json s'.autoscaler ≡ ok found)
    × ((p : ReplicaPatch)
        → (Stands p (patches_of found)
            → Stands p patches × LivesUntil (expired_time lib p) (now s.clock))
          × (Stands p patches
              → LivesUntil (expired_time lib p) (now s'.clock)
              → Stands p (patches_of found)))

-- If the annotation holds patches, the clock does not run backwards and written patches read back,
-- `PurgeUnusedReplicaPatches` succeeds with the expired patches removed from the annotation and no
-- other, or fails and leaves the autoscaler as it was. A patch without well-formed dates never expires.
pub purge_unused_replica_patches-IsPurged :
    (lib : TimeLibrary) (json : PatchCodec) (s : PatchState) (patches : List ReplicaPatch)
    → RoundTrips json
    → IsMonotonic s.clock
    → get_replica_patches json s.autoscaler ≡ ok (some patches)
    → let (r, s') = purge_unused_replica_patches lib json s in
      ((r ≡ ok tt) × IsPurged lib json patches s s')
      ⊎ ((r ≢ ok tt) × (s'.autoscaler ≡ s.autoscaler))
unfolding purge_unused_replica_patches
purge_unused_replica_patches-IsPurged lib json s patches trip m g =
    rw (g, purge_unused_replica_patches)
      (written (write_patches json patches rest s.autoscaler) refl)
  where
    rest : List ReplicaPatch
    rest = (keep_unexpired lib patches s.clock).0

    k : Clock
    k = (keep_unexpired lib patches s.clock).1

    written :
        (w : Result ReplicaAutoscaler)
        → write_patches json patches rest s.autoscaler ≡ w
        → let (r, s') = keep_autoscaler s.autoscaler k w in
          ((r ≡ ok tt) × IsPurged lib json patches s s')
          ⊎ ((r ≢ ok tt) × (s'.autoscaler ≡ s.autoscaler))
    written (ok b) e =
        let (found, reads, same) =
          write_patches-get_replica_patches json patches rest s.autoscaler b trip g
            (length-keep_unexpired lib patches s.clock).1 e in
        inl (
          refl,
          (
            found,
            reads,
            λ p. rw same (
              keep_unexpired_alive lib patches s.clock p m,
              keep_unexpired_keeps lib patches s.clock p m,
            ),
          ),
        )
    written (err e) _ = inr (λ h. cc, refl)
    written panic _ = inr (λ h. cc, refl)
