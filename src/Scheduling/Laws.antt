-- ===== src/Scheduling/Laws.antt =====
-- Laws of core/scheduling.
use wing.Base.{
  Bool-cases, All, Result, and_then-eq-ok, err-ne-ok, panic-ne-ok, Fails, ok, err, panic, Time, ◌≡◌,
  refl, sym, ap, ◌∙◌, subst, ◌⊎◌, inl, inr, Bool, true, false, Option, none, some, List, [], ◌∷◌,
  ◌++◌, arith,
}
use wing.Api.Types.{Raw, ScheduleTargetSettings, ReplicaPatch}
use wing.Utils.Timerange.{TimeLibrary, Scheduler, contains}
use wing.Scheduling.{
  get_scheduler, hit_schedule_settings, get_scheduled_settings_raw, patch_scheduler,
  get_replica_patch,
}

module _ (lib : TimeLibrary) where
  -- A schedule, or a patch, that is well formed and does or does not hold the time.
  abbrev pub Hits : Time → Bool → Result (Scheduler lib.Location lib.Schedule) → Type 0
  Hits when hit r =
      (s : Scheduler lib.Location lib.Schedule) × (r ≡ ok s) × (contains lib s when ≡ hit)

  hit_schedule_settings_first :
      (when : Time) (before_it after_it : List ScheduleTargetSettings) (s : ScheduleTargetSettings)
      (raw : Raw)
      → All (λ t. Hits when false (get_scheduler lib t)) before_it
      → Hits when true (get_scheduler lib s)
      → s.settings ≡ some raw
      → hit_schedule_settings lib when (before_it ++ (s ∷ after_it)) ≡ ok (some raw)
  unfolding hit_schedule_settings
  hit_schedule_settings_first when [] after_it s raw all (scheduler, e, c) settings =
      rw (e, c, settings)
  hit_schedule_settings_first when (t ∷ ts) after_it s raw ((other, e, c), all) hit settings =
      rw (e, c) (hit_schedule_settings_first when ts after_it s raw all hit settings)

  -- The settings of the FIRST schedule that contains the time are merged over the default; what the
  -- schedules behind it say, or whether they are well formed, does not matter.
  pub get_scheduled_settings_raw_first :
      (merge_patch : Raw → Raw → Result Raw) (when : Time) (payload raw : Raw)
      (before_it after_it : List ScheduleTargetSettings) (s : ScheduleTargetSettings)
      → All (λ t. Hits when false (get_scheduler lib t)) before_it
      → Hits when true (get_scheduler lib s)
      → s.settings ≡ some raw
      → get_scheduled_settings_raw lib merge_patch when
          (record { default = some payload; schedules = before_it ++ (s ∷ after_it) })
        ≡ merge_patch payload raw
  unfolding get_scheduled_settings_raw
  get_scheduled_settings_raw_first merge_patch when payload raw before_it after_it s all hit
        settings =
      rw (hit_schedule_settings_first when before_it after_it s raw all hit settings)

  -- A patch that is found stands in the list, holds the time, and every patch before it is well
  -- formed and does not hold it; if none is found, all are well formed and none holds the time.
  abbrev pub FirstHit : Time → List ReplicaPatch → Option ReplicaPatch → Type 0
  FirstHit when ps none = All (λ t. Hits when false (patch_scheduler lib t)) ps
  FirstHit when ps (some p) =
      (l : List ReplicaPatch × List ReplicaPatch) × (ps ≡ l.0 ++ (p ∷ l.1))
      × All (λ t. Hits when false (patch_scheduler lib t)) l.0
      × Hits when true (patch_scheduler lib p)

  FirstHit-cons :
      (when : Time) (p : ReplicaPatch) (ps : List ReplicaPatch) (found : Option ReplicaPatch)
      → Hits when false (patch_scheduler lib p)
      → FirstHit when ps found
      → FirstHit when (p ∷ ps) found
  FirstHit-cons when p ps none miss first = (miss, first)
  FirstHit-cons when p ps (some q) miss ((l, r), e, all, hit) =
      ((p ∷ l, r), ap (◌∷◌ p) e, (miss, all), hit)

  -- `GetReplicaPatch` returns the first patch that holds the time.
  pub get_replica_patch-FirstHit :
      (when : Time) (ps : List ReplicaPatch) (found : Option ReplicaPatch)
      → get_replica_patch lib when ps ≡ ok found
      → FirstHit when ps found
  unfolding get_replica_patch
  get_replica_patch-FirstHit when [] none h = tt
  get_replica_patch-FirstHit when [] (some p) h = cc
  get_replica_patch-FirstHit when (p ∷ ps) found h =
      let (s, e, rest) = and_then-eq-ok (patch_scheduler lib p) _ h in
      elim (Bool-cases (contains lib s when)) [
        | inl hit ↦ here s e hit (rw hit at rest)
        | inr miss ↦
            FirstHit-cons when p ps found (s, e, miss)
              (get_replica_patch-FirstHit when ps found (rw miss at rest))
      ]
    where
      here :
          (s : Scheduler lib.Location lib.Schedule)
          → patch_scheduler lib p ≡ ok s
          → contains lib s when ≡ true
          → ok (some p) ≡ ok found
          → FirstHit when (p ∷ ps) found
      here s e hit q =
          let same : some p ≡ found = ground arith in
          subst (FirstHit when (p ∷ ps)) same (([], ps), refl, tt, (s, e, hit))

  -- A patch whose scheduler fails, behind patches that are well formed and do not hold the time.
  abbrev pub BlockedBy : Time → List ReplicaPatch → ReplicaPatch → Type 0
  BlockedBy when ps p =
      (l : List ReplicaPatch × List ReplicaPatch) × (ps ≡ l.0 ++ (p ∷ l.1))
      × All (λ t. Hits when false (patch_scheduler lib t)) l.0
      × Fails (patch_scheduler lib p)

  abbrev Outcome : Time → List ReplicaPatch → Result (Option ReplicaPatch) → Type 0
  Outcome when ps r =
      ((found : Option ReplicaPatch) × (r ≡ ok found) × FirstHit when ps found)
      ⊎ (((p : ReplicaPatch) × BlockedBy when ps p) × Fails r)

  Outcome-miss :
      (when : Time) (p : ReplicaPatch) (ps : List ReplicaPatch) (r : Result (Option ReplicaPatch))
      → Hits when false (patch_scheduler lib p)
      → Outcome when ps r
      → Outcome when (p ∷ ps) r
  Outcome-miss when p ps r miss (inl (found, e, first)) =
      inl (found, e, FirstHit-cons when p ps found miss first)
  Outcome-miss when p ps r miss (inr ((q, ((l, rest), e, all, fails)), none_found)) =
      inr ((q, ((p ∷ l, rest), ap (◌∷◌ p) e, (miss, all), fails)), none_found)

  Outcome-cons :
      (when : Time) (p : ReplicaPatch) (ps : List ReplicaPatch)
      (r : Result (Scheduler lib.Location lib.Schedule))
      → patch_scheduler lib p ≡ r
      → Outcome when ps (get_replica_patch lib when ps)
      → Outcome when (p ∷ ps) (get_replica_patch lib when (p ∷ ps))
  unfolding get_replica_patch
  Outcome-cons when p ps (ok s) e later = elim (Bool-cases (contains lib s when)) [
    | inl hit ↦
        rw (e, hit, get_replica_patch) (inl (some p, refl, (([], ps), refl, tt, (s, e, hit))))
    | inr miss ↦ rw (e, miss, get_replica_patch) (Outcome-miss when p ps _ (s, e, miss) later)
  ]
  Outcome-cons when p ps (err x) e later =
      rw (e, get_replica_patch)
        (inr ((p, (([], ps), refl, tt, λ s q. err-ne-ok (sym e ∙ q))), λ found. err-ne-ok))
  Outcome-cons when p ps panic e later =
      rw (e, get_replica_patch)
        (inr ((p, (([], ps), refl, tt, λ s q. panic-ne-ok (sym e ∙ q))), λ found. panic-ne-ok))

  -- `GetReplicaPatch` returns the first patch that holds the time, or none if no patch holds it,
  -- where the patches it looked at are well formed. Else it fails, at a patch that is not well
  -- formed, and no patch before that one holds the time.
  pub get_replica_patch_outcome :
      (when : Time) (ps : List ReplicaPatch)
      → ((found : Option ReplicaPatch) × (get_replica_patch lib when ps ≡ ok found)
          × FirstHit when ps found)
        ⊎ (((p : ReplicaPatch) × BlockedBy when ps p) × Fails (get_replica_patch lib when ps))
  unfolding get_replica_patch
  get_replica_patch_outcome when [] = inl (none, refl, tt)
  get_replica_patch_outcome when (p ∷ ps) =
      Outcome-cons when p ps _ refl (get_replica_patch_outcome when ps)
