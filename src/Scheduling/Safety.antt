-- ===== src/Scheduling/Safety.antt =====
-- Where the schedules of core/scheduling may panic.
use wing.Base.{
  eqb, if◌then◌else◌, Bool-cases, length, All, split_blanks, Result, and_then, deref,
  and_then-ne-panic, OkThen, message, ok, err, panic, Time, String, refl, ◌≢◌, inl, inr, ◌||◌,
  Option, none, some, List, [], ◌∷◌, ◌==◌,
}
use wing.Api.Types.{Raw, ScheduleTargetSettings, TargetSettings, ReplicaPatch}
use wing.Utils.Timerange.{
  TimeLibrary, contains, new_cron_scheduler, new_date_scheduler, invalid_schedule_period_format,
}
use wing.Utils.Timerange.Safety.{
  IsCalm, if-ne-panic, deref-ne-panic, both_filled, new_cron_scheduler-ne-panic,
  new_date_scheduler-ne-panic,
}
use wing.Scheduling.{
  schedule_period_not_found, start_end_spec_can_not_be_equal, as_date, as_cron, get_schedule_period,
  get_scheduler, hit_schedule_settings, get_scheduled_settings_raw, patch_scheduler,
  get_replica_patch,
}

-- The settings of a schedule are merged into the default ones.
merged-ne-panic :
    (merge_patch : Raw → Raw → Result Raw)
    → ((a b : Raw) → merge_patch a b ≢ panic)
    → (payload : Raw) (hit : Option Raw)
    → elim hit [ none ↦ ok payload | some patch ↦ merge_patch payload patch ] ≢ panic
merged-ne-panic merge_patch calm_merge payload none = λ q. cc
merged-ne-panic merge_patch calm_merge payload (some patch) = calm_merge payload patch

module _ (lib : TimeLibrary) (calm : IsCalm lib) where
  -- The start and the end of a period, which are not empty.
  abbrev Filled : String × String × lib.Location → Type 0
  Filled p = (p.0 ≢ "") × (p.1 ≢ "")

  located-Filled :
      (r : Result lib.Location) (s : ScheduleTargetSettings)
      → r ≢ panic
      → let period : Result (String × String × lib.Location) = and_then r λ locale.
        if s.start == "" || s.end == ""
        then err schedule_period_not_found
        else if s.start == s.end
        then err start_end_spec_can_not_be_equal
        else ok (s.start, s.end, locale) in
        OkThen Filled period × (period ≢ panic)
  located-Filled (err e) s h = (tt, λ q. cc)
  located-Filled panic s h = absurd (h refl)
  located-Filled (ok locale) s h = elim (Bool-cases (s.start == "" || s.end == "")) [
    | inl empty ↦ rw empty (tt, λ q. cc)
    | inr filled ↦ elim (Bool-cases (s.start == s.end)) [
      | inl equal ↦ rw (filled, equal) (tt, λ q. cc)
      | inr other ↦ rw (filled, other) (both_filled s.start s.end filled, λ q. cc)
    ]
  ]

  get_schedule_period-Filled :
      (s : ScheduleTargetSettings)
      → OkThen Filled (get_schedule_period lib s) × (get_schedule_period lib s ≢ panic)
  unfolding get_schedule_period
  get_schedule_period-Filled s = elim (Bool-cases (s.timezone == "")) [
    | inl empty ↦ rw (empty, get_schedule_period) (tt, λ q. cc)
    | inr filled ↦
        rw (filled, get_schedule_period)
          (located-Filled (lib.load_location s.timezone) s (calm.load_location_calm s.timezone))
  ]

  scheduled-ne-panic :
      (r : Result (String × String × lib.Location))
      → OkThen Filled r
      → r ≢ panic
      → and_then r (λ p.
        if eqb (length (split_blanks p.0)) 5
        then as_cron lib (new_cron_scheduler lib p.2 p.0 p.1)
        else err (message invalid_schedule_period_format))
        ≢ panic
  unfolding as_cron
  scheduled-ne-panic (err e) h k = λ q. cc
  scheduled-ne-panic panic h k = absurd (k refl)
  scheduled-ne-panic (ok (start, end, locale)) (h, g) k =
      if-ne-panic (eqb (length (split_blanks start)) 5) _ _
        (λ _.
          and_then-ne-panic (new_cron_scheduler lib locale start end) _
            (new_cron_scheduler-ne-panic lib calm locale start end h g) (λ _ q. cc))
        (λ _ q. cc)

  get_scheduler-ne-panic : (s : ScheduleTargetSettings) → get_scheduler lib s ≢ panic
  unfolding get_scheduler
  get_scheduler-ne-panic s =
      let (filled, calm_period) = get_schedule_period-Filled s in
      scheduled-ne-panic (get_schedule_period lib s) filled calm_period

  hit_schedule_settings-ne-panic :
      (when : Time) (ss : List ScheduleTargetSettings)
      → All (λ s. s.settings ≢ none) ss
      → hit_schedule_settings lib when ss ≢ panic
  unfolding hit_schedule_settings
  hit_schedule_settings-ne-panic when [] all = λ q. cc
  hit_schedule_settings-ne-panic when (s ∷ ss) (there, all) =
      and_then-ne-panic (get_scheduler lib s) _ (get_scheduler-ne-panic s) (λ scheduler.
        if-ne-panic (contains lib scheduler when) _ _
          (λ _.
            and_then-ne-panic (deref s.settings) _ (deref-ne-panic s.settings there) (λ _ q. cc))
          (λ _. hit_schedule_settings-ne-panic when ss all))

  -- The settings of a target that has default settings, and settings for each schedule, never panic.
  pub get_scheduled_settings_raw-ne-panic :
      (merge_patch : Raw → Raw → Result Raw) (when : Time) (settings : TargetSettings)
      → ((a b : Raw) → merge_patch a b ≢ panic)
      → settings.default ≢ none
      → All (λ s. s.settings ≢ none) settings.schedules
      → get_scheduled_settings_raw lib merge_patch when settings ≢ panic
  unfolding get_scheduled_settings_raw
  get_scheduled_settings_raw-ne-panic merge_patch when settings calm_merge default all =
      and_then-ne-panic (deref settings.default) _ (deref-ne-panic settings.default default)
        (λ payload.
          and_then-ne-panic (hit_schedule_settings lib when settings.schedules) _
            (hit_schedule_settings-ne-panic when settings.schedules all)
            (merged-ne-panic merge_patch calm_merge payload))

  patched-ne-panic :
      (r : Result lib.Location) (p : ReplicaPatch)
      → r ≢ panic
      → and_then r (λ timezone.
        if p.start == "" || p.end == ""
        then err schedule_period_not_found
        else if p.start == p.end
        then err start_end_spec_can_not_be_equal
        else let fields = length (split_blanks p.start) in
          if eqb fields 2
          then as_date lib (new_date_scheduler lib timezone p.start p.end)
          else if eqb fields 5
          then as_cron lib (new_cron_scheduler lib timezone p.start p.end)
          else err (message invalid_schedule_period_format))
        ≢ panic
  unfolding as_date as_cron
  patched-ne-panic r p h = and_then-ne-panic r _ h (λ timezone.
      if-ne-panic (p.start == "" || p.end == "") _ _ (λ _ q. cc)
        (λ filled.
          let (start, end) = both_filled p.start p.end filled in
          if-ne-panic (p.start == p.end) _ _ (λ _ q. cc)
            (λ _.
              if-ne-panic (eqb (length (split_blanks p.start)) 2) _ _
                (λ _.
                  and_then-ne-panic (new_date_scheduler lib timezone p.start p.end) _
                    (new_date_scheduler-ne-panic lib calm timezone p.start p.end) (λ _ q. cc))
                (λ _.
                  if-ne-panic (eqb (length (split_blanks p.start)) 5) _ _
                    (λ _.
                      and_then-ne-panic (new_cron_scheduler lib timezone p.start p.end) _
                        (new_cron_scheduler-ne-panic lib calm timezone p.start p.end start end)
                        (λ _ q. cc))
                    (λ _ q. cc)))))

  patch_scheduler-ne-panic : (p : ReplicaPatch) → patch_scheduler lib p ≢ panic
  unfolding patch_scheduler
  patch_scheduler-ne-panic p =
      if-ne-panic (p.timezone == "") _ _ (λ _ q. cc)
        (λ _.
          patched-ne-panic (lib.load_location p.timezone) p (calm.load_location_calm p.timezone))

  pub get_replica_patch-ne-panic :
      (when : Time) (ps : List ReplicaPatch) → get_replica_patch lib when ps ≢ panic
  unfolding get_replica_patch
  get_replica_patch-ne-panic when [] = λ q. cc
  get_replica_patch-ne-panic when (p ∷ ps) =
      and_then-ne-panic (patch_scheduler lib p) _ (patch_scheduler-ne-panic p) (λ scheduler.
        if-ne-panic (contains lib scheduler when) _ _ (λ _ q. cc)
          (λ _. get_replica_patch-ne-panic when ps))
