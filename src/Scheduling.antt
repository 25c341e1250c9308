-- ===== src/Scheduling.antt =====
-- core/scheduling: settings of a target by schedule, and the replica patch of a time. `merge_patch`
-- is jsonpatch.MergePatch.
pub mod Laws
pub mod Safety
use wing.Base.{
  eqb, if◌then◌else◌, pos, length, ◌<>◌, itoa, split_blanks, Error, error_text, Result, and_then,
  deref, message, ok, err, panic, Time, ℕ, ◌+◌, String, not, ◌||◌, Option, none, some, List, [],
  ◌∷◌, ◌==◌,
}
use wing.Api.Types.{Raw, ScheduleTargetSettings, TargetSettings, ReplicaPatch}
use wing.Utils.Timerange.{
  CronScheduler, DateScheduler, TimeLibrary, Scheduler, date, cron, contains, new_date_scheduler,
  new_cron_scheduler, invalid_schedule_period_format,
}

abbrev pub timezone_not_found : Error
timezone_not_found = message "timezone not found"

abbrev pub schedule_period_not_found : Error
schedule_period_not_found = message "schedule period not found, `start` or `end` field not exists"

abbrev pub start_end_spec_can_not_be_equal : Error
start_end_spec_can_not_be_equal = message "start and end spec can not be equal"

module _ (lib : TimeLibrary) where
  open lib use {Location, load_location, Schedule}

  unfoldable pub get_schedule_period : ScheduleTargetSettings → Result (String × String × Location)
  get_schedule_period s =
      if s.timezone == ""
      then err timezone_not_found
      else and_then (load_location s.timezone) λ locale.
        if s.start == "" || s.end == ""
        then err schedule_period_not_found
        else if s.start == s.end
        then err start_end_spec_can_not_be_equal
        else ok (s.start, s.end, locale)

  unfoldable pub as_date : Result (DateScheduler Location) → Result (Scheduler Location Schedule)
  as_date r = and_then r λ s. ok (date s)

  unfoldable pub as_cron :
      Result (CronScheduler Location Schedule) → Result (Scheduler Location Schedule)
  as_cron r = and_then r λ s. ok (cron s)

  unfoldable pub get_scheduler : ScheduleTargetSettings → Result (Scheduler Location Schedule)
  unfolding get_schedule_period split_blanks as_cron new_cron_scheduler
  get_scheduler s = and_then (get_schedule_period s) λ p.
      if eqb (length (split_blanks p.0)) 5
      then as_cron (new_cron_scheduler lib p.2 p.0 p.1)
      else err (message invalid_schedule_period_format)

  -- The loop over the schedules: the settings of the one that is hit.
  unfoldable pub hit_schedule_settings : Time → List ScheduleTargetSettings → Result (Option Raw)
  unfolding get_scheduler contains
  hit_schedule_settings when [] = ok none
  hit_schedule_settings when (s ∷ ss) =
      let later = hit_schedule_settings when ss in
      and_then (get_scheduler s) λ scheduler.
        if contains lib scheduler when
        then and_then (deref s.settings) (λ raw. ok (some raw))
        else later

  unfoldable pub get_scheduled_settings_raw :
      (Raw → Raw → Result Raw) → Time → TargetSettings → Result Raw
  unfolding hit_schedule_settings
  get_scheduled_settings_raw merge_patch when settings =
      and_then (deref settings.default) λ payload.
        and_then (hit_schedule_settings when settings.schedules)
          λ hit. elim hit [ none ↦ ok payload | some patch ↦ merge_patch payload patch ]

  -- The scheduler of a patch: two fields are a date, five a cron specification.
  unfoldable pub patch_scheduler : ReplicaPatch → Result (Scheduler Location Schedule)
  unfolding split_blanks as_date as_cron new_date_scheduler new_cron_scheduler
  patch_scheduler p =
      if p.timezone == ""
      then err timezone_not_found
      else and_then (load_location p.timezone) λ timezone.
        if p.start == "" || p.end == ""
        then err schedule_period_not_found
        else if p.start == p.end
        then err start_end_spec_can_not_be_equal
        else let fields = length (split_blanks p.start) in
          if eqb fields 2
          then as_date (new_date_scheduler lib timezone p.start p.end)
          else if eqb fields 5
          then as_cron (new_cron_scheduler lib timezone p.start p.end)
          else err (message invalid_schedule_period_format)

  unfoldable pub get_replica_patch : Time → List ReplicaPatch → Result (Option ReplicaPatch)
  unfolding patch_scheduler contains
  get_replica_patch when [] = ok none
  get_replica_patch when (p ∷ ps) =
      let later = get_replica_patch when ps in
      and_then (patch_scheduler p)
        λ scheduler. if contains lib scheduler when then ok (some p) else later

  -- The error names the index of the broken settings.
  unfoldable pub validate_schedule_settings : ℕ → List ScheduleTargetSettings → Result (Unit {0})
  unfolding get_schedule_period itoa
  validate_schedule_settings index [] = ok tt
  validate_schedule_settings index (s ∷ ss) =
      let rest = validate_schedule_settings (index + 1) ss in
      elim (get_schedule_period s) [
        | ok _ ↦ rest
        | err _ ↦ err (
            message (
              error_text schedule_period_not_found
              <> ": broken schedule settings("
              <> itoa (pos index)
              <> ")"))
        | panic ↦ panic
      ]
