-- ===== src/Utils/Timerange.antt =====
-- utils/timerange: periods of time, by two dates or by two cron specifications.
pub mod Laws
pub mod Safety
use Prim.Native.Char.{code}
use wing.Base.{
  eqb, if◌then◌else◌, pos, ◌<>◌, split_blanks, contains_range_character, Result, and_then, explain,
  message, ok, err, panic, Time, before, after, exact, String, Bool, not, ◌&&◌, ◌||◌, List, [], ◌∷◌,
}

-- What the code takes of the package time beyond arithmetic on instants, and of
-- github.com/robfig/cron: time zones, dates, and the instants of a cron schedule in a zone.
pub record TimeLibrary : Type 1 where
  pub Location : Type 0
  pub load_location : String → Result Location
  -- time.ParseInLocation of the layout "2006-01-02 15:04".
  pub parse_in_location : String → Location → Result Time
  pub Schedule : Type 0
  pub parse_standard : String → Result Schedule
  pub next : Schedule → Location → Time → Time
  pub prev : Schedule → Location → Time → Time

abbrev pub invalid_schedule_period_format : String
invalid_schedule_period_format = "invalid schedule period format, accepts `cron` or `date`"

abbrev pub start_date_must_be_before_end_date : String
start_date_must_be_before_end_date = "start date must be before end date"

abbrev pub not_a_standard_cron_spec : String
not_a_standard_cron_spec = "not a standard cron spec(https://en.wikipedia.org/wiki/Cron)"

abbrev pub exact_minute_hour_value_only : String
exact_minute_hour_value_only = "cron schedule supports exact minute and hour value only"

pub record DateScheduler (L : Type 0) : Type 0 where
  pub timezone : L
  pub raw_start : String
  pub raw_end : String
  pub start_time : Time
  pub end_time : Time

pub record CronScheduler (L S : Type 0) : Type 0 where
  pub timezone : L
  pub raw_start : String
  pub raw_end : String
  pub start_sched : S
  pub end_sched : S

-- The interface Scheduler, by the types that implement it.
pub data Scheduler (L S : Type 0) : Type 0 where
  date : DateScheduler L → Scheduler L S
  cron : CronScheduler L S → Scheduler L S

-- The fields of a cron specification: five, the first two without a range or a list.
unfoldable pub validate_fields : String → List String → Result (Unit {0})
unfolding contains_range_character
validate_fields spec (minute ∷ hour ∷ day ∷ month ∷ weekday ∷ []) =
    if contains_range_character minute || contains_range_character hour
    then err (message (exact_minute_hour_value_only <> ": `" <> spec <> "`"))
    else ok tt
validate_fields spec _ = err (message (not_a_standard_cron_spec <> ": `" <> spec <> "`"))

-- `spec[0] != '@'`, where an empty specification is out of range.
unfoldable pub is_descriptor : String → Result Bool
is_descriptor String.[] = panic
is_descriptor (String.◌∷◌ c s) = ok (eqb (code c) b'@')

-- Both ends belong to the period. A time zone does not move an instant.
unfoldable pub date_contains : {L : Type 0} → DateScheduler L → Time → Bool
date_contains s when = not (after s.start_time when) && not (before s.end_time when)

-- The zero times say that the scheduler will not be triggered again.
unfoldable pub get_upcoming_trigger_duration : {L : Type 0} → DateScheduler L → Time → Time × Time
get_upcoming_trigger_duration s when =
    if after when s.start_time then (pos 0, pos 0) else (s.start_time, s.end_time)

module _ (lib : TimeLibrary) where
  open lib use {Location, load_location, parse_in_location, Schedule, parse_standard, next, prev}

  unfoldable pub new_date_scheduler : Location → String → String → Result (DateScheduler Location)
  new_date_scheduler timezone start end =
      and_then
        (explain (invalid_schedule_period_format <> ": start(" <> start <> ") ")
          (parse_in_location start timezone))
        λ start_time.
          and_then
            (explain (invalid_schedule_period_format <> ": end(" <> end <> ") ")
              (parse_in_location end timezone))
            λ end_time.
              if before start_time end_time
              then ok (record {
                timezone = timezone;
                raw_start = start;
                raw_end = end;
                start_time = start_time;
                end_time = end_time;
              })
              else err (
                  message (
                    start_date_must_be_before_end_date <> ": start(" <> start
                    <> ") must be before end(" <> end <> ")"))

  unfoldable pub validate_cron_spec : String → Result (Unit {0})
  unfolding validate_fields is_descriptor split_blanks
  validate_cron_spec spec = and_then (is_descriptor spec) λ descriptor.
      and_then (if descriptor then ok tt else validate_fields spec (split_blanks spec))
        λ _. and_then (parse_standard spec) λ _. ok tt

  unfoldable pub parse_cron_schedule_spec : String → Result Schedule
  unfolding validate_cron_spec
  parse_cron_schedule_spec spec = and_then (validate_cron_spec spec) λ _. parse_standard spec

  unfoldable pub new_cron_scheduler :
      Location → String → String → Result (CronScheduler Location Schedule)
  unfolding parse_cron_schedule_spec
  new_cron_scheduler timezone start end = and_then (parse_cron_schedule_spec start) λ start_sched.
      and_then (parse_cron_schedule_spec end) λ end_sched. ok (record {
        timezone = timezone;
        raw_start = start;
        raw_end = end;
        start_sched = start_sched;
        end_sched = end_sched;
      })

  unfoldable pub cron_contains : CronScheduler Location Schedule → Time → Bool
  cron_contains s when =
      let last_start = prev s.start_sched s.timezone when in
      let next_start = next s.start_sched s.timezone when in
      let next_end = next s.end_sched s.timezone when in
      after when last_start && before when next_end && after next_start next_end

  unfoldable pub contains : Scheduler Location Schedule → Time → Bool
  unfolding date_contains cron_contains
  contains (date s) when = date_contains s when
  contains (cron s) when = cron_contains s when
