-- ===== src/Utils/Timerange/Laws.antt =====
-- Laws of utils/timerange.
use wing.Base.{
  if◌then◌else◌, Bool-cases, ◌≤ℤ◌, ◌<ℤ◌, pos, split_blanks, contains_range_character,
  and_then-eq-ok, ok, Time, String, ◌≡◌, refl, ap, ◌∙◌, ◌≢◌, ◌↔◌, ◌⊎◌, inl, inr, true, false, List,
  [], ◌∷◌, arith,
}
use wing.Utils.Timerange.{
  TimeLibrary, DateScheduler, CronScheduler, date_contains, new_date_scheduler, validate_fields,
  validate_cron_spec, cron_contains, is_descriptor,
}

-- What robfig/cron documents of a schedule: `Next` is later than the given time and `Prev` earlier,
-- or the zero time where no such activation is found, and no activation lies between a time and its
-- `Next`.
pub record IsCron (lib : TimeLibrary) : Type 0 where
  pub next_later :
      (s : lib.Schedule) (l : lib.Location) (t : Time)
      → (t <ℤ lib.next s l t) ⊎ (lib.next s l t ≡ pos 0)
  pub prev_earlier :
      (s : lib.Schedule) (l : lib.Location) (t : Time)
      → (lib.prev s l t <ℤ t) ⊎ (lib.prev s l t ≡ pos 0)
  pub next_stable :
      (s : lib.Schedule) (l : lib.Location) (t u : Time)
      → t ≤ℤ u
      → u <ℤ lib.next s l t
      → lib.next s l u ≡ lib.next s l t

-- A date scheduler that `NewDateScheduler` built has two ends in order, and contains both of them
-- and just the instants between.
pub new_date_scheduler_period :
    (lib : TimeLibrary) (timezone : lib.Location) (start end : String)
    (s : DateScheduler lib.Location) (when : Time)
    → new_date_scheduler lib timezone start end ≡ ok s
    → (s.start_time <ℤ s.end_time)
      × ((date_contains s when ≡ true) ↔ ((s.start_time ≤ℤ when) × (when ≤ℤ s.end_time)))
unfolding new_date_scheduler date_contains
new_date_scheduler_period lib timezone start end s when h =
    let ordered : s.start_time <ℤ s.end_time = ground arith in
    (ordered, (λ c. ground arith, λ b. ground arith))

pub cron_contains_iff :
    (lib : TimeLibrary) (laws : IsCron lib) (s : CronScheduler lib.Location lib.Schedule)
    (when : Time)
    → pos 0 <ℤ when
    → (cron_contains lib s when ≡ true) ↔ (
        (lib.next s.end_sched s.timezone when ≢ pos 0)
        × (lib.next s.start_sched s.timezone when ≢ pos 0)
        × (lib.next s.end_sched s.timezone when <ℤ lib.next s.start_sched s.timezone when))
unfolding cron_contains
cron_contains_iff lib laws s when late = ground (
  arith,
  laws.next_later s.end_sched s.timezone when,
  laws.next_later s.start_sched s.timezone when,
  laws.prev_earlier s.start_sched s.timezone when,
)

-- From a time that a cron scheduler contains up to the next end it contains every time.
pub cron_contains_until_end :
    (lib : TimeLibrary) (laws : IsCron lib) (s : CronScheduler lib.Location lib.Schedule)
    (when later : Time)
    → pos 0 <ℤ when
    → cron_contains lib s when ≡ true
    → when ≤ℤ later
    → later <ℤ lib.next s.end_sched s.timezone when
    → cron_contains lib s later ≡ true
cron_contains_until_end lib laws s when later late h a b =
    let (ends, starts, open_end) = (cron_contains_iff lib laws s when late).0 h in
    let same_end = laws.next_stable s.end_sched s.timezone when later a b in
    let same_start = laws.next_stable s.start_sched s.timezone when later a (omega arith) in
    (cron_contains_iff lib laws s later (omega arith)).1
      (rw (same_end, same_start) (ends, starts, open_end))

-- The five fields, the first two without a character of a range or a list.
abbrev pub HasFields : List String → Type 0
HasFields fields =
    (f : String × String × String × String × String) × (fields ≡ f.0 ∷ f.1 ∷ f.2 ∷ f.3 ∷ f.4 ∷ [])
    × (contains_range_character f.0 ≡ false)
    × (contains_range_character f.1 ≡ false)

validate_fields-HasFields :
    (spec : String) (fields : List String) → validate_fields spec fields ≡ ok tt → HasFields fields
unfolding validate_fields
validate_fields-HasFields spec (a ∷ b ∷ c ∷ d ∷ e ∷ []) h =
    ((a, b, c, d, e), refl, ground arith, ground arith)
validate_fields-HasFields spec _ h = cc

-- A specification that is accepted is a descriptor, or has five fields of which the minute and the
-- hour hold none of the characters `*`, `/`, `-` and `,`; and the library parses it.
pub validate_cron_spec_fields :
    (lib : TimeLibrary) (spec : String)
    → validate_cron_spec lib spec ≡ ok tt
    → ((is_descriptor spec ≡ ok true) ⊎ HasFields (split_blanks spec))
      × ((s : lib.Schedule) × (lib.parse_standard spec ≡ ok s))
unfolding validate_cron_spec
validate_cron_spec_fields lib spec h =
    let (descriptor, first, rest) = and_then-eq-ok (is_descriptor spec) _ h in
    let (_, checked, parsed) =
      and_then-eq-ok (if descriptor then ok tt else validate_fields spec (split_blanks spec)) _
        rest in
    let (schedule, found, _) = and_then-eq-ok (lib.parse_standard spec) _ parsed in
    (
      elim (Bool-cases descriptor) [
        | inl yes_it_is ↦ inl (first ∙ ap ok yes_it_is)
        | inr no_it_is_not ↦ inr (validate_fields-HasFields spec (split_blanks spec) (ground arith))
      ],
      (schedule, found),
    )
