-- ===== src/Utils/Timerange/Safety.antt =====
-- Where utils/timerange may panic.
use wing.Base.{
  if◌then◌else◌, split_blanks, contains_range_character, Result, explain, deref, and_then-ne-panic,
  ok, err, panic, before, String, ◌≡◌, refl, ◌≢◌, Bool, true, false, ◌||◌, Option, none, some, List,
  [], ◌∷◌, arith, ◌==◌, eq_iff,
}
use wing.Utils.Timerange.{
  TimeLibrary, is_descriptor, validate_fields, validate_cron_spec, parse_cron_schedule_spec,
  new_cron_scheduler, new_date_scheduler,
}

pub if-ne-panic {ℓ} :
    {A : Type ℓ} (b : Bool) (x y : Result A)
    → (b ≡ true → x ≢ panic)
    → (b ≡ false → y ≢ panic)
    → (if b then x else y) ≢ panic
if-ne-panic true x y h k = h refl
if-ne-panic false x y h k = k refl

pub explain-ne-panic {ℓ} :
    {A : Type ℓ} (text : String) (r : Result A) → r ≢ panic → explain text r ≢ panic
explain-ne-panic text (ok a) h = λ e. cc
explain-ne-panic text (err _) h = λ e. cc
explain-ne-panic text panic h = λ e. h refl

is_descriptor-ne-panic : (spec : String) → spec ≢ "" → is_descriptor spec ≢ panic
unfolding is_descriptor
is_descriptor-ne-panic String.[] h = λ e. h refl
is_descriptor-ne-panic (String.◌∷◌ c s) h = λ e. cc

-- Of a conjunction of tests for an empty text that failed.
pub both_filled :
    (start end : String) → (start == "" || end == "") ≡ false → (start ≢ "") × (end ≢ "")
both_filled start end h = ground (arith, eq_iff start "", eq_iff end "")

validate_fields-ne-panic :
    (spec : String) (fields : List String) → validate_fields spec fields ≢ panic
unfolding validate_fields
validate_fields-ne-panic spec [] = λ e. cc
validate_fields-ne-panic spec (a ∷ []) = λ e. cc
validate_fields-ne-panic spec (a ∷ b ∷ []) = λ e. cc
validate_fields-ne-panic spec (a ∷ b ∷ c ∷ []) = λ e. cc
validate_fields-ne-panic spec (a ∷ b ∷ c ∷ d ∷ []) = λ e. cc
validate_fields-ne-panic spec (a ∷ b ∷ c ∷ d ∷ e ∷ []) =
    if-ne-panic (contains_range_character a || contains_range_character b) _ _ (λ _ q. cc)
      (λ _ q. cc)
validate_fields-ne-panic spec (a ∷ b ∷ c ∷ d ∷ e ∷ g ∷ rest) = λ q. cc

pub deref-ne-panic {ℓ} : {A : Type ℓ} (o : Option A) → o ≢ none → deref o ≢ panic
deref-ne-panic none h = λ _. h refl
deref-ne-panic (some a) h = λ q. cc

-- A time library that never panics.
pub record IsCalm (lib : TimeLibrary) : Type 0 where
  pub load_location_calm : (name : String) → lib.load_location name ≢ panic
  pub parse_in_location_calm :
      (text : String) (l : lib.Location) → lib.parse_in_location text l ≢ panic
  pub parse_standard_calm : (spec : String) → lib.parse_standard spec ≢ panic

module _ (lib : TimeLibrary) (calm : IsCalm lib) where
  parse_cron_schedule_spec-ne-panic :
      (spec : String) → spec ≢ "" → parse_cron_schedule_spec lib spec ≢ panic
  unfolding parse_cron_schedule_spec validate_cron_spec
  parse_cron_schedule_spec-ne-panic spec h =
      and_then-ne-panic _ _
        (and_then-ne-panic (is_descriptor spec) _ (is_descriptor-ne-panic spec h) (λ descriptor.
          and_then-ne-panic _ _
            (if-ne-panic descriptor _ _ (λ _ q. cc)
              (λ _. validate_fields-ne-panic spec (split_blanks spec)))
            (λ _.
              and_then-ne-panic (lib.parse_standard spec) _ (calm.parse_standard_calm spec)
                (λ _ q. cc))))
        (λ _. calm.parse_standard_calm spec)

  pub new_cron_scheduler-ne-panic :
      (timezone : lib.Location) (start end : String)
      → start ≢ ""
      → end ≢ ""
      → new_cron_scheduler lib timezone start end ≢ panic
  unfolding new_cron_scheduler
  new_cron_scheduler-ne-panic timezone start end h k =
      and_then-ne-panic (parse_cron_schedule_spec lib start) _
        (parse_cron_schedule_spec-ne-panic start h)
        (λ start_sched.
          and_then-ne-panic (parse_cron_schedule_spec lib end) _
            (parse_cron_schedule_spec-ne-panic end k) (λ _ q. cc))

  pub new_date_scheduler-ne-panic :
      (timezone : lib.Location) (start end : String)
      → new_date_scheduler lib timezone start end ≢ panic
  unfolding new_date_scheduler
  new_date_scheduler-ne-panic timezone start end =
      and_then-ne-panic _ _ (explain-ne-panic _ _ (calm.parse_in_location_calm start timezone))
        (λ start_time.
          and_then-ne-panic _ _ (explain-ne-panic _ _ (calm.parse_in_location_calm end timezone))
            (λ end_time. if-ne-panic (before start_time end_time) _ _ (λ _ q. cc) (λ _ q. cc)))
