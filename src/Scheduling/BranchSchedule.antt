-- ===== src/Scheduling/BranchSchedule.antt =====
-- libs/backend/scheduling/domain/src/branch-schedule/branch-schedule.aggregate.ts and
-- value-objects/schedule-exception.value-object.ts. A date is its text; the weekly pattern gives
-- `none` for a day that is closed or missing.
pub mod Laws
use text.Mathlib.Text.{◌==◌ as str_eq}
use detailing_studio.Prelude.{
  ℕ, Bool, true, false, ◌&&◌, not, Option, none, some, List, [], ◌∷◌, ◌++◌, String, if◌then◌else◌,
  any, Result, ok, err, ◌>>=◌, ◌>>◌, throw_if,
}
use detailing_studio.Scheduling.Hours.{
  HoursError, TimeRange, WorkingDay, contains, to_time_ranges, contains_time,
}

pub data ScheduleError : Type 0 where
  duplicate_exception_date exception_not_found : String → ScheduleError
  invalid_date closed_with_range : String → ScheduleError

pub record ScheduleException : Type 0 where
  pub date : String
  pub is_closed : Bool
  pub custom_range : Option TimeRange
  pub reason : Option String

abbrev has_range : Option TimeRange → Bool
has_range none = false
has_range (some r) = true

-- `ScheduleException.from`; `is_iso_date` is the test by the pattern.
unfoldable pub schedule_exception :
    (String → Bool)
    → String
    → Bool
    → Option TimeRange
    → Option String
    → Result ScheduleError ScheduleException
schedule_exception is_iso_date date is_closed custom_range reason = do
  throw_if (not (is_iso_date date)) (invalid_date date)
  throw_if (is_closed && has_range custom_range) (closed_with_range date)
  ok (record { date = date; is_closed = is_closed; custom_range = custom_range; reason = reason })

pub data BranchScheduleEvent : Type 0 where
  branch_schedule_set : ℕ → ℕ → ℕ → BranchScheduleEvent
  branch_schedule_exception_added branch_schedule_exception_removed :
      ℕ → String → ℕ → BranchScheduleEvent

abbrev pub WeeklyPattern : Type 0
WeeklyPattern = ℕ → Option WorkingDay

pub record BranchSchedule : Type 0 where
  pub id : ℕ
  pub branch_id : ℕ
  pub weekly_pattern : WeeklyPattern
  pub exceptions : List ScheduleException
  pub events : List BranchScheduleEvent

abbrev pub has_date : String → List ScheduleException → Bool
has_date date = any (λ e. str_eq e.date date)

-- The loop with the set of the dates seen so far.
unfoldable pub unique_dates : List String → List ScheduleException → Result ScheduleError (Unit {0})
unique_dates seen [] = ok tt
unique_dates seen (e ∷ es) = do
  throw_if (any (λ d. str_eq d e.date) seen) (duplicate_exception_date e.date)
  unique_dates (e.date ∷ seen) es

unfoldable pub create :
    ℕ → ℕ → WeeklyPattern → List ScheduleException → ℕ → Result ScheduleError BranchSchedule
unfolding unique_dates
create id branch_id weekly_pattern exceptions now = do
  unique_dates [] exceptions
  ok (record {
    id = id;
    branch_id = branch_id;
    weekly_pattern = weekly_pattern;
    exceptions = exceptions;
    events = branch_schedule_set id branch_id now ∷ [];
  })

unfoldable pub replace_weekly_pattern : WeeklyPattern → ℕ → BranchSchedule → BranchSchedule
replace_weekly_pattern pattern' now s = record s {
  weekly_pattern = pattern';
  events = s.events ++ branch_schedule_set s.id s.branch_id now ∷ [];
}

unfoldable pub add_exception :
    ScheduleException → ℕ → BranchSchedule → Result ScheduleError BranchSchedule
add_exception e now s = do
  throw_if (has_date e.date s.exceptions) (duplicate_exception_date e.date)
  ok (record s {
    exceptions = s.exceptions ++ e ∷ [];
    events = s.events ++ branch_schedule_exception_added s.id e.date now ∷ [];
  })

-- `findIndex` and `splice`: the first exception of the date goes.
unfoldable pub drop_date : String → List ScheduleException → List ScheduleException
drop_date date [] = []
drop_date date (e ∷ es) = if str_eq e.date date then es else e ∷ drop_date date es

unfoldable pub remove_exception : String → ℕ → BranchSchedule → Result ScheduleError BranchSchedule
unfolding drop_date
remove_exception date now s = do
  throw_if (not (has_date date s.exceptions)) (exception_not_found date)
  ok (record s {
    exceptions = drop_date date s.exceptions;
    events = s.events ++ branch_schedule_exception_removed s.id date now ∷ [];
  })

unfoldable pub find_exception : String → List ScheduleException → Option ScheduleException
find_exception date [] = none
find_exception date (e ∷ es) = if str_eq e.date date then some e else find_exception date es

-- The last part of both queries: the weekly pattern decides.
abbrev pub weekly_open : Option WorkingDay → ℕ → Result HoursError Bool
weekly_open none minutes = ok false
weekly_open (some d) minutes = contains_time d minutes

abbrev pub weekly_ranges : Option WorkingDay → Result HoursError (List TimeRange)
weekly_ranges none = ok []
weekly_ranges (some d) = to_time_ranges d

abbrev pub exception_open :
    Option ScheduleException → Option WorkingDay → ℕ → Result HoursError Bool
exception_open none day minutes = weekly_open day minutes
exception_open (some e) day minutes =
    if e.is_closed
    then ok false
    else elim e.custom_range [ none ↦ weekly_open day minutes | some r ↦ ok (contains r minutes) ]

abbrev pub exception_ranges :
    Option ScheduleException → Option WorkingDay → Result HoursError (List TimeRange)
exception_ranges none day = weekly_ranges day
exception_ranges (some e) day =
    if e.is_closed
    then ok []
    else elim e.custom_range [ none ↦ weekly_ranges day | some r ↦ ok (r ∷ []) ]

unfoldable pub is_open_at : String → ℕ → ℕ → BranchSchedule → Result HoursError Bool
unfolding find_exception
is_open_at date day_of_week minutes s =
    exception_open (find_exception date s.exceptions) (s.weekly_pattern day_of_week) minutes

unfoldable pub working_hours_at : String → ℕ → BranchSchedule → Result HoursError (List TimeRange)
unfolding find_exception
working_hours_at date day_of_week s =
    exception_ranges (find_exception date s.exceptions) (s.weekly_pattern day_of_week)
