-- ===== src/Scheduling/Tests.antt =====
-- The theorems on schedules and appointments at concrete ones.
use detailing_studio.Prelude.{
  ℕ, ◌≡◌, refl, Bool, true, false, not, ◌&&◌, arith, List, [], ◌∷◌, none, Option, some, ok, ◌>>=◌,
  any, leb,
}
use detailing_studio.Scheduling.Hours.{TimeOfDay, TimeRange, WorkingDay, covers, contains}
use detailing_studio.Scheduling.Intervals.{interval, covered, subtract_intervals}
use detailing_studio.Scheduling.Intervals.Laws.{covered-subtract_intervals}
use detailing_studio.Scheduling.BranchSchedule.{
  WeeklyPattern, ScheduleException, BranchSchedule, add_exception, remove_exception, find_exception,
  is_open_at, working_hours_at, branch_schedule_exception_added,
}
use detailing_studio.Scheduling.BranchSchedule.Laws.{
  is_open_at-eq-working_hours_at, add_exception-remove_exception,
}
use detailing_studio.Scheduling.MasterSchedule.{
  MasterSchedule, Unavailability, unavailability, add_unavailability, subtract_unavailabilities,
  hole_of, contains_timestamp,
}
use detailing_studio.Scheduling.MasterSchedule
use detailing_studio.Scheduling.MasterSchedule.Laws.{
  here, next, adds, Disjoint, master_history-Disjoint,
}
use detailing_studio.Scheduling.MasterSchedule.Ranges.{
  takes_minute, covers-subtract_unavailabilities,
}

abbrev pub at : ℕ → ℕ → TimeOfDay
at hour minute = record { hour = hour; minute = minute }

abbrev pub open_day : WorkingDay
open_day = record {
  open_at = at 9 0;
  close_at = at 18 0;
  break_start = some (at 13 0);
  break_end = some (at 14 0);
}

-- Open on Mondays to Fridays.
abbrev pub week : WeeklyPattern
week day = if_weekday (leb day 5)
  where
    if_weekday : Bool → Option WorkingDay
    if_weekday true = some open_day
    if_weekday false = none

covered-subtract_intervals_example :
    covered
      (subtract_intervals (interval 540 1080 ∷ []) (interval 600 660 ∷ interval 630 700 ∷ []))
      650
    ≡ (covered (interval 540 1080 ∷ []) 650
        && not (covered (interval 600 660 ∷ interval 630 700 ∷ []) 650))
covered-subtract_intervals_example =
    covered-subtract_intervals 650 0 (interval 540 1080 ∷ [])
      (interval 600 660 ∷ interval 630 700 ∷ []) (omega arith, (omega arith, tt))

abbrev holiday : ScheduleException
holiday = record { date = "2026-01-01"; is_closed = true; custom_range = none; reason = none }

abbrev short_day : ScheduleException
short_day = record {
  date = "2026-02-20";
  is_closed = false;
  custom_range = some (record { start = at 10 0; end = at 12 0 });
  reason = none;
}

abbrev branch_hours : BranchSchedule
branch_hours = record {
  id = 1;
  branch_id = 1;
  weekly_pattern = week;
  exceptions = holiday ∷ [];
  events = [];
}

is_open_at-eq-working_hours_at_example :
    is_open_at "2026-01-01" 4 600 branch_hours
    ≡ (working_hours_at "2026-01-01" 4 branch_hours >>= λ ranges. ok (covers ranges 600))
is_open_at-eq-working_hours_at_example =
    is_open_at-eq-working_hours_at "2026-01-01" 4 600 branch_hours

open_run : is_open_at "2026-01-01" 4 600 branch_hours ≡ ok false
unfolding is_open_at find_exception
open_run = refl

add_exception-remove_exception_example :
    (working_hours_at "2026-02-20" 1 (record branch_hours {
      exceptions = holiday ∷ short_day ∷ [];
      events = branch_schedule_exception_added 1 "2026-02-20" 5 ∷ [];
    })
      ≡ ok (record { start = at 10 0; end = at 12 0 } ∷ []))
    × (removed : BranchSchedule) × (remove_exception "2026-02-20" 6 (record branch_hours {
      exceptions = holiday ∷ short_day ∷ [];
      events = branch_schedule_exception_added 1 "2026-02-20" 5 ∷ [];
    })
        ≡ ok removed)
    × (removed.exceptions ≡ holiday ∷ [])
unfolding add_exception
add_exception-remove_exception_example =
    add_exception-remove_exception short_day 1 5 6 branch_hours refl

abbrev leave : Unavailability
leave = record { id = 7; from_at = 0; to_at = 39630000; reason = "leave" }

-- From 9:00 to 18:00.
abbrev long_range : TimeRange
long_range = record { start = at 9 0; end = at 18 0 }

abbrev visit : Unavailability
visit = record { id = 8; from_at = 39630000; to_at = 43200000; reason = "visit" }

master_history-Disjoint_example : Disjoint (leave ∷ visit ∷ [])
unfolding add_unavailability unavailability MasterSchedule.create
master_history-Disjoint_example = master_history-Disjoint 1 1 1 0 week (
    next (next here (adds 0 39630000 "leave" 7 5 7 refl))
      (adds 39630000 43200000 "visit" 8 6 8 refl))

covers-subtract_unavailabilities_example :
    (rs : List TimeRange) × (subtract_unavailabilities 0 (leave ∷ []) long_range ≡ ok rs)
    × (covers rs 600 ≡ (contains long_range 600 && not (any (takes_minute 0 600) (leave ∷ []))))
covers-subtract_unavailabilities_example =
    covers-subtract_unavailabilities 600 0 (leave ∷ []) long_range (omega arith)
