-- ===== src/Scheduling/Availability/Tests.antt =====
-- The theorems on free slots at a concrete query, and runs of the calculation.
use detailing_studio.Prelude.{
  ℕ, ◌≡◌, refl, arith, List, [], ◌∷◌, map, none, some, Result, ok, err, String, All, IsSorted, ◌&&◌,
}
use detailing_studio.Scheduling.Hours.{
  TimeOfDay, TimeRange, to_time_ranges, split_at_break, time_range, covers, range_of_minutes,
}
use detailing_studio.Scheduling.Intervals.{subtract_intervals, cut}
use detailing_studio.Scheduling.BranchSchedule.{WeeklyPattern, working_hours_at, find_exception}
use detailing_studio.Scheduling.MasterSchedule.{working_ranges_on_day}
use detailing_studio.Scheduling.Appointment.{Appointment, confirmed, manager, time_slot}
use detailing_studio.Scheduling.Availability.{
  AvailabilityError, AvailableSlot, AvailabilityQuery, calculate, masters_slots, days_slots,
  day_slots, common_ranges, window_slots, slots_from, intersect_range_lists, intersect_range,
  appointments_to_intervals, enumerate_day_starts, day_starts, slot_before, out_of_fuel,
}
use detailing_studio.Scheduling.Availability.Grid.{grid, grid_count, slots_from-eq-grid}
use detailing_studio.Scheduling.Availability.Common.{covers-intersect_range_lists}
use detailing_studio.Scheduling.Availability.Apart.{Free}
use detailing_studio.Scheduling.Availability.ValidHours.{IsValidPattern}
use detailing_studio.Scheduling.Availability.Total.{calculate_offers-Free}

abbrev at : ℕ → ℕ → TimeOfDay
at hour minute = record { hour = hour; minute = minute }

-- Open from 9:00 to 12:00 every day.
abbrev week : WeeklyPattern
week day =
    some (record { open_at = at 9 0; close_at = at 12 0; break_start = none; break_end = none })

week-IsValidPattern : IsValidPattern week
unfolding to_time_ranges split_at_break time_range
week-IsValidPattern day = (record { start = at 9 0; end = at 12 0 } ∷ [], refl, (omega arith, tt))

abbrev taken : Appointment
taken = record {
  id = 1;
  client_id = 2;
  vehicle_id = 3;
  branch_id = 4;
  bay_id = none;
  master_id = 5;
  services = [];
  slot = record { start = 36000000; end = 39600000; timezone = "UTC" };
  status = confirmed;
  cancellation_request = none;
  created_by = 6;
  created_via = manager;
  created_at = 0;
  version = 0;
  events = [];
}

-- One day, an hour of services, a master who is booked from 10:00 to 11:00.
abbrev query : AvailabilityQuery
query = record {
  branch_schedule = record {
    id = 1;
    branch_id = 4;
    weekly_pattern = week;
    exceptions = [];
    events = [];
  };
  master_schedules =
      record {
        id = 2;
        master_id = 5;
        branch_id = 4;
        weekly_pattern = week;
        unavailabilities = [];
        events = [];
      }
      ∷ [];
  existing_appointments = taken ∷ [];
  services_duration = 60;
  search_from = 0;
  search_to = 86400000;
  grid_step = some 30;
  buffer_between = none;
  master_id = none;
  timezone = "UTC";
}

some_date : ℕ → String
some_date day = "1970-01-01"

starts : Result AvailabilityError (List AvailableSlot) → List ℕ
starts (ok slots) = map (λ x. x.slot.start) slots
starts (err e) = []

-- 9:00 and 11:00.
calculate_run : starts (calculate some_date 9 query) ≡ 32400000 ∷ 39600000 ∷ []
unfolding starts calculate masters_slots days_slots day_slots common_ranges window_slots slots_from
    intersect_range_lists intersect_range appointments_to_intervals enumerate_day_starts day_starts
    working_hours_at find_exception working_ranges_on_day to_time_ranges split_at_break time_range
    time_slot range_of_minutes subtract_intervals cut
calculate_run = refl

calculate_offers-Free_example :
    (slots : List AvailableSlot) × (calculate some_date 1442 query ≡ ok slots)
    × All (Free query) slots
    × IsSorted (slot_before some_date 1442 query) slots
calculate_offers-Free_example =
    calculate_offers-Free some_date 1441 query (omega arith) (omega arith) (omega arith)
      (omega arith) (week-IsValidPattern, tt) (week-IsValidPattern, tt) (omega arith, tt)

slots_from-eq-grid_example :
    slots_from out_of_fuel 541 60 15 540 720 (λ s. ok s)
    ≡ ok (map (λ s. s) (grid 540 15 (grid_count 60 15 540 720)))
slots_from-eq-grid_example =
    slots_from-eq-grid out_of_fuel (λ s. ok s) (λ s. s) 540 60 15 540 720 (λ s. refl) (omega arith)
      (omega arith)

covers-intersect_range_lists_example :
    (rs : List TimeRange) × (intersect_range_lists
        (record { start = at 9 0; end = at 12 0 } ∷ [])
        (record { start = at 10 0; end = at 18 0 } ∷ [])
      ≡ ok rs)
    × (covers rs 600 ≡ (
        covers (record { start = at 9 0; end = at 12 0 } ∷ []) 600
        && covers (record { start = at 10 0; end = at 18 0 } ∷ []) 600))
covers-intersect_range_lists_example =
    covers-intersect_range_lists 600 (record { start = at 9 0; end = at 12 0 } ∷ [])
      (record { start = at 10 0; end = at 18 0 } ∷ []) (omega arith, tt)
