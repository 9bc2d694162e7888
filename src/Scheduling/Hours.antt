-- ===== src/Scheduling/Hours.antt =====
-- libs/backend/scheduling/domain/src/value-objects: time-of-day, time-range and working-day. Hours
-- and minutes are integers that are not negative.
pub mod Laws
use detailing_studio.Prelude.{
  ℕ, ◌+◌, ◌*◌, ◌/◌, ◌%◌, Bool, true, false, not, ◌&&◌, Option, none, some, List, [], ◌∷◌, ltb, leb,
  if◌then◌else◌, any, Result, ok, err, ◌>>=◌, ◌>>◌, throw_if,
}

pub data HoursError : Type 0 where
  invalid_time_of_day invalid_time_range : ℕ → ℕ → HoursError
  open_after_close break_half_set break_reversed break_too_early break_too_late : HoursError

pub record TimeOfDay : Type 0 where
  pub hour : ℕ
  pub minute : ℕ

unfoldable pub time_of_day : ℕ → ℕ → Result HoursError TimeOfDay
time_of_day hour minute = do
  throw_if (ltb 23 hour) (invalid_time_of_day hour minute)
  throw_if (ltb 59 minute) (invalid_time_of_day hour minute)
  ok (record { hour = hour; minute = minute })

abbrev pub to_minutes : TimeOfDay → ℕ
to_minutes t = t.hour * 60 + t.minute

pub record TimeRange : Type 0 where
  pub start : TimeOfDay
  pub end : TimeOfDay

unfoldable pub time_range : TimeOfDay → TimeOfDay → Result HoursError TimeRange
time_range start end =
    if ltb (to_minutes start) (to_minutes end)
    then ok (record { start = start; end = end })
    else err (invalid_time_range (to_minutes start) (to_minutes end))

abbrev pub contains : TimeRange → ℕ → Bool
contains r minutes = leb (to_minutes r.start) minutes && ltb minutes (to_minutes r.end)

-- Some range of a list contains the minute.
abbrev pub covers : List TimeRange → ℕ → Bool
covers rs minutes = any (λ r. contains r minutes) rs

-- `TimeRange.from` at two times that are given in minutes of the day.
unfoldable pub range_of_minutes : ℕ → ℕ → Result HoursError TimeRange
unfolding time_of_day time_range
range_of_minutes from to = do
  start ← time_of_day (from / 60) (from % 60)
  end ← time_of_day (to / 60) (to % 60)
  time_range start end

pub record WorkingDay : Type 0 where
  pub open_at : TimeOfDay
  pub close_at : TimeOfDay
  pub break_start : Option TimeOfDay
  pub break_end : Option TimeOfDay

-- The tests on the break.
unfoldable pub validate_break :
    TimeOfDay → TimeOfDay → Option TimeOfDay → Option TimeOfDay → Result HoursError (Unit {0})
validate_break open_at close_at none none = ok tt
validate_break open_at close_at none (some e) = err break_half_set
validate_break open_at close_at (some b) none = err break_half_set
validate_break open_at close_at (some b) (some e) = do
  throw_if (not (ltb (to_minutes b) (to_minutes e))) break_reversed
  throw_if (leb (to_minutes b) (to_minutes open_at)) break_too_early
  throw_if (leb (to_minutes close_at) (to_minutes e)) break_too_late

unfoldable pub working_day :
    TimeOfDay → TimeOfDay → Option TimeOfDay → Option TimeOfDay → Result HoursError WorkingDay
unfolding validate_break
working_day open_at close_at break_start break_end = do
  throw_if (not (ltb (to_minutes open_at) (to_minutes close_at))) open_after_close
  validate_break open_at close_at break_start break_end
  ok (record {
    open_at = open_at;
    close_at = close_at;
    break_start = break_start;
    break_end = break_end;
  })

unfoldable pub split_at_break :
    TimeOfDay → TimeOfDay → Option TimeOfDay → Option TimeOfDay → Result HoursError (List TimeRange)
unfolding time_range
split_at_break open_at close_at (some b) (some e) = do
  morning ← time_range open_at b
  evening ← time_range e close_at
  ok (morning ∷ evening ∷ [])
split_at_break open_at close_at (some b) none = do
  whole ← time_range open_at close_at
  ok (whole ∷ [])
split_at_break open_at close_at none e = do whole ← time_range open_at close_at; ok (whole ∷ [])

unfoldable pub to_time_ranges : WorkingDay → Result HoursError (List TimeRange)
unfolding split_at_break
to_time_ranges d = split_at_break d.open_at d.close_at d.break_start d.break_end

unfoldable pub contains_time : WorkingDay → ℕ → Result HoursError Bool
contains_time d minutes = do ranges ← to_time_ranges d; ok (covers ranges minutes)
