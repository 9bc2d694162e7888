-- ===== src/Scheduling/MasterSchedule.antt =====
-- libs/backend/scheduling/domain/src/master-schedule/master-schedule.aggregate.ts and
-- value-objects/unavailability.value-object.ts.
pub mod Holes
pub mod Laws
pub mod Ranges
use detailing_studio.Prelude.{
  ℕ, suc, ◌+◌, ◌-◌, ◌*◌, ◌/◌, ◌%◌, Bool, true, false, not, ◌&&◌, Option, none, some, List, [], ◌∷◌,
  ◌++◌, map, String, ltb, leb, ◌==◌, if◌then◌else◌, any, filter, sort, min, max, Result, ok, err,
  ◌>>=◌, ◌>>◌, throw_if,
}
use detailing_studio.Prelude.Int.{ℤ, pos, negsuc, pos_part, leb_ℤ, ltb_ℤ}
use detailing_studio.Scheduling.Hours.{
  HoursError, TimeOfDay, TimeRange, WorkingDay, to_minutes, contains_time, to_time_ranges,
  range_of_minutes,
}
use detailing_studio.Scheduling.BranchSchedule.{WeeklyPattern}

pub data MasterScheduleError : Type 0 where
  unavailability_overlaps : MasterScheduleError
  unavailability_not_found : ℕ → MasterScheduleError
  invalid_unavailability_period : ℕ → ℕ → MasterScheduleError

pub record Unavailability : Type 0 where
  pub id : ℕ
  pub from_at : ℕ
  pub to_at : ℕ
  pub reason : String

unfoldable pub unavailability : ℕ → ℕ → ℕ → String → Result MasterScheduleError Unavailability
unavailability id from_at to_at reason = do
  throw_if (leb to_at from_at) (invalid_unavailability_period from_at to_at)
  ok (record { id = id; from_at = from_at; to_at = to_at; reason = reason })

abbrev pub contains_timestamp : ℕ → Unavailability → Bool
contains_timestamp ms u = leb u.from_at ms && ltb ms u.to_at

abbrev pub overlaps_with : Unavailability → Unavailability → Bool
overlaps_with u v = ltb u.from_at v.to_at && ltb v.from_at u.to_at

pub data MasterScheduleEvent : Type 0 where
  master_schedule_created : ℕ → ℕ → ℕ → ℕ → MasterScheduleEvent
  master_schedule_updated : ℕ → ℕ → MasterScheduleEvent
  master_unavailability_added : ℕ → ℕ → ℕ → ℕ → ℕ → MasterScheduleEvent
  master_unavailability_removed : ℕ → ℕ → ℕ → MasterScheduleEvent

pub record MasterSchedule : Type 0 where
  pub id : ℕ
  pub master_id : ℕ
  pub branch_id : ℕ
  pub weekly_pattern : WeeklyPattern
  pub unavailabilities : List Unavailability
  pub events : List MasterScheduleEvent

unfoldable pub create : ℕ → ℕ → ℕ → WeeklyPattern → ℕ → MasterSchedule
create id master_id branch_id weekly_pattern now = record {
  id = id;
  master_id = master_id;
  branch_id = branch_id;
  weekly_pattern = weekly_pattern;
  unavailabilities = [];
  events = master_schedule_created id master_id branch_id now ∷ [];
}

unfoldable pub replace_weekly_pattern : WeeklyPattern → ℕ → MasterSchedule → MasterSchedule
replace_weekly_pattern new_pattern now s = record s {
  weekly_pattern = new_pattern;
  events = s.events ++ master_schedule_updated s.id now ∷ [];
}

-- The id is the one that the generator hands out.
unfoldable pub add_unavailability :
    ℕ → ℕ → String → ℕ → ℕ → MasterSchedule → Result MasterScheduleError (MasterSchedule × ℕ)
unfolding unavailability
add_unavailability from_at to_at reason id now s = do
  u ← unavailability id from_at to_at reason
  throw_if (any (λ existing. overlaps_with existing u) s.unavailabilities) unavailability_overlaps
  ok (
    record s {
      unavailabilities = s.unavailabilities ++ u ∷ [];
      events = s.events ++ master_unavailability_added s.id u.id from_at to_at now ∷ [];
    },
    u.id,
  )

-- `findIndex` and `splice`.
unfoldable pub drop_unavailability : ℕ → List Unavailability → List Unavailability
drop_unavailability id [] = []
drop_unavailability id (u ∷ us) = if u.id == id then us else u ∷ drop_unavailability id us

unfoldable pub remove_unavailability :
    ℕ → ℕ → MasterSchedule → Result MasterScheduleError MasterSchedule
unfolding drop_unavailability
remove_unavailability id now s = do
  throw_if (not (any (λ u. u.id == id) s.unavailabilities)) (unavailability_not_found id)
  ok (record s {
    unavailabilities = drop_unavailability id s.unavailabilities;
    events = s.events ++ master_unavailability_removed s.id id now ∷ [];
  })

abbrev pub weekly_available : Option WorkingDay → ℕ → Result HoursError Bool
weekly_available none minutes = ok false
weekly_available (some d) minutes = contains_time d minutes

unfoldable pub is_available_at : ℕ → ℕ → ℕ → MasterSchedule → Result HoursError Bool
is_available_at day_of_week minutes at s =
    if any (contains_timestamp at) s.unavailabilities
    then ok false
    else weekly_available (s.weekly_pattern day_of_week) minutes

-- The minutes of a day that an unavailability takes; it may begin on an earlier day.
pub record Hole : Type 0 where
  pub start_min : ℤ
  pub end_min : ℕ

abbrev pub ms_per_minute : ℕ
ms_per_minute = 60000

-- `Math.floor((ms - dayStartMs) / MS_PER_MINUTE)`.
abbrev pub floor_minutes : ℕ → ℕ → ℤ
floor_minutes ms day_start =
    if leb day_start ms
    then pos ((ms - day_start) / ms_per_minute)
    else negsuc ((day_start - ms - 1) / ms_per_minute)

-- The unavailability ends after the day has begun, so its end is not negative.
abbrev pub hole_of : ℕ → Unavailability → Hole
hole_of day_start u = record {
  start_min = floor_minutes u.from_at day_start;
  end_min = (u.to_at - day_start) / ms_per_minute;
}

abbrev pub hole_le : Hole → Hole → Bool
hole_le a b = leb_ℤ a.start_min b.start_min

abbrev pub meets : ℕ → ℕ → Hole → Bool
meets start end h = ltb_ℤ h.start_min (pos end) && ltb start h.end_min

abbrev add_range :
    TimeRange → Result HoursError (List TimeRange) → Result HoursError (List TimeRange)
add_range r rest = do rs ← rest; ok (r ∷ rs)

-- The loop over the holes of a range, from the cursor on.
unfoldable pub cut_range : ℕ → ℕ → ℕ → List Hole → Result HoursError (List TimeRange)
cut_range start end cursor [] =
    if ltb cursor end then (do r ← range_of_minutes cursor end; ok (r ∷ [])) else ok []
cut_range start end cursor (h ∷ hs) =
    let hole_start = max (pos_part h.start_min) start in
    let rest = cut_range start end (max cursor (min h.end_min end)) hs in
    if ltb cursor hole_start
    then (do r ← range_of_minutes cursor hole_start; add_range r rest)
    else rest

-- The holes that meet the range, by their starts.
abbrev pub holes_in : ℕ → ℕ → ℕ → List Unavailability → List Hole
holes_in start end day_start us =
    sort hole_le (filter (meets start end) (map (hole_of day_start) us))

abbrev cut_unless_whole : TimeRange → List Hole → Result HoursError (List TimeRange)
cut_unless_whole r [] = ok (r ∷ [])
cut_unless_whole r (h ∷ hs) =
    cut_range (to_minutes r.start) (to_minutes r.end) (to_minutes r.start) (h ∷ hs)

unfoldable pub subtract_unavailabilities :
    ℕ → List Unavailability → TimeRange → Result HoursError (List TimeRange)
unfolding cut_range
subtract_unavailabilities day_start us r =
    cut_unless_whole r (holes_in (to_minutes r.start) (to_minutes r.end) day_start us)

-- `flatMap`.
unfoldable pub subtract_from_all :
    ℕ → List Unavailability → List TimeRange → Result HoursError (List TimeRange)
unfolding subtract_unavailabilities
subtract_from_all day_start us [] = ok []
subtract_from_all day_start us (r ∷ rs) =
    let rest = subtract_from_all day_start us rs in
    (do xs ← subtract_unavailabilities day_start us r; ys ← rest; ok (xs ++ ys))

abbrev pub unless_free :
    ℕ → List Unavailability → List TimeRange → Result HoursError (List TimeRange)
unless_free day_start [] ranges = ok ranges
unless_free day_start (u ∷ us) ranges = subtract_from_all day_start (u ∷ us) ranges

abbrev pub weekly_ranges : Option WorkingDay → Result HoursError (List TimeRange)
weekly_ranges none = ok []
weekly_ranges (some d) = to_time_ranges d

-- A day with no working hours has no unavailability to subtract from either.
unfoldable pub working_ranges_on_day :
    ℕ → ℕ → ℕ → MasterSchedule → Result HoursError (List TimeRange)
unfolding subtract_from_all
working_ranges_on_day day_of_week day_start day_end s = do
  base ← weekly_ranges (s.weekly_pattern day_of_week)
  unless_free day_start
      (filter (λ u. ltb u.from_at day_end && ltb day_start u.to_at) s.unavailabilities) base
