-- ===== src/Scheduling/BranchSchedule/Laws.antt =====
-- The two queries of a schedule agree, and its exceptions have distinct dates.
use text.Mathlib.Text.{◌==◌ as str_eq}
use text.Mathlib.TextEquality.{eq_iff}
use text.Mathlib.TextPositions.{eq_refl}
use detailing_studio.Prelude.{
  ℕ, ◌≡◌, refl, ap, true, false, Option, none, some, List, [], ◌∷◌, ◌++◌, String, arith, any,
  if◌then◌else◌, ok, ◌>>=◌, Bool-cases, Result-cases, inl, inr, ◌∙◌,
}
use detailing_studio.Scheduling.Hours.{WorkingDay, covers, contains_time}
use detailing_studio.Scheduling.BranchSchedule.{
  BranchSchedule, ScheduleException, has_date, unique_dates, create, add_exception, drop_date,
  remove_exception, branch_schedule_exception_removed, find_exception, is_open_at, working_hours_at,
  WeeklyPattern, exception_open, exception_ranges, weekly_ranges,
}

-- Asking whether a branch is open at a minute is asking whether its hours cover the minute.
pub is_open_at-eq-working_hours_at :
    (date : String) (day minutes : ℕ) (s : BranchSchedule)
    → is_open_at date day minutes s
      ≡ (working_hours_at date day s >>= λ ranges. ok (covers ranges minutes))
unfolding is_open_at working_hours_at contains_time
is_open_at-eq-working_hours_at date day minutes s =
    agree (find_exception date s.exceptions) (s.weekly_pattern day)
  where
    agree :
        (e : Option ScheduleException) (d : Option WorkingDay)
        → exception_open e d minutes
          ≡ (exception_ranges e d >>= λ ranges. ok (covers ranges minutes))
    agree none none = refl
    agree none (some d) = refl
    agree (some e) none = ground arith
    agree (some e) (some d) = ground arith

-- No two exceptions have one date.
abbrev pub DistinctDates : List ScheduleException → Type 0
DistinctDates [] = Unit
DistinctDates (e ∷ es) = (has_date e.date es ≡ false) × DistinctDates es

-- A date that was seen does not come again.
seen_before :
    (d : String) (seen : List String) (es : List ScheduleException)
    → unique_dates seen es ≡ ok tt
    → any (λ x. str_eq x d) seen ≡ true
    → has_date d es ≡ false
unfolding unique_dates
seen_before d seen [] h s = refl
seen_before d seen (e ∷ es) h s = elim (Bool-cases (any (λ x. str_eq x e.date) seen)) [
  | inl again ↦ absurd (let failed = rw again at h in cc)
  | inr new ↦
      let rest = seen_before d (e.date ∷ seen) es (rw new at h) (ground arith) in
      elim (Bool-cases (str_eq e.date d)) [
        | inl same ↦ absurd (
            let date_eq : e.date ≡ d = (eq_iff e.date d).0 same in
            let clash = rw date_eq at new in cc)
        | inr other ↦ rw other rest
      ]
]

unique_dates-DistinctDates :
    (seen : List String) (es : List ScheduleException)
    → unique_dates seen es ≡ ok tt
    → DistinctDates es
unfolding unique_dates
unique_dates-DistinctDates seen [] h = tt
unique_dates-DistinctDates seen (e ∷ es) h = elim (Bool-cases (any (λ x. str_eq x e.date) seen)) [
  | inl again ↦ absurd (let failed = rw again at h in cc)
  | inr new ↦
      let rest = rw new at h in
      (
        seen_before e.date (e.date ∷ seen) es rest (rw (eq_refl e.date)),
        unique_dates-DistinctDates (e.date ∷ seen) es rest,
      )
]

-- A schedule that `create` accepts has no two exceptions of one date.
pub create-DistinctDates :
    (id branch now : ℕ) (p : WeeklyPattern) (es : List ScheduleException) {s : BranchSchedule}
    → create id branch p es now ≡ ok s
    → DistinctDates s.exceptions
unfolding create
create-DistinctDates id branch now p es {s} h = elim (Result-cases (unique_dates [] es)) [
  | inl (u, e) ↦
      let same : s.exceptions ≡ es = ground arith in rw same (unique_dates-DistinctDates [] es (e))
  | inr (x, e) ↦ absurd (ground arith)
]

has_date-append :
    (d : String) (es : List ScheduleException) (e : ScheduleException)
    → str_eq e.date d ≡ false
    → has_date d (es ++ e ∷ []) ≡ has_date d es
has_date-append d [] e h = rw h
has_date-append d (x ∷ es) e h = ground (arith, has_date-append d es e h)

append-DistinctDates :
    (es : List ScheduleException) (e : ScheduleException)
    → DistinctDates es
    → has_date e.date es ≡ false
    → DistinctDates (es ++ e ∷ [])
append-DistinctDates [] e d h = (refl, tt)
append-DistinctDates (x ∷ es) e d h = elim (Bool-cases (str_eq x.date e.date)) [
  | inl same ↦ absurd (let clash = rw same at h in cc)
  | inr other ↦
      let other' : str_eq e.date x.date ≡ false =
        ground (arith, eq_iff x.date e.date, eq_iff e.date x.date) in
      (has_date-append x.date es e other' ∙ d.0, append-DistinctDates es e d.1 (rw other at h))
]

has_date-drop_date :
    (d date : String) (es : List ScheduleException)
    → has_date d es ≡ false
    → has_date d (drop_date date es) ≡ false
unfolding drop_date
has_date-drop_date d date [] h = refl
has_date-drop_date d date (e ∷ es) h = ground (arith, has_date-drop_date d date es)

drop_date-DistinctDates :
    (date : String) (es : List ScheduleException)
    → DistinctDates es
    → DistinctDates (drop_date date es)
unfolding drop_date
drop_date-DistinctDates date [] d = tt
drop_date-DistinctDates date (e ∷ es) d =
    ground (arith, drop_date-DistinctDates date es d.1, has_date-drop_date e.date date es d.0)

-- Adding and removing exceptions keeps their dates distinct.
pub change-DistinctDates :
    (e : ScheduleException) (date : String) (now : ℕ) (s : BranchSchedule)
    {added removed : BranchSchedule}
    → DistinctDates s.exceptions
    → add_exception e now s ≡ ok added
    → remove_exception date now s ≡ ok removed
    → DistinctDates added.exceptions × DistinctDates removed.exceptions
unfolding add_exception remove_exception
change-DistinctDates e date now s {added} {removed} d a r =
    let new : has_date e.date s.exceptions ≡ false = ground arith in
    let longer : added.exceptions ≡ s.exceptions ++ e ∷ [] = ground arith in
    let shorter : removed.exceptions ≡ drop_date date s.exceptions = ground arith in
    (
      rw longer (append-DistinctDates s.exceptions e d new),
      rw shorter (drop_date-DistinctDates date s.exceptions d),
    )

drop_date-append :
    (e : ScheduleException) (es : List ScheduleException)
    → has_date e.date es ≡ false
    → drop_date e.date (es ++ e ∷ []) ≡ es
unfolding drop_date
drop_date-append e [] h = rw (eq_refl e.date)
drop_date-append e (x ∷ es) h = ground (arith, drop_date-append e es)

has_date-append_self :
    (e : ScheduleException) (es : List ScheduleException) → has_date e.date (es ++ e ∷ []) ≡ true
has_date-append_self e [] = rw (eq_refl e.date)
has_date-append_self e (x ∷ es) = ground (arith, has_date-append_self e es)

find_exception-append :
    (e : ScheduleException) (es : List ScheduleException)
    → has_date e.date es ≡ false
    → find_exception e.date (es ++ e ∷ []) ≡ some e
unfolding find_exception
find_exception-append e [] h = rw (eq_refl e.date)
find_exception-append e (x ∷ es) h = ground (arith, find_exception-append e es)

-- After an exception was added, its date has no hours where it closes the date, its range where it
-- has one, and the weekly hours otherwise; when it is removed again the exceptions are as before.
pub add_exception-remove_exception :
    (e : ScheduleException) (day now later : ℕ) (s : BranchSchedule) {added : BranchSchedule}
    → add_exception e now s ≡ ok added
    → (working_hours_at e.date day added ≡ (
        if e.is_closed then ok [] else elim e.custom_range [
          | none ↦ weekly_ranges (s.weekly_pattern day)
          | some r ↦ ok (r ∷ [])
        ]))
      × (removed : BranchSchedule) × (remove_exception e.date later added ≡ ok removed)
      × (removed.exceptions ≡ s.exceptions)
unfolding add_exception remove_exception working_hours_at
add_exception-remove_exception e day now later s {added} a =
    let new : has_date e.date s.exceptions ≡ false = ground arith in
    let longer : added.exceptions ≡ s.exceptions ++ e ∷ [] = ground arith in
    let decides : find_exception e.date added.exceptions ≡ some e =
      rw longer (find_exception-append e s.exceptions new) in
    let weekly : added.weekly_pattern ≡ s.weekly_pattern = ground arith in
    let found : has_date e.date added.exceptions ≡ true =
      rw longer (has_date-append_self e s.exceptions) in
    (
      ap (λ x. exception_ranges x (added.weekly_pattern day)) decides
          ∙ ap (λ p. exception_ranges (some e) (p day)) weekly,
      record added {
        exceptions = drop_date e.date added.exceptions;
        events = added.events ++ branch_schedule_exception_removed added.id e.date later ∷ [];
      },
      rw found,
      rw longer (drop_date-append e s.exceptions new),
    )
