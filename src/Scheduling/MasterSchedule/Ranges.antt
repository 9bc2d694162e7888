-- ===== src/Scheduling/MasterSchedule/Ranges.antt =====
-- The hours of a master that are left when the unavailabilities are taken out.
use detailing_studio.Prelude.{
  ℕ, suc, ◌+◌, ◌-◌, ◌*◌, ◌/◌, ◌≤◌, ◌<◌, ◌≡◌, refl, ap, ◌∙◌, Bool, true, false, not, ◌&&◌, List, [],
  ◌∷◌, map, arith, ltb, leb, ok, any, filter, IsSorted, sort-IsSorted, All, All-sort, Bool-cases,
  inl, inr,
}
use detailing_studio.Scheduling.Hours.{TimeRange, covers, contains, to_minutes}
use detailing_studio.Scheduling.MasterSchedule.{
  Unavailability, Hole, hole_of, hole_le, meets, holes_in, cut_unless_whole,
  subtract_unavailabilities, contains_timestamp, ms_per_minute,
}
use detailing_studio.Scheduling.MasterSchedule.Holes.{
  hole_has, hole_le_trans, hole_le_total, covers-cut_range, any-holes_in,
}

holes_in-All :
    (start end day_start : ℕ) (us : List Unavailability)
    → All (λ h. meets start end h ≡ true) (holes_in start end day_start us)
holes_in-All start end day_start us =
    All-sort hole_le (λ h. meets start end h ≡ true) _ (kept (map (hole_of day_start) us))
  where
    kept : (hs : List Hole) → All (λ h. meets start end h ≡ true) (filter (meets start end) hs)
    kept [] = tt
    kept (x ∷ hs) = ground (arith, kept hs)

cut_unless_whole_lem :
    (m : ℕ) (r : TimeRange) (hs : List Hole)
    → to_minutes r.end < 1440
    → IsSorted hole_le hs
    → All (λ h. meets (to_minutes r.start) (to_minutes r.end) h ≡ true) hs
    → (rs : List TimeRange) × (cut_unless_whole r hs ≡ ok rs)
      × (covers rs m ≡ (contains r m && not (any (hole_has m) hs)))
cut_unless_whole_lem m r [] day s meet = (r ∷ [], refl, ground arith)
cut_unless_whole_lem m r (h ∷ hs) day s meet =
    covers-cut_range m (to_minutes r.start) (to_minutes r.end) (to_minutes r.start) (h ∷ hs) day
      (omega arith) s meet

-- The unavailability, in milliseconds, begins before the minute of the day is over, and lasts at
-- least until it is over.
abbrev pub takes_minute : ℕ → ℕ → Unavailability → Bool
takes_minute day_start m u =
    let minute_end = day_start + suc m * 60000 in ltb u.from_at minute_end && leb minute_end u.to_at

hole_of-takes_minute :
    (day_start m : ℕ) (u : Unavailability)
    → hole_has m (hole_of day_start u) ≡ takes_minute day_start m u
hole_of-takes_minute day_start m u = ground arith

any-takes_minute :
    (day_start m : ℕ) (us : List Unavailability)
    → any (λ u. hole_has m (hole_of day_start u)) us ≡ any (takes_minute day_start m) us
any-takes_minute day_start m [] = refl
any-takes_minute day_start m (u ∷ us) =
    rw (hole_of-takes_minute day_start m u, any-takes_minute day_start m us)

-- Within a range of the day, `subtractUnavailabilities` does not throw, and what it leaves covers
-- just the minutes of the range that no unavailability takes: one takes the minute in which it
-- begins, and the later ones that are over before it ends or as it ends, but not a last minute that
-- it ends within.
pub covers-subtract_unavailabilities :
    (m day_start : ℕ) (us : List Unavailability) (r : TimeRange)
    → to_minutes r.end < 1440
    → (rs : List TimeRange) × (subtract_unavailabilities day_start us r ≡ ok rs)
      × (covers rs m ≡ (contains r m && not (any (takes_minute day_start m) us)))
unfolding subtract_unavailabilities
covers-subtract_unavailabilities m day_start us r day =
    let start = to_minutes r.start in
    let end = to_minutes r.end in
    let hs = holes_in start end day_start us in
    let (rs, result, exact) =
      cut_unless_whole_lem m r hs day
        (sort-IsSorted hole_le hole_le_trans hole_le_total
          (filter (meets start end) (map (hole_of day_start) us)))
        (holes_in-All start end day_start us) in
    elim (Bool-cases (contains r m)) [
      | inl at ↦ (
        rs,
        result,
        exact
            ∙ ap (λ c. contains r m && not c)
                (any-holes_in m start end day_start us at ∙ any-takes_minute day_start m us),
      )
      | inr away ↦ (rs, result, exact ∙ rw away)
    ]

-- An unavailability that ends within a minute frees the whole minute: where the range holds the
-- minute in which it ends, what is left covers that minute, though the master is still unavailable
-- when the minute begins.
pub unavailability_tail_free :
    (m day_start : ℕ) (u : Unavailability) (r : TimeRange)
    → to_minutes r.end < 1440
    → contains r m ≡ true
    → m ≡ (u.to_at - day_start) / ms_per_minute
    → u.from_at ≤ day_start + m * ms_per_minute
    → day_start + m * ms_per_minute < u.to_at
    → (contains_timestamp (day_start + m * ms_per_minute) u ≡ true)
      × (rs : List TimeRange) × (subtract_unavailabilities day_start (u ∷ []) r ≡ ok rs)
      × (covers rs m ≡ true)
unavailability_tail_free m day_start u r day held ends from to =
    let (rs, result, exact) = covers-subtract_unavailabilities m day_start (u ∷ []) r day in
    let free : takes_minute day_start m u ≡ false = ground arith in
    (ground arith, rs, result, exact ∙ rw (held, free))
