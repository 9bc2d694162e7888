-- ===== src/Scheduling/Availability/Common.antt =====
-- The ranges that the branch and the master share.
use detailing_studio.Prelude.{
  ℕ, ◌<◌, ◌≡◌, refl, ◌∙◌, inl, inr, Bool, true, false, ◌&&◌, List, [], ◌∷◌, ◌++◌, arith, ltb, leb,
  if◌then◌else◌, All, All-append, min, max, ok, Bool-cases, Result-cases,
}
use detailing_studio.Scheduling.Hours.{TimeRange, contains, covers, to_minutes, range_of_minutes}
use detailing_studio.Scheduling.Hours.Laws.{range_of_minutes_lem}
use detailing_studio.Scheduling.Availability.{intersect_range, intersect_range_lists}

-- The ranges that `TimeRange.from` accepts end within the day.
abbrev pub WithinDay : List TimeRange → Type 0
WithinDay = All (λ r. to_minutes r.end < 1440)

intersect_range_lem :
    (m : ℕ) (a : TimeRange) (bs : List TimeRange)
    → to_minutes a.end < 1440
    → (rs : List TimeRange) × (intersect_range a bs ≡ ok rs)
      × (covers rs m ≡ (contains a m && covers bs m))
unfolding intersect_range
intersect_range_lem m a [] day = ([], refl, ground arith)
intersect_range_lem m a (b ∷ bs) day =
    let start = max (to_minutes a.start) (to_minutes b.start) in
    let end = min (to_minutes a.end) (to_minutes b.end) in
    let (rs, rest, exact) = intersect_range_lem m a bs day in
    elim (Bool-cases (ltb start end)) [
      | inl meet ↦
          let (r, made, from, to) = range_of_minutes_lem start end (ground arith) (omega arith) in
          (r ∷ rs, rw (meet, made) (rw rest), rw (from, to, exact) (both m a b (covers bs m)))
      | inr apart ↦ (rs, rw apart rest, exact ∙ neither m a b (covers bs m) apart)
    ]
  where
    both :
        (m : ℕ) (a b : TimeRange) (c : Bool)
        → (if leb (max (to_minutes a.start) (to_minutes b.start)) m
              && ltb m (min (to_minutes a.end) (to_minutes b.end))
            then true
            else contains a m && c)
          ≡ (contains a m && (if contains b m then true else c))
    both m a b true = ground arith
    both m a b false = ground arith

    neither :
        (m : ℕ) (a b : TimeRange) (c : Bool)
        → ltb
            (max (to_minutes a.start) (to_minutes b.start))
            (min (to_minutes a.end) (to_minutes b.end))
          ≡ false
        → (contains a m && c) ≡ (contains a m && (if contains b m then true else c))
    neither m a b true h = ground arith
    neither m a b false h = ground arith

covers-append :
    (m : ℕ) (xs ys : List TimeRange)
    → covers (xs ++ ys) m ≡ (if covers xs m then true else covers ys m)
covers-append m [] ys = refl
covers-append m (x ∷ xs) ys = ground (arith, covers-append m xs ys)

-- Where the first ranges end within the day, `intersectRangeLists` does not throw, and what it
-- gives covers just the minutes that both lists cover.
pub covers-intersect_range_lists :
    (m : ℕ) (as' bs : List TimeRange)
    → WithinDay as'
    → (rs : List TimeRange) × (intersect_range_lists as' bs ≡ ok rs)
      × (covers rs m ≡ (covers as' m && covers bs m))
unfolding intersect_range_lists
covers-intersect_range_lists m [] bs day = ([], refl, refl)
covers-intersect_range_lists m (a ∷ as') bs day =
    let (rs, made, exact) = intersect_range_lem m a bs day.0 in
    let (more, rest, exact') = covers-intersect_range_lists m as' bs day.1 in
    (
      rs ++ more,
      rw made (rw rest),
      covers-append m rs more
          ∙ rw (exact, exact') (either (contains a m) (covers as' m) (covers bs m)),
    )
  where
    either : (a b c : Bool) → (if a && c then true else b && c) ≡ ((if a then true else b) && c)
    either true b true = refl
    either true true false = refl
    either true false false = refl
    either false b c = refl

range_of_minutes-WithinDay :
    (from to : ℕ) (r : TimeRange) → range_of_minutes from to ≡ ok r → to_minutes r.end < 1440
unfolding range_of_minutes
range_of_minutes-WithinDay from to r h = ground arith

intersect_range-WithinDay :
    (a : TimeRange) (bs : List TimeRange) {rs : List TimeRange}
    → intersect_range a bs ≡ ok rs
    → WithinDay rs
unfolding intersect_range
intersect_range-WithinDay a [] {rs} h = let same : rs ≡ [] = ground arith in rw same tt
intersect_range-WithinDay a (b ∷ bs) {rs} h =
    let start = max (to_minutes a.start) (to_minutes b.start) in
    let end = min (to_minutes a.end) (to_minutes b.end) in
    elim (Bool-cases (ltb start end)) [
      | inl meet ↦ elim (Result-cases (range_of_minutes start end)) [
        | inl (r, made) ↦ elim (Result-cases (intersect_range a bs)) [
          | inl (rs', rest) ↦
              let h' = rw (meet, made) at h in
              let h'' = rw rest at h' in
              let same : rs ≡ r ∷ rs' = cc in
              rw same
                (range_of_minutes-WithinDay start end r made, intersect_range-WithinDay a bs rest)
          | inr (x, failed) ↦
              absurd (let h' = rw (meet, made) at h in let h'' = rw failed at h' in cc)
        ]
        | inr (x, failed) ↦ absurd (let h' = rw (meet, failed) at h in cc)
      ]
      | inr apart ↦ intersect_range-WithinDay a bs (rw apart at h)
    ]

-- Whatever the ranges, those that both lists share end within the day.
pub intersect_range_lists-WithinDay :
    (as' bs : List TimeRange) {rs : List TimeRange}
    → intersect_range_lists as' bs ≡ ok rs
    → WithinDay rs
unfolding intersect_range_lists
intersect_range_lists-WithinDay [] bs {rs} h = let same : rs ≡ [] = ground arith in rw same tt
intersect_range_lists-WithinDay (a ∷ as') bs {rs} h = elim (Result-cases (intersect_range a bs)) [
  | inl (xs, made) ↦ elim (Result-cases (intersect_range_lists as' bs)) [
    | inl (ys, rest) ↦
        let h' = rw made at h in
        let h'' = rw rest at h' in
        let same : rs ≡ xs ++ ys = cc in
        rw same (
          All-append (λ r. to_minutes r.end < 1440) xs ys (intersect_range-WithinDay a bs made)
            (intersect_range_lists-WithinDay as' bs rest))
    | inr (x, failed) ↦ absurd (let h' = rw made at h in let h'' = rw failed at h' in cc)
  ]
  | inr (x, failed) ↦ absurd (let h' = rw failed at h in cc)
]
