-- ===== src/Scheduling/MasterSchedule/Holes.antt =====
-- One range of working hours, cut by the holes that unavailabilities make in it.
use detailing_studio.Prelude.{
  ℕ, ◌≤◌, ◌<◌, ◌≡◌, refl, ap, ◌∙◌, Bool, true, false, not, ◌&&◌, List, [], ◌∷◌, arith, ltb, leb, ok,
  any, insert, IsSorted, All, if◌then◌else◌, min, max, Bool-cases, inl, inr,
}
use detailing_studio.Prelude.Int.{ℤ, pos, pos_part, leb_ℤ}
use detailing_studio.Scheduling.Hours.{TimeRange, covers}
use detailing_studio.Scheduling.Hours.Laws.{range_of_minutes_lem}
use detailing_studio.Scheduling.MasterSchedule.{
  Unavailability, Hole, hole_of, hole_le, meets, holes_in, cut_range,
}

-- The minute is in the hole.
abbrev pub hole_has : ℕ → Hole → Bool
hole_has m h = leb_ℤ h.start_min (pos m) && ltb m h.end_min

not_yet :
    (m n : ℕ) (hs : List Hole)
    → All (λ h. leb_ℤ (pos n) h.start_min ≡ true) hs
    → m < n
    → any (hole_has m) hs ≡ false
not_yet m n [] s h = refl
not_yet m n (x ∷ hs) s h = ground (arith, not_yet m n hs s.1 h)

-- Past a hole that leaves a gap before it, and past one that leaves none.
gap_step :
    (m cursor n end e : ℕ) (start : ℤ) (c : Bool)
    → start ≡ pos n
    → n < end
    → cursor < n
    → (m < n → c ≡ false)
    → (if leb cursor m && ltb m n
        then true
        else (leb (max cursor (min e end)) m && ltb m end) && not c)
      ≡ ((leb cursor m && ltb m end) && not (if leb_ℤ start (pos m) && ltb m e then true else c))
gap_step m cursor n end e start true at h k later = ground arith
gap_step m cursor n end e start false at h k later = ground arith

next_step :
    (m cursor end e : ℕ) (start : ℤ) (c : Bool)
    → leb_ℤ start (pos cursor) ≡ true
    → ((leb (max cursor (min e end)) m && ltb m end) && not c)
      ≡ ((leb cursor m && ltb m end) && not (if leb_ℤ start (pos m) && ltb m e then true else c))
next_step m cursor end e start true h = ground arith
next_step m cursor end e start false h = ground arith

pub hole_le_trans : (a b c : Hole) → hole_le a b ≡ true → hole_le b c ≡ true → hole_le a c ≡ true
hole_le_trans a b c h k = ground arith

pub hole_le_total : (a b : Hole) → hole_le a b ≡ false → hole_le b a ≡ true
hole_le_total a b h = ground arith

starts_below :
    (start end n : ℕ) (h : Hole) → meets start end h ≡ true → n < pos_part h.start_min → n < end
starts_below start end n h meet k = ground arith

hole_start :
    (start end cursor : ℕ) (h : Hole)
    → start ≤ cursor
    → cursor < max (pos_part h.start_min) start
    → h.start_min ≡ pos (max (pos_part h.start_min) start)
hole_start start end cursor h le k = ground arith

-- One range, from the cursor on.
pub covers-cut_range :
    (m start end cursor : ℕ) (hs : List Hole)
    → end < 1440
    → start ≤ cursor
    → IsSorted hole_le hs
    → All (λ h. meets start end h ≡ true) hs
    → (rs : List TimeRange) × (cut_range start end cursor hs ≡ ok rs)
      × (covers rs m ≡ ((leb cursor m && ltb m end) && not (any (hole_has m) hs)))
unfolding cut_range
covers-cut_range m start end cursor [] day le s meet = elim (Bool-cases (ltb cursor end)) [
  | inl more ↦
      let (r, made, from, to) = range_of_minutes_lem cursor end (ground arith) day in
      (r ∷ [], rw (more, made), ground arith)
  | inr done ↦ ([], rw done, ground arith)
]
covers-cut_range m start end cursor (h ∷ hs) day le s meet =
    let n = max (pos_part h.start_min) start in
    let next = max cursor (min h.end_min end) in
    let (rs, rest, exact) = covers-cut_range m start end next hs day (omega arith) s.1 meet.1 in
    elim (Bool-cases (ltb cursor n)) [
      | inl gap ↦
          let at : h.start_min ≡ pos n = hole_start start end cursor h le (ground arith) in
          let below : n < end = ground arith in
          let (r, made, from, to) = range_of_minutes_lem cursor n (ground arith) (omega arith) in
          (
            r ∷ rs,
            rw (gap, made) (rw rest),
            rw (from, to, exact)
                (gap_step m cursor n end h.end_min h.start_min (any (hole_has m) hs) at below
                  (ground arith) (not_yet m n hs (rw at at s.0))),
          )
      | inr tight ↦ (
        rs,
        rw tight rest,
        exact ∙ next_step m cursor end h.end_min h.start_min (any (hole_has m) hs) (ground arith),
      )
    ]

any-insert :
    (m : ℕ) (h : Hole) (hs : List Hole)
    → any (hole_has m) (insert hole_le h hs) ≡ (if hole_has m h then true else any (hole_has m) hs)
any-insert m h [] = refl
any-insert m h (x ∷ hs) = elim (Bool-cases (hole_le h x)) [
  | inl first ↦ rw first
  | inr later ↦
      rw (later, any-insert m h hs) (swap_if (hole_has m x) (hole_has m h) (any (hole_has m) hs))
]
  where
    swap_if :
        (a b c : Bool)
        → (if a then true else if b then true else c) ≡ (if b then true else if a then true else c)
    swap_if true true c = refl
    swap_if true false c = refl
    swap_if false b c = refl

-- Of a minute of the range, the holes that are kept and sorted decide as all of them do.
pub any-holes_in :
    (m start end day_start : ℕ) (us : List Unavailability)
    → (leb start m && ltb m end) ≡ true
    → any (hole_has m) (holes_in start end day_start us)
      ≡ any (λ u. hole_has m (hole_of day_start u)) us
any-holes_in m start end day_start [] h = refl
any-holes_in m start end day_start (u ∷ us) h =
    let hole = hole_of day_start u in
    let rest = any-holes_in m start end day_start us h in
    elim (Bool-cases (meets start end hole)) [
      | inl kept ↦ rw kept (
          rw (any-insert m hole (holes_in start end day_start us))
            (ap (λ c. if hole_has m hole then true else c) rest))
      | inr dropped ↦
          let away : hole_has m hole ≡ false = outside m start end hole h dropped in
          rw (dropped, away) rest
    ]
  where
    outside :
        (m start end : ℕ) (x : Hole)
        → (leb start m && ltb m end) ≡ true
        → meets start end x ≡ false
        → hole_has m x ≡ false
    outside m start end x h k = ground arith
