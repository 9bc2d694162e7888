-- ===== src/Scheduling/Intervals.antt =====
-- libs/backend/scheduling/domain/src/services/availability-calculator.ts: the intervals of minutes
-- of a day, and the parts of windows that no hole covers.
pub mod Laws
use detailing_studio.Prelude.{
  ℕ, ◌+◌, ◌-◌, ◌*◌, ◌/◌, Bool, ◌&&◌, List, [], ◌∷◌, ◌++◌, ltb, leb, if◌then◌else◌, any, min, max,
  Option, none, some, zero, suc,
}

pub record MinuteInterval : Type 0 where
  pub start_min : ℕ
  pub end_min : ℕ

abbrev pub inside : ℕ → MinuteInterval → Bool
inside m i = leb i.start_min m && ltb m i.end_min

abbrev pub covered : List MinuteInterval → ℕ → Bool
covered is m = any (inside m) is

abbrev pub interval : ℕ → ℕ → MinuteInterval
interval a b = record { start_min = a; end_min = b }

-- What the end of the loop adds for a window.
abbrev pub tail_of : ℕ → MinuteInterval → List MinuteInterval
tail_of cursor w = if ltb cursor w.end_min then interval cursor w.end_min ∷ [] else []

-- The loop over the holes of a window, with `continue` and `break`.
unfoldable pub cut : MinuteInterval → ℕ → List MinuteInterval → List MinuteInterval
cut w cursor [] = tail_of cursor w
cut w cursor (h ∷ hs) =
    let skipped = cut w cursor hs in
    let hole_start = max h.start_min w.start_min in
    let rest = cut w (max cursor (min h.end_min w.end_min)) hs in
    if leb h.end_min cursor
    then skipped
    else (if leb w.end_min h.start_min
        then tail_of cursor w
        else (if ltb cursor hole_start then interval cursor hole_start ∷ rest else rest))

unfoldable pub cut_all : List MinuteInterval → List MinuteInterval → List MinuteInterval
cut_all [] holes = []
cut_all (w ∷ ws) holes = cut w w.start_min holes ++ cut_all ws holes

-- With no hole the windows are returned as they are.
unfoldable pub subtract_intervals : List MinuteInterval → List MinuteInterval → List MinuteInterval
unfolding cut_all
subtract_intervals ws [] = ws
subtract_intervals ws (h ∷ hs) = cut_all ws (h ∷ hs)
