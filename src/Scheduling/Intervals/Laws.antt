-- ===== src/Scheduling/Intervals/Laws.antt =====
-- The free windows are exact: they cover the minutes of the windows that no hole covers.
use detailing_studio.Prelude.{
  ℕ, ◌≤◌, ◌<◌, ◌≡◌, refl, Bool, true, false, not, ◌&&◌, List, [], ◌∷◌, ◌++◌, arith, ltb, leb,
  if◌then◌else◌, min, max, Bool-cases, inl, inr, ◌∙◌,
}
use detailing_studio.Scheduling.Intervals.{
  MinuteInterval, inside, covered, interval, tail_of, cut, cut_all, subtract_intervals,
}

-- The holes stand in the order of their starts.
abbrev pub StartsAfter : ℕ → List MinuteInterval → Type 0
StartsAfter n [] = Unit
StartsAfter n (h ∷ hs) = (n ≤ h.start_min) × StartsAfter h.start_min hs

before_all : (m n : ℕ) (hs : List MinuteInterval) → StartsAfter n hs → m < n → covered hs m ≡ false
before_all m n [] s h = refl
before_all m n (x ∷ hs) s h = ground (arith, before_all m x.start_min hs s.1 (omega arith))

covered-append :
    (m : ℕ) (xs ys : List MinuteInterval)
    → covered (xs ++ ys) m ≡ (if covered xs m then true else covered ys m)
covered-append m [] ys = refl
covered-append m (x ∷ xs) ys = ground (arith, covered-append m xs ys)

covered-tail_of :
    (m cursor : ℕ) (w : MinuteInterval)
    → covered (tail_of cursor w) m ≡ inside m (interval cursor w.end_min)
covered-tail_of m cursor w = ground arith

-- The three ways on at a hole, with `c` for what the later holes cover.
skip_step :
    (m cursor end : ℕ) (x : MinuteInterval) (c : Bool)
    → x.end_min ≤ cursor
    → (inside m (interval cursor end) && not c)
      ≡ (inside m (interval cursor end) && not (if inside m x then true else c))
skip_step m cursor end x true h = ground arith
skip_step m cursor end x false h = ground arith

break_step :
    (m cursor end : ℕ) (x : MinuteInterval) (c : Bool)
    → end ≤ x.start_min
    → (m < x.start_min → c ≡ false)
    → inside m (interval cursor end)
      ≡ (inside m (interval cursor end) && not (if inside m x then true else c))
break_step m cursor end x true h later = ground arith
break_step m cursor end x false h later = ground arith

cut_step :
    (m cursor end : ℕ) (x : MinuteInterval) (c : Bool)
    → x.start_min < end
    → cursor < x.start_min
    → (m < x.start_min → c ≡ false)
    → (if inside m (interval cursor x.start_min)
        then true
        else inside m (interval (max cursor (min x.end_min end)) end) && not c)
      ≡ (inside m (interval cursor end) && not (if inside m x then true else c))
cut_step m cursor end x true h k later = ground arith
cut_step m cursor end x false h k later = ground arith

advance_step :
    (m cursor end : ℕ) (x : MinuteInterval) (c : Bool)
    → cursor < x.end_min
    → x.start_min ≤ cursor
    → (inside m (interval (max cursor (min x.end_min end)) end) && not c)
      ≡ (inside m (interval cursor end) && not (if inside m x then true else c))
advance_step m cursor end x true h k = ground arith
advance_step m cursor end x false h k = ground arith

-- One window, from the cursor on.
covered-cut :
    (m n : ℕ) (w : MinuteInterval) (cursor : ℕ) (hs : List MinuteInterval)
    → StartsAfter n hs
    → w.start_min ≤ cursor
    → covered (cut w cursor hs) m ≡ (inside m (interval cursor w.end_min) && not (covered hs m))
unfolding cut
covered-cut m n w cursor [] s h = ground arith
covered-cut m n w cursor (x ∷ hs) s h =
    let c = covered hs m in
    let end = w.end_min in
    let later : m < x.start_min → c ≡ false = before_all m x.start_min hs s.1 in
    let next = max cursor (min x.end_min end) in
    let again = covered-cut m x.start_min w next hs s.1 (omega arith) in
    elim (Bool-cases (leb x.end_min cursor)) [
      | inl skip ↦
          rw skip (
            covered-cut m x.start_min w cursor hs s.1 h ∙ skip_step m cursor end x c (ground arith))
      | inr hits ↦ rw hits (elim (Bool-cases (leb end x.start_min)) [
        | inl past ↦
            rw past (covered-tail_of m cursor w ∙ break_step m cursor end x c (ground arith) later)
        | inr within ↦ rw within (elim (Bool-cases (ltb cursor (max x.start_min w.start_min))) [
          | inl gap ↦ rw gap (
              let starts : max x.start_min w.start_min ≡ x.start_min = ground arith in
              rw (starts, again) (cut_step m cursor end x c (ground arith) (ground arith) later))
          | inr none_left ↦
              rw none_left (again ∙ advance_step m cursor end x c (ground arith) (ground arith))
        ])
      ])
    ]

covered-cut_all :
    (m n : ℕ) (ws hs : List MinuteInterval)
    → StartsAfter n hs
    → covered (cut_all ws hs) m ≡ (covered ws m && not (covered hs m))
unfolding cut_all
covered-cut_all m n [] hs s = refl
covered-cut_all m n (w ∷ ws) hs s = ground (
  arith,
  covered-append m (cut w w.start_min hs) (cut_all ws hs),
  covered-cut m n w w.start_min hs s (omega arith),
  covered-cut_all m n ws hs s,
)

-- With the holes in the order of their starts, a minute is in a free window just where it is in a
-- window and in no hole.
pub covered-subtract_intervals :
    (m n : ℕ) (ws hs : List MinuteInterval)
    → StartsAfter n hs
    → covered (subtract_intervals ws hs) m ≡ (covered ws m && not (covered hs m))
unfolding subtract_intervals
covered-subtract_intervals m n ws [] s = ground arith
covered-subtract_intervals m n ws (h ∷ hs) s = covered-cut_all m n ws (h ∷ hs) s
