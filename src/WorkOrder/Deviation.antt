-- ===== src/WorkOrder/Deviation.antt =====
-- libs/backend/work-order/domain/src/services: norm-deviation-calculator.ts and closing-validator.ts.
-- The comparison with the threshold of 0.15 is over whole numbers, without the rounding of the
-- quotient. The amounts of the lines are never negative, so a negative one is not reported.
use detailing_studio.Prelude.{
  ℕ, ◌-◌, ◌*◌, Bool, true, false, ◌&&◌, Option, none, some, List, [], ◌∷◌, ◌++◌, String, ltb, ◌==◌,
  if◌then◌else◌,
}
use detailing_studio.Shared.Quantity.{Quantity}
use detailing_studio.WorkOrder.Data.{
  PhotoRef, Ratio, zero_ratio, infinite_ratio, signed_ratio, Violation, no_before_photo,
  no_after_photo, deviation_without_reason, ConsumptionLine, WorkOrder,
}

pub record DeviationResult : Type 0 where
  pub ratio : Ratio
  pub exceeds_threshold : Bool

abbrev distance : ℕ → ℕ → ℕ
distance a b = if ltb a b then b - a else a - b

-- The threshold in hundredths.
abbrev pub threshold : ℕ
threshold = 15

unfoldable pub calculate_deviation : Quantity → Quantity → DeviationResult
calculate_deviation actual norm =
    if norm.amount == 0
    then record {
      ratio = if ltb 0 actual.amount then infinite_ratio else zero_ratio;
      exceeds_threshold = ltb 0 actual.amount;
    }
    else record {
      ratio = signed_ratio actual.amount norm.amount;
      exceeds_threshold = ltb (threshold * norm.amount) (100 * distance actual.amount norm.amount);
    }

abbrev pub no_photos : List PhotoRef → Bool
no_photos [] = true
no_photos (p ∷ ps) = false

module _ (string_length : String → ℕ) where
  -- `!reason`, also of the empty string.
  abbrev pub no_reason : Option String → Bool
  no_reason none = true
  no_reason (some s) = string_length s == 0

  abbrev pub unexplained : ConsumptionLine → Bool
  unexplained l =
      (calculate_deviation l.actual_amount l.norm_amount).exceeds_threshold
      && no_reason l.deviation_reason

  unfoldable pub line_violations : List ConsumptionLine → List Violation
  line_violations [] = []
  line_violations (l ∷ ls) =
      if unexplained l
      then deviation_without_reason l.id l.sku_id
          (calculate_deviation l.actual_amount l.norm_amount).ratio
        ∷ line_violations ls
      else line_violations ls

  unfoldable pub validate : WorkOrder → List Violation
  validate w =
      (if no_photos w.photos_before then no_before_photo ∷ [] else [])
      ++ (if no_photos w.photos_after then no_after_photo ∷ [] else [])
      ++ line_violations w.lines
