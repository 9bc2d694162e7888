-- ===== src/Inventory/Adjustment/Tests.antt =====
-- An adjustment of 2000 kopecks that is approved by a second person.
use detailing_studio.Prelude.{refl, none, some, List, [], ◌∷◌}
use detailing_studio.Prelude.Int.{negsuc, ◌+ℤ◌}
use detailing_studio.Shared.Quantity.{pcs}
use detailing_studio.Inventory.Adjustment.{
  Adjustment, AdjustmentLine, pending, approved, create, approve, line_cents, compute_total_cents,
  adjustment_created, adjustment_approved,
}
use detailing_studio.Inventory.Adjustment.Lifecycle.{
  IsValid, here, next, approves, run_command, adjustment_history-IsValid,
}

abbrev broken : List AdjustmentLine
broken =
    record {
      sku_id = 7;
      delta = record { amount = negsuc 2047; unit = pcs };
      snapshot_unit_cost = record { cents = 1000 };
    }
    ∷ []

abbrev waiting : Adjustment
waiting = record {
  id = 1;
  branch_id = 2;
  status = pending;
  reason = "broken";
  lines = broken;
  total_amount_cents = negsuc 1999;
  created_by = 3;
  approved_by = none;
  created_at = 10;
  approved_at = none;
  events = adjustment_created 1 pending 10 ∷ [];
}

abbrev decided : Adjustment
decided = record waiting {
  status = approved;
  approved_by = some 4;
  approved_at = some 11;
  events = adjustment_created 1 pending 10 ∷ adjustment_approved 1 2 broken "broken" 4 11 ∷ [];
}

adjustment_history-IsValid_example : IsValid decided
unfolding create approve run_command compute_total_cents line_cents ◌+ℤ◌
adjustment_history-IsValid_example =
    adjustment_history-IsValid 1 2 "broken" broken (record { cents = 1500 }) 3 10 {a = waiting} refl
      (next (approves 4 11) here refl)
