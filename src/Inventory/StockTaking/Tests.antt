-- ===== src/Inventory/StockTaking/Tests.antt =====
-- The theorems on stock takings at a concrete one.
use detailing_studio.Prelude.{ℕ, ◌≡◌, refl, Option, none, some, List, [], ◌∷◌, ◌++◌, All, ok}
use detailing_studio.Shared.Quantity.{Quantity, g}
use detailing_studio.Inventory.StockTaking.{
  StockTaking, StockTakingLine, StockTakingDelta, started, posted, post, stock_taking_posted,
}
use detailing_studio.Inventory.StockTaking.Laws.{adjusted, quantity_after, post_differences}

abbrev line_of : ℕ → ℕ → Option Quantity → StockTakingLine
line_of sku n actual = record {
  sku_id = sku;
  expected_quantity = record { amount = n; unit = g };
  actual_quantity = actual;
}

abbrev counted : List StockTakingLine → StockTaking
counted lines = record {
  id = 1;
  branch_id = 2;
  status = started;
  lines = lines;
  created_by = 3;
  started_at = 0;
  completed_at = none;
  events = [];
}

-- The first is less than expected, the second is not measured.
abbrev shelf : StockTaking
shelf =
    counted (line_of 7 5000 (some (record { amount = 4000; unit = g })) ∷ line_of 8 100 none ∷ [])

post_differences_example :
    (s' : StockTaking) × (ds : List StockTakingDelta) × (post 3 9 shelf ≡ ok s')
    × (s'.status ≡ posted)
    × (s'.events ≡ [] ++ stock_taking_posted 1 2 ds 3 9 ∷ [])
    × All (λ l. adjusted ds l ≡ quantity_after l) shelf.lines
post_differences_example = post_differences 3 9 shelf refl (refl, (refl, tt)) (refl, (tt, tt))
