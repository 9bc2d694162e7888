-- ===== src/Inventory/Stock/Events.antt =====
-- libs/backend/inventory/domain/src/stock/stock.events.ts and consumption-reason.ts.
use detailing_studio.Prelude.{ℕ, List, String}
use detailing_studio.Prelude.Int.{ℤ}
use detailing_studio.Shared.Quantity.{Quantity}
use detailing_studio.Shared.Money.{Money}
use detailing_studio.Inventory.Batch.{StockId}
use detailing_studio.Inventory.Selection.{BatchAllocation}

pub data ConsumptionReason : Type 0 where
  work_order : ℕ → ConsumptionReason
  manual sample adjustment : String → ConsumptionReason

-- The arguments of the constructors, in their order.
pub data StockEvent : Type 0 where
  stock_opened : StockId → ℕ → StockEvent
  stock_received : StockId → Quantity → Money → ℕ → StockEvent
  stock_consumed :
      StockId → Quantity → ConsumptionReason → List BatchAllocation → Money → ℕ → StockEvent
  stock_adjusted : StockId → ℤ → String → ℕ → ℕ → StockEvent
  stock_transferred_out : StockId → Quantity → ℕ → ℕ → StockEvent
  stock_transferred_in : StockId → Quantity → ℕ → StockEvent
  low_stock_reached : StockId → Quantity → Quantity → ℕ → StockEvent
  out_of_stock_reached : StockId → ℕ → StockEvent
  reorder_level_changed : StockId → Quantity → ℕ → StockEvent
