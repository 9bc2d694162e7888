-- ===== src/Inventory/Stock/State.antt =====
-- libs/backend/inventory/domain/src/stock/stock.aggregate.ts: the fields, the factory, the average
-- cost and the loops that the methods share.
use text.Mathlib.Text.{◌==◌ as str_eq}
use detailing_studio.Prelude.{
  ℕ, ◌+◌, ◌*◌, not, Option, none, some, List, [], ◌∷◌, ◌++◌, String, leb, ◌==◌, if◌then◌else◌,
  filter, sum_by, Result, ok, ◌>>=◌, ◌>>◌, throw_if,
}
use detailing_studio.Shared.Quantity.{UnitOfMeasure, unit_eq, Quantity, amount_scale}
use detailing_studio.Shared.Quantity
use detailing_studio.Shared.Money.{Money, money_from_cents, round_div}
use detailing_studio.Shared.Money
use detailing_studio.Inventory.Batch.{
  Batch, BatchSourceType, StockId, StockError, unit_mismatch, is_depleted, total,
}
use detailing_studio.Inventory.Batch
use detailing_studio.Inventory.Selection.{BatchAllocation}
use detailing_studio.Inventory.Stock.Events.{
  StockEvent, stock_opened, stock_received, reorder_level_changed,
}

pub record Stock : Type 0 where
  pub sku_id : ℕ
  pub branch_id : ℕ
  pub base_unit : UnitOfMeasure
  pub batches : List Batch
  pub reorder_level : Quantity
  pub average_cost : Money
  pub events : List StockEvent

abbrev pub stock_id : Stock → StockId
stock_id s = (s.sku_id, s.branch_id)

abbrev pub add_event : StockEvent → Stock → Stock
add_event e s = record s { events = s.events ++ e ∷ [] }

unfoldable pub create_empty : ℕ → ℕ → UnitOfMeasure → Quantity → ℕ → Stock
create_empty sku_id branch_id base_unit reorder_level now =
    let stock : Stock = record {
      sku_id = sku_id;
      branch_id = branch_id;
      base_unit = base_unit;
      batches = [];
      reorder_level = reorder_level;
      average_cost = Money.rub 0 0;
      events = [];
    } in
    add_event (stock_opened (stock_id stock) now) stock

abbrev pub total_quantity : Stock → Quantity
total_quantity s = Quantity.of (total s.batches) s.base_unit

-- The weighted mean of the old average and the new cost, to the nearest kopeck.
unfoldable pub recalculate_average_cost : ℕ → Money → Stock → Stock
unfolding money_from_cents
recalculate_average_cost new_qty_amount new_unit_cost s =
    let existing_total = (total_quantity s).amount in
    if leb existing_total 0
    then record s { average_cost = new_unit_cost }
    else (let total_qty = existing_total + new_qty_amount in
        let avg_cents =
          round_div (existing_total * s.average_cost.cents + new_qty_amount * new_unit_cost.cents)
            total_qty in
        record s { average_cost = money_from_cents avg_cents })

pub record ReceiveBatchDetails : Type 0 where
  pub batch_id : ℕ
  pub supplier_id : Option ℕ
  pub source_type : BatchSourceType
  pub source_doc_id : String
  pub quantity : Quantity
  pub unit_cost : Money
  pub expires_at : Option ℕ
  pub received_at : ℕ

unfoldable pub receive : ReceiveBatchDetails → Stock → Result StockError Stock
unfolding recalculate_average_cost Batch.create
receive details s = do
  throw_if (not (unit_eq details.quantity.unit s.base_unit))
      (unit_mismatch details.quantity.unit s.base_unit)
  batch ← Batch.create (record {
    id = details.batch_id;
    supplier_id = details.supplier_id;
    source_type = details.source_type;
    source_doc_id = details.source_doc_id;
    quantity = details.quantity;
    unit_cost = details.unit_cost;
    expires_at = details.expires_at;
    received_at = details.received_at;
    base_unit = s.base_unit;
  })
  let s' = recalculate_average_cost details.quantity.amount details.unit_cost s
  ok (
      add_event (stock_received (stock_id s) details.quantity details.unit_cost details.received_at)
        (record s' { batches = s'.batches ++ batch ∷ [] }))

unfoldable pub change_reorder_level : Quantity → ℕ → Stock → Result StockError Stock
change_reorder_level new_level now s = do
  throw_if (not (unit_eq new_level.unit s.base_unit)) (unit_mismatch new_level.unit s.base_unit)
  ok (
      add_event (reorder_level_changed (stock_id s) new_level now)
        (record s { reorder_level = new_level }))

unfoldable pub remove_batches_by_source_doc : String → Stock → Stock
remove_batches_by_source_doc source_doc_id s = record s {
  batches = filter (λ b. not (str_eq b.source_doc_id source_doc_id)) s.batches;
}

-- `this._batches.find((b) => b.id === alloc.batchId)`.
unfoldable pub find_batch : ℕ → List Batch → Option Batch
find_batch id [] = none
find_batch id (b ∷ bs) = if b.id == id then some b else find_batch id bs

-- The batch that `find_batch` returns is decremented in place; with none, nothing happens.
unfoldable pub decrement_batch : ℕ → Quantity → List Batch → Result StockError (List Batch)
decrement_batch id amount [] = ok []
decrement_batch id amount (b ∷ bs) =
    let rest = decrement_batch id amount bs in
    if b.id == id
    then (do b' ← Batch.decrement amount b; ok (b' ∷ bs))
    else (do bs' ← rest; ok (b ∷ bs'))

-- `for (const alloc of allocations)`.
unfoldable pub decrement_all : List BatchAllocation → List Batch → Result StockError (List Batch)
decrement_all [] bs = ok bs
decrement_all (a ∷ allocs) bs = do
  bs' ← decrement_batch a.batch_id a.quantity bs
  decrement_all allocs bs'

abbrev pub remove_depleted : List Batch → List Batch
remove_depleted = filter (λ b. not (is_depleted b))

-- Each product is rounded by itself.
unfoldable pub sum_allocation_cost : List BatchAllocation → Money
unfolding money_from_cents
sum_allocation_cost allocs =
    money_from_cents
      (sum_by (λ a. round_div (a.quantity.amount * a.unit_cost.cents) amount_scale) allocs)
