-- ===== src/Inventory/Stock/Movement.antt =====
-- libs/backend/inventory/domain/src/stock/stock.aggregate.ts: consumption, adjustment and transfer.
use detailing_studio.Prelude.{
  ℕ, zero, suc, not, ◌&&◌, Option, none, some, List, [], ◌∷◌, ◌++◌, String, map, ltb, leb, ◌==◌,
  if◌then◌else◌, Result, ok, ◌>>=◌, ◌>>◌, throw_if,
}
use detailing_studio.Prelude.Int.{ℤ, pos, negsuc}
use detailing_studio.Shared.Quantity.{UnitOfMeasure, unit_eq, Quantity}
use detailing_studio.Shared.Quantity
use detailing_studio.Shared.Money.{Money}
use detailing_studio.Inventory.Batch.{Batch, StockError, unit_mismatch, insufficient_stock, total}
use detailing_studio.Inventory.Batch
use detailing_studio.Inventory.Selection.{BatchAllocation, BatchSelector}
use detailing_studio.Inventory.Stock.Events.{
  ConsumptionReason, stock_consumed, stock_adjusted, stock_transferred_out, stock_transferred_in,
  low_stock_reached, out_of_stock_reached,
}
use detailing_studio.Inventory.Stock.State.{
  Stock, stock_id, add_event, total_quantity, find_batch, decrement_all, remove_depleted,
  sum_allocation_cost,
}

-- The guards that `consume`, `transferOut` and a negative `adjust` begin with.
abbrev ensure_unit : UnitOfMeasure → Stock → Result StockError (Unit {0})
ensure_unit unit s = throw_if (not (unit_eq unit s.base_unit)) (unit_mismatch unit s.base_unit)

abbrev ensure_sufficient : Quantity → Stock → Result StockError (Unit {0})
ensure_sufficient amount s =
    throw_if (ltb (total s.batches) amount.amount)
      (insufficient_stock (stock_id s) (total_quantity s) amount)

pub record WriteOffResult : Type 0 where
  pub allocations : List BatchAllocation
  pub total_cost : Money

-- The last events of `consume`, from the totals before and after.
unfoldable pub level_events : Quantity → ℕ → Stock → Stock
level_events total_before at s =
    let total_after = total_quantity s in
    if total_after.amount == 0
    then add_event (out_of_stock_reached (stock_id s) at) s
    else (if leb total_after.amount s.reorder_level.amount
          && ltb s.reorder_level.amount total_before.amount
        then add_event (low_stock_reached (stock_id s) total_after s.reorder_level at) s
        else s)

unfoldable pub consume :
    Quantity
    → ConsumptionReason
    → BatchSelector
    → ℕ
    → Stock
    → Result StockError (Stock × WriteOffResult)
consume amount reason select at s = do
  ensure_unit amount.unit s
  ensure_sufficient amount s
  let allocations = select s.batches amount at
  bs ← decrement_all allocations s.batches
  let total_cost = sum_allocation_cost allocations
  let s' =
      add_event (stock_consumed (stock_id s) amount reason allocations total_cost at)
        (record s { batches = remove_depleted bs })
  ok (
    level_events (total_quantity s) at s',
    record { allocations = allocations; total_cost = total_cost },
  )

-- The branches of `adjust` by the sign of the change; zero changes nothing.
unfoldable pub adjust_batches :
    ℤ → String → BatchSelector → ℕ → ℕ → Stock → Result StockError (List Batch)
unfolding Batch.create
adjust_batches (pos (suc n)) reason select at batch_id s = do
  batch ← Batch.create (record {
    id = batch_id;
    supplier_id = none;
    source_type = Batch.adjustment;
    source_doc_id = reason;
    quantity = Quantity.of (suc n) s.base_unit;
    unit_cost = s.average_cost;
    expires_at = none;
    received_at = at;
    base_unit = s.base_unit;
  })
  ok (s.batches ++ batch ∷ [])
adjust_batches (pos zero) reason select at batch_id s = ok s.batches
adjust_batches (negsuc n) reason select at batch_id s = do
  let abs_amount = Quantity.of (suc n) s.base_unit
  ensure_sufficient abs_amount s
  bs ← decrement_all (select s.batches abs_amount at) s.batches
  ok (remove_depleted bs)

-- libs/backend/inventory/domain/src/value-objects/signed-quantity.value-object.ts.
pub record SignedQuantity : Type 0 where
  pub amount : ℤ
  pub unit : UnitOfMeasure

unfoldable pub adjust :
    SignedQuantity → String → ℕ → BatchSelector → ℕ → ℕ → Stock → Result StockError Stock
unfolding adjust_batches
adjust delta reason by select at batch_id s = do
  ensure_unit delta.unit s
  bs ← adjust_batches delta.amount reason select at batch_id s
  ok (add_event (stock_adjusted (stock_id s) delta.amount reason by at) (record s { batches = bs }))

pub record TransferBatchDetail : Type 0 where
  pub quantity : Quantity
  pub unit_cost : Money
  pub expires_at : Option ℕ

pub record TransferDetails : Type 0 where
  pub allocations : List TransferBatchDetail
  pub total_amount : Quantity

-- `batch?.expiresAt ?? null`.
abbrev pub expiry_of : Option Batch → Option ℕ
expiry_of none = none
expiry_of (some b) = b.expires_at

-- The detail of an allocation, with the expiry of its batch.
abbrev pub transfer_detail : List Batch → BatchAllocation → TransferBatchDetail
transfer_detail bs a = record {
  quantity = a.quantity;
  unit_cost = a.unit_cost;
  expires_at = expiry_of (find_batch a.batch_id bs);
}

unfoldable pub transfer_out :
    Quantity → ℕ → BatchSelector → ℕ → Stock → Result StockError (Stock × TransferDetails)
transfer_out amount target_branch select at s = do
  ensure_unit amount.unit s
  ensure_sufficient amount s
  let allocations = select s.batches amount at
  bs ← decrement_all allocations s.batches
  ok (
    add_event (stock_transferred_out (stock_id s) amount target_branch at)
        (record s { batches = remove_depleted bs }),
    record { allocations = map (transfer_detail bs) allocations; total_amount = amount },
  )

-- The loop of `transferIn`; `fresh k` is the id that the generator hands out in round `k`.
unfoldable pub receive_transfer :
    (ℕ → ℕ)
    → ℕ
    → ℕ
    → UnitOfMeasure
    → List TransferBatchDetail
    → List Batch
    → Result StockError (List Batch)
unfolding Batch.create
receive_transfer fresh k at base_unit [] bs = ok bs
receive_transfer fresh k at base_unit (d ∷ ds) bs = do
  batch ← Batch.create (record {
    id = fresh k;
    supplier_id = none;
    source_type = Batch.transfer;
    source_doc_id = "TRANSFER";
    quantity = d.quantity;
    unit_cost = d.unit_cost;
    expires_at = d.expires_at;
    received_at = at;
    base_unit = base_unit;
  })
  receive_transfer fresh (suc k) at base_unit ds (bs ++ batch ∷ [])

unfoldable pub transfer_in : TransferDetails → ℕ → (ℕ → ℕ) → Stock → Result StockError Stock
transfer_in transfer at fresh s = do
  bs ← receive_transfer fresh 0 at s.base_unit transfer.allocations s.batches
  ok (
      add_event (stock_transferred_in (stock_id s) transfer.total_amount at)
        (record s { batches = bs }))
