-- ===== src/Inventory/Batch.antt =====
-- libs/backend/inventory/domain/src/stock/batch.entity.ts and stock.errors.ts: one delivery of a
-- SKU, and what is left of it.
use detailing_studio.Prelude.{
  ℕ, Bool, false, Option, none, some, List, String, ltb, leb, ◌==◌, if◌then◌else◌, sum_by, Result,
  ok, err, ◌>>=◌,
}
use detailing_studio.Shared.Quantity.{UnitOfMeasure, unit_eq, Quantity, QuantityError}
use detailing_studio.Shared.Quantity
use detailing_studio.Shared.Money.{Money}

pub data BatchSourceType : Type 0 where
  receipt transfer adjustment opening_balance : BatchSourceType

pub record Batch : Type 0 where
  pub id : ℕ
  pub supplier_id : Option ℕ
  pub source_type : BatchSourceType
  pub source_doc_id : String
  pub initial_quantity : Quantity
  pub remaining_quantity : Quantity
  pub unit_cost : Money
  pub expires_at : Option ℕ
  pub received_at : ℕ

-- `StockId.of(skuId, branchId)`.
abbrev pub StockId : Type 0
StockId = ℕ × ℕ

pub data StockError : Type 0 where
  batch_insufficient : ℕ → Quantity → Quantity → StockError
  insufficient_stock : StockId → Quantity → Quantity → StockError
  unit_mismatch : UnitOfMeasure → UnitOfMeasure → StockError
  quantity_error : QuantityError → StockError

-- An error of a value object passes through the methods that call it.
abbrev lift : {A : Type 0} → Result QuantityError A → Result StockError A
lift (ok a) = ok a
lift (err e) = err (quantity_error e)

pub record CreateBatchProps : Type 0 where
  pub id : ℕ
  pub supplier_id : Option ℕ
  pub source_type : BatchSourceType
  pub source_doc_id : String
  pub quantity : Quantity
  pub unit_cost : Money
  pub expires_at : Option ℕ
  pub received_at : ℕ
  pub base_unit : UnitOfMeasure

unfoldable pub create : CreateBatchProps → Result StockError Batch
create props =
    if unit_eq props.quantity.unit props.base_unit
    then ok (record {
      id = props.id;
      supplier_id = props.supplier_id;
      source_type = props.source_type;
      source_doc_id = props.source_doc_id;
      initial_quantity = props.quantity;
      remaining_quantity = props.quantity;
      unit_cost = props.unit_cost;
      expires_at = props.expires_at;
      received_at = props.received_at;
    })
    else err (unit_mismatch props.quantity.unit props.base_unit)

unfoldable pub decrement : Quantity → Batch → Result StockError Batch
unfolding Quantity.subtract
decrement amount b =
    if ltb b.remaining_quantity.amount amount.amount
    then err (batch_insufficient b.id b.remaining_quantity amount)
    else (do
      left ← lift (Quantity.subtract b.remaining_quantity amount)
      ok (record b { remaining_quantity = left }))

abbrev pub is_depleted : Batch → Bool
is_depleted b = b.remaining_quantity.amount == 0

abbrev pub is_expired : ℕ → Batch → Bool
is_expired at b = elim b.expires_at [ none ↦ false | some expiry ↦ leb expiry at ]

abbrev pub remaining : Batch → ℕ
remaining b = b.remaining_quantity.amount

-- What is left in a list of batches.
abbrev pub total : List Batch → ℕ
total = sum_by remaining
