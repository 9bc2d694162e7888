-- ===== src/Inventory/Stock/Conservation.antt =====
-- What a consumption takes out of a valid stock.
use mathlib.Core.List.{append-nil}
use detailing_studio.Prelude.{
  ℕ, ◌+◌, ◌≤◌, ◌<◌, ◌≡◌, Bool, true, min, arith, filter, All, All-filter, List, [], ◌∷◌, ◌++◌, sym,
  inl, inr, ok, ltb, leb, ◌==◌, ◌&&◌, Bool-cases,
}
use detailing_studio.Shared.Quantity.{unit_eq, eq_of_unit_eq, Quantity}
use detailing_studio.Inventory.Batch.{Batch, total}
use detailing_studio.Inventory.Selection.{
  BatchSelectionStrategy, usable, select_for_consumption, allocated,
}
use detailing_studio.Inventory.Selection.Laws.{allocated-select_for_consumption}
use detailing_studio.Inventory.Stock.Events.{
  ConsumptionReason, StockEvent, stock_consumed, out_of_stock_reached, low_stock_reached,
}
use detailing_studio.Inventory.Stock.State.{
  Stock, add_event, stock_id, total_quantity, decrement_all, remove_depleted, sum_allocation_cost,
}
use detailing_studio.Inventory.Stock.Movement.{WriteOffResult, consume, level_events}
use detailing_studio.Inventory.Stock.Allocation.{
  Fits, DistinctAllocations, DistinctIds, Measured, Positive, lower_all, decrement_all-eq-lower_all,
  total-lower_all, total-remove_depleted, remove_depleted-Positive, filter-DistinctIds,
  lower_all-DistinctIds, lower_all-Measured,
}
use detailing_studio.Inventory.Stock.Coverage.{
  select_for_consumption-Fits, select_for_consumption-DistinctAllocations,
}

-- The batches have distinct ids and are measured in the base unit.
pub record IsValid (s : Stock) : Type 0 where
  pub distinct : DistinctIds s.batches
  pub measured : Measured s.base_unit s.batches

-- What can be taken of an amount at a time: expired batches give nothing.
unfoldable pub takeable : Quantity → ℕ → Stock → ℕ
takeable amount at s = min amount.amount (total (filter (usable at) s.batches))

module _ (strategy : BatchSelectionStrategy) (amount : Quantity) (at : ℕ) where
  -- The batches that are left when the selection has been taken out.
  abbrev pub left_over : Stock → List Batch
  left_over s = lower_all (select_for_consumption strategy s.batches amount at) s.batches

  module _ (s : Stock) (v : IsValid s) (same : unit_eq amount.unit s.base_unit ≡ true) where
    pub selected-Fits : All (Fits s.batches) (select_for_consumption strategy s.batches amount at)
    selected-Fits =
        select_for_consumption-Fits strategy s.batches amount at v.distinct
          (rw (eq_of_unit_eq amount.unit s.base_unit same) v.measured)

    pub selected-DistinctAllocations :
        DistinctAllocations (select_for_consumption strategy s.batches amount at)
    selected-DistinctAllocations =
        select_for_consumption-DistinctAllocations strategy s.batches amount at v.distinct

    pub decrement_all-selected :
        decrement_all (select_for_consumption strategy s.batches amount at) s.batches
        ≡ ok (left_over s)
    decrement_all-selected =
        decrement_all-eq-lower_all (select_for_consumption strategy s.batches amount at) s.batches
          selected-Fits selected-DistinctAllocations

    pub total-left_over :
        total (remove_depleted (left_over s)) + takeable amount at s ≡ total s.batches
    unfolding takeable
    total-left_over = omega (
      arith,
      total-remove_depleted (left_over s),
      total-lower_all (select_for_consumption strategy s.batches amount at) s.batches selected-Fits
          selected-DistinctAllocations,
      allocated-select_for_consumption strategy s.batches amount at,
    )

    pub left_over-IsValid : IsValid (record s { batches = remove_depleted (left_over s) })
    left_over-IsValid =
        let allocs = select_for_consumption strategy s.batches amount at in
        record {
          distinct =
              filter-DistinctIds _ (left_over s)
                (lower_all-DistinctIds allocs s.batches v.distinct);
          measured =
              All-filter _ _ (left_over s)
                (lower_all-Measured s.base_unit allocs s.batches v.measured);
        }

level_events-batches :
    (q : Quantity) (at : ℕ) (s : Stock) → (level_events q at s).batches ≡ s.batches
unfolding level_events
level_events-batches q at s = ground arith

level_events-base_unit :
    (q : Quantity) (at : ℕ) (s : Stock) → (level_events q at s).base_unit ≡ s.base_unit
unfolding level_events
level_events-base_unit q at s = ground arith

level_events-IsValid :
    (q : Quantity) (at : ℕ) (s : Stock) → IsValid s → IsValid (level_events q at s)
level_events-IsValid q at s v = record {
  distinct = rw (level_events-batches q at s) v.distinct;
  measured = rw (level_events-batches q at s, level_events-base_unit q at s) v.measured;
}

-- In a valid stock that holds the amount in its base unit, `consume` does not throw. It takes the
-- amount, or all that has not expired where that is less; the total falls by what is allocated, the
-- stock stays valid, and no batch in it is empty.
pub consume_writes_off :
    (strategy : BatchSelectionStrategy) (amount : Quantity) (reason : ConsumptionReason) (at : ℕ)
    (s : Stock)
    → IsValid s
    → unit_eq amount.unit s.base_unit ≡ true
    → amount.amount ≤ total s.batches
    → (s' : Stock) × (w : WriteOffResult) × (consume amount reason
          (select_for_consumption strategy)
          at
          s
        ≡ ok (s', w))
      × (allocated w.allocations ≡ takeable amount at s)
      × (total s'.batches + takeable amount at s ≡ total s.batches)
      × IsValid s'
      × Positive s'.batches
unfolding consume
consume_writes_off strategy amount reason at s v same enough =
    let allocs = select_for_consumption strategy s.batches amount at in
    let cost = sum_allocation_cost allocs in
    let s₁ : Stock =
      add_event (stock_consumed (stock_id s) amount reason allocs cost at)
        (record s { batches = remove_depleted (left_over strategy amount at s) }) in
    let sufficient : ltb (total s.batches) amount.amount ≡ Bool.false = ground arith in
    let q = total_quantity s in
    let v' = left_over-IsValid strategy amount at s v same in
    (
      level_events q at s₁,
      record { allocations = allocs; total_cost = cost },
      rw (same, sufficient, decrement_all-selected strategy amount at s v same),
      unfold takeable in allocated-select_for_consumption strategy s.batches amount at,
      rw (level_events-batches q at s₁) (total-left_over strategy amount at s v same),
      level_events-IsValid q at s₁ (record { distinct = v'.distinct; measured = v'.measured }),
      rw (level_events-batches q at s₁) (remove_depleted-Positive (left_over strategy amount at s)),
    )

-- The events that `consume` adds after its own.
level_events-events :
    (q : Quantity) (at : ℕ) (s : Stock)
    → (more : List StockEvent) × ((level_events q at s).events ≡ s.events ++ more)
unfolding level_events
level_events-events q at s = elim (Bool-cases (total s.batches == 0)) [
  | inl out ↦ (out_of_stock_reached (stock_id s) at ∷ [], rw out)
  | inr some_left ↦
      elim (Bool-cases
        (leb (total s.batches) s.reorder_level.amount && ltb s.reorder_level.amount q.amount)) [
          | inl low ↦ (
            low_stock_reached (stock_id s) (total_quantity s) s.reorder_level at ∷ [],
            rw (some_left, low),
          )
          | inr enough ↦ ([], rw (some_left, enough) (sym (append-nil s.events)))
        ]
]

-- Where a valid stock holds the amount, but in part expired, `consume` succeeds all the same: it
-- reports the whole amount as consumed, and more is left than the difference.
pub consume_shortfall :
    (strategy : BatchSelectionStrategy) (amount : Quantity) (reason : ConsumptionReason) (at : ℕ)
    (s : Stock)
    → IsValid s
    → unit_eq amount.unit s.base_unit ≡ true
    → amount.amount ≤ total s.batches
    → total (filter (usable at) s.batches) < amount.amount
    → (s' : Stock) × (w : WriteOffResult) × (more : List StockEvent) × (consume amount reason
          (select_for_consumption strategy)
          at
          s
        ≡ ok (s', w))
      × (s'.events
          ≡ (s.events
              ++ stock_consumed (stock_id s) amount reason w.allocations w.total_cost at ∷ [])
            ++ more)
      × (total s.batches < total s'.batches + amount.amount)
unfolding consume takeable
consume_shortfall strategy amount reason at s v same enough expired =
    let allocs = select_for_consumption strategy s.batches amount at in
    let cost = sum_allocation_cost allocs in
    let s₁ : Stock =
      add_event (stock_consumed (stock_id s) amount reason allocs cost at)
        (record s { batches = remove_depleted (left_over strategy amount at s) }) in
    let sufficient : ltb (total s.batches) amount.amount ≡ Bool.false = ground arith in
    let q = total_quantity s in
    let (more, added) = level_events-events q at s₁ in
    (
      level_events q at s₁,
      record { allocations = allocs; total_cost = cost },
      more,
      rw (same, sufficient, decrement_all-selected strategy amount at s v same),
      added,
      rw (level_events-batches q at s₁)
          (omega (arith, total-left_over strategy amount at s v same)),
    )
