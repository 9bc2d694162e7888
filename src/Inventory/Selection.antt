-- ===== src/Inventory/Selection.antt =====
-- libs/backend/inventory/domain/src/services/batch-selection.service.ts and
-- stock/batch-selector.interface.ts: which batches a consumption is taken from.
pub mod Laws
use detailing_studio.Prelude.{
  ℕ, ◌-◌, ◌≡◌, Bool, true, false, Option, none, some, List, [], ◌∷◌, ltb, leb, ◌==◌, if◌then◌else◌,
  sum_by, filter, sort, min, not, ◌&&◌,
}
use detailing_studio.Shared.Quantity.{Quantity}
use detailing_studio.Shared.Quantity
use detailing_studio.Shared.Money.{Money}
use detailing_studio.Inventory.Batch.{Batch, is_depleted, is_expired}

pub record BatchAllocation : Type 0 where
  pub batch_id : ℕ
  pub quantity : Quantity
  pub unit_cost : Money

-- `IBatchSelector`.
abbrev pub BatchSelector : Type 0
BatchSelector = List Batch → Quantity → ℕ → List BatchAllocation

pub data BatchSelectionStrategy : Type 0 where
  fefo fifo : BatchSelectionStrategy

-- The sign of the comparators: `true` where they return at most 0. No expiry is `Infinity`.
abbrev expiry_le : Option ℕ → Option ℕ → Bool → Bool
expiry_le none none later = later
expiry_le none (some b) later = false
expiry_le (some a) none later = true
expiry_le (some a) (some b) later = if a == b then later else ltb a b

abbrev pub before : BatchSelectionStrategy → Batch → Batch → Bool
before fefo a b = expiry_le a.expires_at b.expires_at (leb a.received_at b.received_at)
before fifo a b = leb a.received_at b.received_at

abbrev pub usable : ℕ → Batch → Bool
usable at b = if is_expired at b then false else not (is_depleted b)

-- The loop over the sorted batches, with what remains to be allocated.
unfoldable pub allocate : Quantity → ℕ → List Batch → List BatchAllocation
allocate amount remaining [] = []
allocate amount remaining (b ∷ bs) =
    let take = min remaining b.remaining_quantity.amount in
    let rest = allocate amount (remaining - take) bs in
    if leb remaining 0
    then []
    else record {
      batch_id = b.id;
      quantity = Quantity.of take amount.unit;
      unit_cost = b.unit_cost;
    }
      ∷ rest

unfoldable pub select_for_consumption : BatchSelectionStrategy → BatchSelector
unfolding allocate
select_for_consumption strategy batches amount at =
    allocate amount amount.amount (sort (before strategy) (filter (usable at) batches))

-- What a list of allocations adds up to.
abbrev pub allocated : List BatchAllocation → ℕ
allocated = sum_by (λ a. a.quantity.amount)
