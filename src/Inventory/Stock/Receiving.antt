-- ===== src/Inventory/Stock/Receiving.antt =====
-- What receipts and adjustments do to the total and to the average cost.
use detailing_studio.Prelude.{
  ℕ, zero, suc, ◌+◌, ◌*◌, ◌≤◌, ◌<◌, ◌≡◌, refl, ◌≢◌, true, false, min, arith, List, [], ◌∷◌, ◌++◌,
  String, none, All, All-append, ok, leb, ltb, sum_by-append, filter,
}
use detailing_studio.Prelude.Int.{ℤ, pos, negsuc, pos_part, neg_part}
use detailing_studio.Shared.Quantity.{UnitOfMeasure, unit_eq, unit_eq_refl, Quantity}
use detailing_studio.Shared.Quantity
use detailing_studio.Shared.Money.{Money, round_div, le-round_div, round_div-le, round_div_nearest}
use detailing_studio.Inventory.Batch.{Batch, total, remaining}
use detailing_studio.Inventory.Batch
use detailing_studio.Inventory.Selection.{BatchSelectionStrategy, usable, select_for_consumption}
use detailing_studio.Inventory.Stock.Events.{stock_received, stock_adjusted}
use detailing_studio.Inventory.Stock.State.{
  Stock, ReceiveBatchDetails, receive, recalculate_average_cost, add_event, stock_id,
  remove_depleted,
}
use detailing_studio.Inventory.Stock.Movement.{SignedQuantity, adjust, adjust_batches}
use detailing_studio.Inventory.Stock.Allocation.{DistinctIds, Measured}
use detailing_studio.Inventory.Stock.Conservation.{
  IsValid, takeable, left_over, decrement_all-selected, total-left_over, left_over-IsValid,
}

pub append-DistinctIds :
    (bs : List Batch) (b : Batch)
    → DistinctIds bs
    → All (λ c. c.id ≢ b.id) bs
    → DistinctIds (bs ++ b ∷ [])
append-DistinctIds [] b d h = (tt, tt)
append-DistinctIds (c ∷ bs) b d h = (
  All-append (λ x. x.id ≢ c.id) bs (b ∷ []) d.0 (λ e. h.0 (ground arith), tt),
  append-DistinctIds bs b d.1 h.1,
)

weighted_ge : (lo e a q c : ℕ) → lo ≤ a → lo ≤ c → lo * (e + q) ≤ e * a + q * c
weighted_ge lo e a q c h k = grind arith

weighted_le : (hi e a q c : ℕ) → a ≤ hi → c ≤ hi → e * a + q * c ≤ hi * (e + q)
weighted_le hi e a q c h k = grind arith

recalculate-batches :
    (q : ℕ) (c : Money) (s : Stock) → (recalculate_average_cost q c s).batches ≡ s.batches
unfolding recalculate_average_cost
recalculate-batches q c s = ground arith

recalculate-base_unit :
    (q : ℕ) (c : Money) (s : Stock) → (recalculate_average_cost q c s).base_unit ≡ s.base_unit
unfolding recalculate_average_cost
recalculate-base_unit q c s = ground arith

-- The batch that a receipt brings.
abbrev received_batch : ReceiveBatchDetails → Batch
received_batch d = record {
  id = d.batch_id;
  supplier_id = d.supplier_id;
  source_type = d.source_type;
  source_doc_id = d.source_doc_id;
  initial_quantity = d.quantity;
  remaining_quantity = d.quantity;
  unit_cost = d.unit_cost;
  expires_at = d.expires_at;
  received_at = d.received_at;
}

abbrev with_receipt : ReceiveBatchDetails → Stock → Stock
with_receipt d s =
    let s' = recalculate_average_cost d.quantity.amount d.unit_cost s in
    add_event (stock_received (stock_id s) d.quantity d.unit_cost d.received_at)
      (record s' { batches = s'.batches ++ received_batch d ∷ [] })

receive_lem :
    (d : ReceiveBatchDetails) (s : Stock)
    → unit_eq d.quantity.unit s.base_unit ≡ true
    → receive d s ≡ ok (with_receipt d s)
unfolding receive
receive_lem d s same = rw same

total-add : (bs : List Batch) (b : Batch) → total (bs ++ b ∷ []) ≡ total bs + remaining b
total-add bs b = omega (arith, sum_by-append remaining bs (b ∷ []))

-- A receipt in the base unit under a new id raises the total by its quantity and keeps the stock
-- valid.
pub receive_adds :
    (d : ReceiveBatchDetails) (s : Stock)
    → IsValid s
    → unit_eq d.quantity.unit s.base_unit ≡ true
    → All (λ b. b.id ≢ d.batch_id) s.batches
    → (s' : Stock) × (receive d s ≡ ok s')
      × (total s'.batches ≡ total s.batches + d.quantity.amount)
      × IsValid s'
receive_adds d s v same fresh =
    let b = received_batch d in
    let same_batches = recalculate-batches d.quantity.amount d.unit_cost s in
    (
      with_receipt d s,
      receive_lem d s same,
      rw same_batches (total-add s.batches b),
      record {
        distinct = rw same_batches (append-DistinctIds s.batches b v.distinct fresh);
        measured =
            rw (same_batches, recalculate-base_unit d.quantity.amount d.unit_cost s)
              (All-append (λ c. unit_eq c.remaining_quantity.unit s.base_unit ≡ true) s.batches
                (b ∷ []) v.measured (same, tt));
      },
    )

average-recalculate :
    (q : ℕ) (c : Money) (s : Stock)
    → 0 < total s.batches
    → (recalculate_average_cost q c s).average_cost.cents
      ≡ round_div (total s.batches * s.average_cost.cents + q * c.cents) (total s.batches + q)
unfolding recalculate_average_cost
average-recalculate q c s h =
    let some_left : leb (total s.batches) 0 ≡ false = ground arith in rw some_left (omega arith)

-- After a receipt into a stock that holds something, the average cost lies between the old average
-- and the cost of the receipt, and it is the weighted mean of the two to the nearest kopeck: over
-- the whole quantity the error is at most half a kopeck a unit.
pub receive_average :
    (d : ReceiveBatchDetails) (s : Stock) (lo hi : ℕ)
    → unit_eq d.quantity.unit s.base_unit ≡ true
    → 0 < total s.batches
    → lo ≤ s.average_cost.cents
    → lo ≤ d.unit_cost.cents
    → s.average_cost.cents ≤ hi
    → d.unit_cost.cents ≤ hi
    → let sum = total s.batches * s.average_cost.cents + d.quantity.amount * d.unit_cost.cents in
      let qty = total s.batches + d.quantity.amount in
      (s' : Stock) × (receive d s ≡ ok s')
      × (lo ≤ s'.average_cost.cents)
      × (s'.average_cost.cents ≤ hi)
      × (2 * (s'.average_cost.cents * qty) ≤ 2 * sum + qty)
      × (2 * sum + qty < 2 * (s'.average_cost.cents * qty) + 2 * qty)
receive_average d s lo hi same h lo_avg lo_cost hi_avg hi_cost =
    let e = total s.batches in
    let q = d.quantity.amount in
    let a = s.average_cost.cents in
    let c = d.unit_cost.cents in
    let n = e * a + q * c in
    let avg = average-recalculate q d.unit_cost s h in
    let pos_qty : 0 < e + q = omega arith in
    (
      with_receipt d s,
      receive_lem d s same,
      rw avg (le-round_div n (e + q) pos_qty lo (weighted_ge lo e a q c lo_avg lo_cost)),
      rw avg (round_div-le n (e + q) pos_qty hi (weighted_le hi e a q c hi_avg hi_cost)),
      rw avg (round_div_nearest n (e + q) pos_qty).0,
      rw avg (round_div_nearest n (e + q) pos_qty).1,
    )

-- The first receipt into an empty stock sets the average to its cost.
pub receive_first :
    (d : ReceiveBatchDetails) (s : Stock)
    → unit_eq d.quantity.unit s.base_unit ≡ true
    → total s.batches ≡ 0
    → (s' : Stock) × (receive d s ≡ ok s') × (s'.average_cost ≡ d.unit_cost)
unfolding recalculate_average_cost
receive_first d s same h =
    let empty : leb (total s.batches) 0 ≡ true = ground arith in
    (with_receipt d s, receive_lem d s same, rw empty)

-- The batch that a positive adjustment makes, at the average cost.
abbrev adjusted_batch : ℕ → String → ℕ → ℕ → Stock → Batch
adjusted_batch n reason at batch_id s = record {
  id = batch_id;
  supplier_id = none;
  source_type = Batch.adjustment;
  source_doc_id = reason;
  initial_quantity = Quantity.of n s.base_unit;
  remaining_quantity = Quantity.of n s.base_unit;
  unit_cost = s.average_cost;
  expires_at = none;
  received_at = at;
}

-- What an adjustment may take out at a time.
abbrev pub adjustable : ℤ → ℕ → Stock → ℕ
adjustable delta at s = min (neg_part delta) (total (filter (usable at) s.batches))

adjust_batches_lem :
    (strategy : BatchSelectionStrategy) (delta : ℤ) (reason : String) (at batch_id : ℕ) (s : Stock)
    → IsValid s
    → All (λ b. b.id ≢ batch_id) s.batches
    → neg_part delta ≤ total s.batches
    → (bs : List Batch) × (adjust_batches delta reason
          (select_for_consumption strategy)
          at
          batch_id
          s
        ≡ ok bs)
      × (total bs + adjustable delta at s ≡ total s.batches + pos_part delta)
      × DistinctIds bs
      × Measured s.base_unit bs
unfolding adjust_batches takeable
adjust_batches_lem strategy (pos zero) reason at batch_id s v fresh enough =
    (s.batches, refl, omega arith, v.distinct, v.measured)
adjust_batches_lem strategy (pos (suc n)) reason at batch_id s v fresh enough =
    let b = adjusted_batch (suc n) reason at batch_id s in
    let itself = unit_eq_refl s.base_unit in
    (
      s.batches ++ b ∷ [],
      rw itself,
      omega (arith, total-add s.batches b),
      append-DistinctIds s.batches b v.distinct fresh,
      All-append (λ c. unit_eq c.remaining_quantity.unit s.base_unit ≡ true) s.batches (b ∷ [])
          v.measured (itself, tt),
    )
adjust_batches_lem strategy (negsuc n) reason at batch_id s v fresh enough =
    let amount = Quantity.of (suc n) s.base_unit in
    let itself = unit_eq_refl s.base_unit in
    let sufficient : ltb (total s.batches) (suc n) ≡ false = ground arith in
    let v' = left_over-IsValid strategy amount at s v itself in
    (
      remove_depleted (left_over strategy amount at s),
      rw (sufficient, decrement_all-selected strategy amount at s v itself),
      omega (arith, total-left_over strategy amount at s v itself),
      v'.distinct,
      v'.measured,
    )

-- An adjustment in the base unit, under a new id, of a valid stock that holds what is to be taken
-- off: it does not throw, the stock stays valid, and the total rises by a positive change. It falls
-- by a negative one, but by no more than has not expired.
pub adjust_moves :
    (strategy : BatchSelectionStrategy) (delta : SignedQuantity) (reason : String)
    (by at batch_id : ℕ) (s : Stock)
    → IsValid s
    → unit_eq delta.unit s.base_unit ≡ true
    → All (λ b. b.id ≢ batch_id) s.batches
    → neg_part delta.amount ≤ total s.batches
    → (s' : Stock) × (adjust delta reason by (select_for_consumption strategy) at batch_id s
        ≡ ok s')
      × (total s'.batches + adjustable delta.amount at s ≡ total s.batches + pos_part delta.amount)
      × IsValid s'
unfolding adjust
adjust_moves strategy delta reason by at batch_id s v same fresh enough =
    let (bs, result, moved, d, m) =
      adjust_batches_lem strategy delta.amount reason at batch_id s v fresh enough in
    (
      add_event (stock_adjusted (stock_id s) delta.amount reason by at) (record s { batches = bs }),
      rw (same, result),
      moved,
      record { distinct = d; measured = m },
    )
