-- ===== src/Inventory/Stock/Invariant.antt =====
-- The histories of a stock, and what holds after every one of them.
use detailing_studio.Prelude.{
  ℕ, suc, ◌≤◌, ◌≡◌, ◌≢◌, true, arith, List, [], ◌∷◌, ◌++◌, String, All, All-filter, All-append, ok,
  Bool-cases, Result-cases, inl, inr,
}
use detailing_studio.Prelude.Int.{neg_part}
use detailing_studio.Shared.Quantity.{UnitOfMeasure, unit_eq, Quantity}
use detailing_studio.Inventory.Batch.{Batch, total}
use detailing_studio.Inventory.Selection.{BatchSelectionStrategy, select_for_consumption}
use detailing_studio.Inventory.Stock.Events.{ConsumptionReason}
use detailing_studio.Inventory.Stock.State.{
  Stock, ReceiveBatchDetails, create_empty, receive, change_reorder_level,
  remove_batches_by_source_doc,
}
use detailing_studio.Inventory.Stock.Movement.{
  WriteOffResult, SignedQuantity, TransferDetails, TransferBatchDetail, consume, adjust,
  adjust_batches, transfer_out, receive_transfer, transfer_in,
}
use detailing_studio.Inventory.Stock.Allocation.{DistinctIds, Measured, filter-DistinctIds}
use detailing_studio.Inventory.Stock.Conservation.{IsValid, consume_writes_off, left_over-IsValid}
use detailing_studio.Inventory.Stock.Transfer.{sent, transfer_out_lem}
use detailing_studio.Inventory.Stock.Receiving.{append-DistinctIds, receive_adds, adjust_moves}
use detailing_studio.Inventory.Stock.Alerts.{consume_guarded}

abbrev pub IsNew : ℕ → Stock → Type 0
IsNew id s = All (λ b. b.id ≢ id) s.batches

-- The ids that a generator hands out are new, and differ from one another.
pub record IsFresh (fresh : ℕ → ℕ) (s : Stock) : Type 0 where
  pub is_new : (k : ℕ) → IsNew (fresh k) s
  pub injective : (j k : ℕ) → j ≢ k → fresh j ≢ fresh k

-- One successful call of a method, with the selection service.
pub data StockStep (s s' : Stock) : Type 0 where
  receives : (d : ReceiveBatchDetails) → IsNew d.batch_id s → receive d s ≡ ok s' → StockStep s s'
  consumes :
      (strategy : BatchSelectionStrategy) (amount : Quantity) (reason : ConsumptionReason) (at : ℕ)
      (w : WriteOffResult)
      → consume amount reason (select_for_consumption strategy) at s ≡ ok (s', w)
      → StockStep s s'
  adjusts :
      (strategy : BatchSelectionStrategy) (delta : SignedQuantity) (reason : String)
      (by at batch_id : ℕ)
      → IsNew batch_id s
      → adjust delta reason by (select_for_consumption strategy) at batch_id s ≡ ok s'
      → StockStep s s'
  sends :
      (strategy : BatchSelectionStrategy) (amount : Quantity) (target at : ℕ) (d : TransferDetails)
      → transfer_out amount target (select_for_consumption strategy) at s ≡ ok (s', d)
      → StockStep s s'
  takes_in :
      (d : TransferDetails) (at : ℕ) (fresh : ℕ → ℕ)
      → IsFresh fresh s
      → transfer_in d at fresh s ≡ ok s'
      → StockStep s s'
  changes_level : (q : Quantity) (now : ℕ) → change_reorder_level q now s ≡ ok s' → StockStep s s'
  drops : (doc : String) → s' ≡ remove_batches_by_source_doc doc s → StockStep s s'

pub data Reach (s : Stock) : Stock → Type 0 where
  here : Reach s s
  next : {t u : Stock} → Reach s t → StockStep t u → Reach s u

receive_guarded :
    (d : ReceiveBatchDetails) (s s' : Stock)
    → receive d s ≡ ok s'
    → unit_eq d.quantity.unit s.base_unit ≡ true
unfolding receive
receive_guarded d s s' h = ground arith

receives-IsValid :
    (d : ReceiveBatchDetails) (s s' : Stock)
    → IsNew d.batch_id s
    → receive d s ≡ ok s'
    → IsValid s
    → IsValid s'
receives-IsValid d s s' new h v =
    let (t, e, total, valid) = receive_adds d s v (receive_guarded d s s' h) new in
    let same : t ≡ s' = cc in rw (← same) valid

consumes-IsValid :
    (strategy : BatchSelectionStrategy) (amount : Quantity) (reason : ConsumptionReason) (at : ℕ)
    (s s' : Stock) (w : WriteOffResult)
    → consume amount reason (select_for_consumption strategy) at s ≡ ok (s', w)
    → IsValid s
    → IsValid s'
consumes-IsValid strategy amount reason at s s' w h v =
    let (unit, enough) =
      consume_guarded amount reason (select_for_consumption strategy) at s s' w h in
    let (t, x, e, taken, total, valid, nonempty) =
      consume_writes_off strategy amount reason at s v unit enough in
    let same : t ≡ s' = cc in rw (← same) valid

adjust_guarded :
    (strategy : BatchSelectionStrategy) (delta : SignedQuantity) (reason : String)
    (by at batch_id : ℕ) (s s' : Stock)
    → adjust delta reason by (select_for_consumption strategy) at batch_id s ≡ ok s'
    → (unit_eq delta.unit s.base_unit ≡ true) × (neg_part delta.amount ≤ total s.batches)
unfolding adjust adjust_batches
adjust_guarded strategy delta reason by at batch_id s s' h = ground arith

adjusts-IsValid :
    (strategy : BatchSelectionStrategy) (delta : SignedQuantity) (reason : String)
    (by at batch_id : ℕ) (s s' : Stock)
    → IsNew batch_id s
    → adjust delta reason by (select_for_consumption strategy) at batch_id s ≡ ok s'
    → IsValid s
    → IsValid s'
adjusts-IsValid strategy delta reason by at batch_id s s' new h v =
    let (unit, enough) = adjust_guarded strategy delta reason by at batch_id s s' h in
    let (t, e, moved, valid) =
      adjust_moves strategy delta reason by at batch_id s v unit new enough in
    let same : t ≡ s' = cc in rw (← same) valid

transfer_out_guarded :
    (strategy : BatchSelectionStrategy) (amount : Quantity) (target at : ℕ) (s s' : Stock)
    (d : TransferDetails)
    → transfer_out amount target (select_for_consumption strategy) at s ≡ ok (s', d)
    → (unit_eq amount.unit s.base_unit ≡ true) × (amount.amount ≤ total s.batches)
unfolding transfer_out
transfer_out_guarded strategy amount target at s s' d h = ground arith

sends-IsValid :
    (strategy : BatchSelectionStrategy) (amount : Quantity) (target at : ℕ) (s s' : Stock)
    (d : TransferDetails)
    → transfer_out amount target (select_for_consumption strategy) at s ≡ ok (s', d)
    → IsValid s
    → IsValid s'
sends-IsValid strategy amount target at s s' d h v =
    let (unit, enough) = transfer_out_guarded strategy amount target at s s' d h in
    let e = transfer_out_lem strategy amount target at s v unit enough in
    let v' = left_over-IsValid strategy amount at s v unit in
    let same : sent strategy amount target at s ≡ s' = cc in
    rw (← same) (record { distinct = v'.distinct; measured = v'.measured })

receive_transfer-IsValid :
    (fresh : ℕ → ℕ) (k at : ℕ) (u : UnitOfMeasure) (ds : List TransferBatchDetail)
    (bs bs' : List Batch)
    → ((i j : ℕ) → i ≢ j → fresh i ≢ fresh j)
    → ((j : ℕ) → k ≤ j → All (λ b. b.id ≢ fresh j) bs)
    → receive_transfer fresh k at u ds bs ≡ ok bs'
    → DistinctIds bs
    → Measured u bs
    → DistinctIds bs' × Measured u bs'
unfolding receive_transfer
receive_transfer-IsValid fresh k at u [] bs bs' inj new h d m =
    let same : bs ≡ bs' = cc in rw (← same) (d, m)
receive_transfer-IsValid fresh k at u (x ∷ ds) bs bs' inj new h d m =
    elim (Bool-cases (unit_eq x.quantity.unit u)) [
      | inl e ↦
          receive_transfer-IsValid fresh (suc k) at u ds (bs ++ _ ∷ []) bs' inj
            (λ j later.
              All-append (λ b. b.id ≢ fresh j) bs (_ ∷ []) (new j (omega arith))
                (inj k j (omega arith), tt))
            (rw e at h) (append-DistinctIds bs _ d (new k (omega arith)))
            (All-append (λ b. unit_eq b.remaining_quantity.unit u ≡ true) bs (_ ∷ []) m (e, tt))
      | inr e ↦ absurd (let failed = rw e at h in cc)
    ]

takes_in-IsValid :
    (d : TransferDetails) (at : ℕ) (fresh : ℕ → ℕ) (s s' : Stock)
    → IsFresh fresh s
    → transfer_in d at fresh s ≡ ok s'
    → IsValid s
    → IsValid s'
unfolding transfer_in
takes_in-IsValid d at fresh s s' f h v =
    elim (Result-cases (receive_transfer fresh 0 at s.base_unit d.allocations s.batches)) [
      | inl (bs, e) ↦
          let (distinct, measured) =
            receive_transfer-IsValid fresh 0 at s.base_unit d.allocations s.batches bs f.injective
              (λ j first. f.is_new j) e v.distinct v.measured in
          let same : s'.batches ≡ bs = ground arith in
          let unit : s'.base_unit ≡ s.base_unit = ground arith in
          record { distinct = rw same distinct; measured = rw (same, unit) measured }
      | inr (x, e) ↦ absurd (ground arith)
    ]

changes_level-IsValid :
    (q : Quantity) (now : ℕ) (s s' : Stock)
    → change_reorder_level q now s ≡ ok s'
    → IsValid s
    → IsValid s'
unfolding change_reorder_level
changes_level-IsValid q now s s' h v =
    let same : s'.batches ≡ s.batches = ground arith in
    let unit : s'.base_unit ≡ s.base_unit = ground arith in
    record { distinct = rw same v.distinct; measured = rw (same, unit) v.measured }

drops-IsValid :
    (doc : String) (s : Stock) → IsValid s → IsValid (remove_batches_by_source_doc doc s)
unfolding remove_batches_by_source_doc
drops-IsValid doc s v = record {
  distinct = filter-DistinctIds _ s.batches v.distinct;
  measured = All-filter _ _ s.batches v.measured;
}

empty-IsValid :
    (sku branch : ℕ) (u : UnitOfMeasure) (level : Quantity) (now : ℕ)
    → IsValid (create_empty sku branch u level now)
unfolding create_empty
empty-IsValid sku branch u level now = record { distinct = tt; measured = tt }

StockStep-IsValid : (s s' : Stock) → StockStep s s' → IsValid s → IsValid s'
StockStep-IsValid s s' (receives d new e) v = receives-IsValid d s s' new e v
StockStep-IsValid s s' (consumes st q r at w e) v = consumes-IsValid st q r at s s' w e v
StockStep-IsValid s s' (adjusts st q r by at id new e) v =
    adjusts-IsValid st q r by at id s s' new e v
StockStep-IsValid s s' (sends st q target at d e) v = sends-IsValid st q target at s s' d e v
StockStep-IsValid s s' (takes_in d at fresh f e) v = takes_in-IsValid d at fresh s s' f e v
StockStep-IsValid s s' (changes_level q now e) v = changes_level-IsValid q now s s' e v
StockStep-IsValid s s' (drops doc e) v = rw e (drops-IsValid doc s v)

Reach-IsValid : {s s' : Stock} → Reach s s' → IsValid s → IsValid s'
Reach-IsValid here v = v
Reach-IsValid (next r st) v = StockStep-IsValid _ _ st (Reach-IsValid r v)

-- Whatever methods are called on a stock that was created empty, as long as new ids are handed out,
-- its batches have distinct ids and are measured in its base unit.
pub history-IsValid :
    (sku branch : ℕ) (u : UnitOfMeasure) (level : Quantity) (now : ℕ) {s : Stock}
    → Reach (create_empty sku branch u level now) s
    → IsValid s
history-IsValid sku branch u level now r = Reach-IsValid r (empty-IsValid sku branch u level now)
