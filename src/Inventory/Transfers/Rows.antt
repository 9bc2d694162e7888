-- ===== src/Inventory/Transfers/Rows.antt =====
-- The rows of the stocks: what saving a row, and a transfer between two stocks, changes.
use detailing_studio.Prelude.{
  ℕ, suc, ◌+◌, ◌≤◌, ltb, ◌≡◌, refl, subst, arith, true, false, none, List, [], ◌∷◌, ◌++◌, map, ◌==◌,
  if◌then◌else◌, ok, sum_by, sum_by-append, Bool-cases, bind_ok, inl, inr, min, filter,
}
use detailing_studio.Shared.Quantity.{UnitOfMeasure, unit_eq, Quantity}
use detailing_studio.Inventory.Batch.{Batch, StockError, total, remaining}
use detailing_studio.Inventory.Batch
use detailing_studio.Inventory.Selection.{
  BatchSelectionStrategy, BatchAllocation, select_for_consumption, allocated, usable,
}
use detailing_studio.Inventory.Selection.Laws.{allocated-select_for_consumption}
use detailing_studio.Inventory.Stock.State.{Stock, create_empty, remove_depleted}
use detailing_studio.Inventory.Stock.Movement.{
  TransferBatchDetail, TransferDetails, transfer_out, transfer_in, receive_transfer,
  transfer_detail,
}
use detailing_studio.Inventory.Stock.Conservation.{IsValid, takeable, left_over, total-left_over}
use detailing_studio.Inventory.Stock.Transfer.{sent, handed_over, transfer_out_lem}
use detailing_studio.Inventory.Transfers.{at_key, find_by_composite_id, find_or_create, put_stock}

-- What a stock holds of the SKU, and what all branches hold.
abbrev pub share : ℕ → Stock → ℕ
share sku s = if s.sku_id == sku then total s.batches else 0

abbrev pub total_of : ℕ → List Stock → ℕ
total_of sku = sum_by (share sku)

total_of-put_stock :
    (k : ℕ) (s : Stock) (unit : UnitOfMeasure) (now : ℕ) (ss : List Stock)
    → total_of k (put_stock s ss) + share k (find_or_create s.sku_id s.branch_id unit now ss)
      ≡ total_of k ss + share k s
unfolding put_stock find_by_composite_id create_empty
total_of-put_stock k s unit now [] = ground arith
total_of-put_stock k s unit now (x ∷ xs) = elim (Bool-cases (at_key s.sku_id s.branch_id x)) [
  | inl hit ↦ rw hit (omega arith)
  | inr miss ↦ let rest = total_of-put_stock k s unit now xs in rw miss (omega (arith, rest))
]

-- A row that is saved does not change what is found at another key.
pub find-put_other :
    (sku branch : ℕ) (s : Stock) (ss : List Stock)
    → at_key sku branch s ≡ false
    → find_by_composite_id sku branch (put_stock s ss) ≡ find_by_composite_id sku branch ss
unfolding put_stock find_by_composite_id
find-put_other sku branch s [] other = rw other refl
find-put_other sku branch s (x ∷ xs) other = elim (Bool-cases (at_key s.sku_id s.branch_id x)) [
  | inl hit ↦ let off : at_key sku branch x ≡ false = ground arith in rw (hit, off, other) refl
  | inr miss ↦ rw (miss, find-put_other sku branch s xs other) refl
]

pub found_key :
    (sku branch : ℕ) (unit : UnitOfMeasure) (now : ℕ) (ss : List Stock)
    → ((find_or_create sku branch unit now ss).sku_id ≡ sku)
      × ((find_or_create sku branch unit now ss).branch_id ≡ branch)
unfolding find_by_composite_id create_empty
found_key sku branch unit now [] = (refl, refl)
found_key sku branch unit now (x ∷ xs) = elim (Bool-cases (at_key sku branch x)) [
  | inl hit ↦ rw hit (ground arith)
  | inr miss ↦ rw miss (found_key sku branch unit now xs)
]

-- The rows of two branches are saved, one after the other.
pub both_saved :
    (k sku from_branch to_branch : ℕ) (unit : UnitOfMeasure) (now : ℕ) (s t : Stock)
    (ss : List Stock)
    → (from_branch == to_branch) ≡ false
    → s.sku_id ≡ sku
    → s.branch_id ≡ from_branch
    → t.sku_id ≡ sku
    → t.branch_id ≡ to_branch
    → total_of k (put_stock t (put_stock s ss))
        + (share k (find_or_create sku from_branch unit now ss)
            + share k (find_or_create sku to_branch unit now ss))
      ≡ total_of k ss + (share k s + share k t)
both_saved k sku from_branch to_branch unit now s t ss apart s_sku s_branch t_sku t_branch =
    let first : total_of k (put_stock s ss) + share k (find_or_create sku from_branch unit now ss)
        ≡ total_of k ss + share k s =
      subst
        (λ b.
          total_of k (put_stock s ss) + share k (find_or_create sku b unit now ss)
          ≡ total_of k ss + share k s)
        s_branch
        (subst
          (λ a.
            total_of k (put_stock s ss) + share k (find_or_create a s.branch_id unit now ss)
            ≡ total_of k ss + share k s)
          s_sku (total_of-put_stock k s unit now ss)) in
    let second : total_of k (put_stock t (put_stock s ss))
          + share k (find_or_create sku to_branch unit now (put_stock s ss))
        ≡ total_of k (put_stock s ss) + share k t =
      subst
        (λ b.
          total_of k (put_stock t (put_stock s ss))
            + share k (find_or_create sku b unit now (put_stock s ss))
          ≡ total_of k (put_stock s ss) + share k t)
        t_branch
        (subst
          (λ a.
            total_of k (put_stock t (put_stock s ss))
              + share k (find_or_create a t.branch_id unit now (put_stock s ss))
            ≡ total_of k (put_stock s ss) + share k t)
          t_sku (total_of-put_stock k t unit now (put_stock s ss))) in
    let away : at_key sku to_branch s ≡ false = ground arith in
    let second' = rw (find-put_other sku to_branch s ss away) at second in
    omega (arith, first, second')

total-receive_transfer :
    (fresh : ℕ → ℕ) (k at : ℕ) (u : UnitOfMeasure) (ds : List TransferBatchDetail)
    (bs bs' : List Batch)
    → receive_transfer fresh k at u ds bs ≡ ok bs'
    → total bs' ≡ total bs + sum_by (λ d. d.quantity.amount) ds
unfolding receive_transfer Batch.create
total-receive_transfer fresh k at u [] bs bs' e = let same : bs ≡ bs' = cc in ground arith
total-receive_transfer fresh k at u (d ∷ ds) bs bs' e =
    elim (Bool-cases (unit_eq d.quantity.unit u)) [
      | inl same ↦
          let batch : Batch = record {
            id = fresh k;
            supplier_id = none;
            source_type = Batch.transfer;
            source_doc_id = "TRANSFER";
            initial_quantity = d.quantity;
            remaining_quantity = d.quantity;
            unit_cost = d.unit_cost;
            expires_at = d.expires_at;
            received_at = at;
          } in
          let rest =
            total-receive_transfer fresh (suc k) at u ds (bs ++ batch ∷ []) bs' (rw same at e) in
          let parts = sum_by-append remaining bs (batch ∷ []) in omega (arith, rest, parts)
      | inr other ↦ absurd (let e' = rw other at e in cc)
    ]

amounts-details :
    (bs : List Batch) (allocs : List BatchAllocation)
    → sum_by (λ d. d.quantity.amount) (map (transfer_detail bs) allocs) ≡ allocated allocs
amounts-details bs [] = refl
amounts-details bs (a ∷ allocs) = omega (arith, amounts-details bs allocs)

pub transfer_in-total :
    (d : TransferDetails) (at : ℕ) (fresh : ℕ → ℕ) (t t' : Stock)
    → transfer_in d at fresh t ≡ ok t'
    → (total t'.batches ≡ total t.batches + sum_by (λ x. x.quantity.amount) d.allocations)
      × (t'.sku_id ≡ t.sku_id)
      × (t'.branch_id ≡ t.branch_id)
unfolding transfer_in
transfer_in-total d at fresh t t' e =
    let (bs, received, e') =
      bind_ok (receive_transfer fresh 0 at t.base_unit d.allocations t.batches) _ e in
    let all = total-receive_transfer fresh 0 at t.base_unit d.allocations t.batches bs received in
    ground (arith, all)

module _ (strategy : BatchSelectionStrategy) where
  transfer_out_guards :
      (amount : Quantity) (target at : ℕ) (s : Stock) (r : Stock × TransferDetails)
      → transfer_out amount target (select_for_consumption strategy) at s ≡ ok r
      → (unit_eq amount.unit s.base_unit ≡ true) × (amount.amount ≤ total s.batches)
  unfolding transfer_out
  transfer_out_guards amount target at s r e = elim (Bool-cases (unit_eq amount.unit s.base_unit)) [
    | inr other ↦ absurd (let e' = rw other at e in cc)
    | inl same ↦ elim (Bool-cases (ltb (total s.batches) amount.amount)) [
      | inl short ↦ absurd (let e' = rw (same, short) at e in cc)
      | inr enough ↦ (same, ground arith)
    ]
  ]

  -- A transfer out that goes through lowers the stock by what it hands over.
  pub transfer_out-total :
      (amount : Quantity) (target at : ℕ) (s s' : Stock) (d : TransferDetails)
      → IsValid s
      → transfer_out amount target (select_for_consumption strategy) at s ≡ ok (s', d)
      → (total s'.batches + sum_by (λ x. x.quantity.amount) d.allocations ≡ total s.batches)
        × (s'.sku_id ≡ s.sku_id)
        × (s'.branch_id ≡ s.branch_id)
  unfolding takeable
  transfer_out-total amount target at s s' d v e =
      let (same, enough) = transfer_out_guards amount target at s (s', d) e in
      let e2 = transfer_out_lem strategy amount target at s v same enough in
      let stock : sent strategy amount target at s ≡ s' = cc in
      let details : handed_over strategy amount target at s ≡ d = cc in
      let left = total-left_over strategy amount at s v same in
      let given = allocated-select_for_consumption strategy s.batches amount at in
      let moved = amounts-details s.batches (select_for_consumption strategy s.batches amount at) in
      rw (← stock) (rw (← details) (sums left given moved, refl, refl))
    where
      sums :
          total (remove_depleted (left_over strategy amount at s)) + takeable amount at s
            ≡ total s.batches
          → allocated (select_for_consumption strategy s.batches amount at)
            ≡ min amount.amount (total (filter (usable at) s.batches))
          → sum_by
              (λ x. x.quantity.amount)
              (map
                (transfer_detail s.batches)
                (select_for_consumption strategy s.batches amount at))
            ≡ allocated (select_for_consumption strategy s.batches amount at)
          → total (remove_depleted (left_over strategy amount at s))
              + sum_by
                  (λ x. x.quantity.amount)
                  (map
                    (transfer_detail s.batches)
                    (select_for_consumption strategy s.batches amount at))
            ≡ total s.batches
      sums left given moved = omega (arith, left, given, moved)

  -- Two stocks of an SKU exchange goods and are saved.
  pub moved :
      (k : ℕ) (s t s' t' : Stock) (d : TransferDetails) (sku after before : ℕ)
      → (total s'.batches + sum_by (λ x. x.quantity.amount) d.allocations ≡ total s.batches)
      → (total t'.batches ≡ total t.batches + sum_by (λ x. x.quantity.amount) d.allocations)
      → s.sku_id ≡ sku
      → t.sku_id ≡ sku
      → s'.sku_id ≡ sku
      → t'.sku_id ≡ sku
      → after + (share k s + share k t) ≡ before + (share k s' + share k t')
      → after ≡ before
  moved k s t s' t' d sku after before out in_ a b a' b' saved = elim (Bool-cases (sku == k)) [
    | inl hit ↦
        let sum = rw (a, b, a', b') at saved in
        let sum' = rw hit at sum in omega (arith, out, in_, sum')
    | inr miss ↦
        let sum = rw (a, b, a', b') at saved in let sum' = rw miss at sum in omega (arith, sum')
  ]
