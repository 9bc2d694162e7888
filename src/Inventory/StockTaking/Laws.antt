-- ===== src/Inventory/StockTaking/Laws.antt =====
-- What the differences of a stock taking say.
use detailing_studio.Prelude.{
  ℕ, ◌≡◌, refl, ap, ◌∙◌, arith, true, false, Option, none, some, List, [], ◌∷◌, ◌++◌, ◌==◌, any,
  All, if◌then◌else◌, ok, Bool-cases, inl, inr,
}
use detailing_studio.Prelude.Int.{ℤ, pos, negsuc, ◌+ℤ◌, sub_ℕ}
use detailing_studio.Shared.Quantity.{Quantity, UnitOfMeasure}
use detailing_studio.Inventory.StockTaking.Units.{DistinctSkus, reported_unit, deltas_of-KeepsUnit}
use detailing_studio.Inventory.Stock.Movement.{SignedQuantity}
use detailing_studio.Inventory.StockTaking.{
  StockTaking, StockTakingLine, StockTakingDelta, started, posted, compute_delta, delta_of, is_zero,
  add_delta, deltas_of, post, record_measurement, record_actual, stock_taking_posted,
}

-- The difference that is reported for an SKU, none being 0.
abbrev pub reported : ℕ → List StockTakingDelta → ℤ
reported sku [] = pos 0
reported sku (d ∷ ds) = if d.sku_id == sku then d.delta.amount else reported sku ds

abbrev IsInUnitOf : Quantity → Option Quantity → Type 0
IsInUnitOf expected none = Unit
IsInUnitOf expected (some q) = q.unit ≡ expected.unit

-- What was measured was measured in the unit of the expected quantity.
abbrev pub SameUnits : List StockTakingLine → Type 0
SameUnits = All (λ l. IsInUnitOf l.expected_quantity l.actual_quantity)

-- The measured quantity, or the expected one if none was measured.
abbrev measured_or : Quantity → Option Quantity → SignedQuantity
measured_or expected none = record { amount = pos expected.amount; unit = expected.unit }
measured_or expected (some q) = record { amount = pos q.amount; unit = q.unit }

-- The quantity after the stock taking.
abbrev pub quantity_after : StockTakingLine → SignedQuantity
quantity_after l = measured_or l.expected_quantity l.actual_quantity

abbrev raised : Quantity → UnitOfMeasure → ℤ → SignedQuantity
raised expected u d = record { amount = pos expected.amount +ℤ d; unit = u }

-- The expected quantity with the reported difference added, in the unit of the difference.
abbrev pub adjusted : List StockTakingDelta → StockTakingLine → SignedQuantity
adjusted ds l =
    raised l.expected_quantity (reported_unit l.expected_quantity.unit l.sku_id ds)
      (reported l.sku_id ds)

-- The bare amount after the stock taking: the measured one, or the expected one if none was measured.
abbrev pub amount_after : StockTakingLine → ℕ
amount_after l = elim l.actual_quantity [ none ↦ l.expected_quantity.amount | some q ↦ q.amount ]

difference : (a b : ℕ) → (pos a +ℤ sub_ℕ b a) ≡ pos b
unfolding ◌+ℤ◌
difference a b = ground arith

no_change : (a : ℕ) → (pos a +ℤ pos 0) ≡ pos a
unfolding ◌+ℤ◌
no_change a = ground arith

reported_other :
    (sku other : ℕ) (d : Option SignedQuantity) (ds : List StockTakingDelta)
    → (other == sku) ≡ false
    → reported sku (add_delta other d ds) ≡ reported sku ds
reported_other sku other none ds h = refl
reported_other sku other (some d) ds h = elim (Bool-cases (is_zero d.amount)) [
  | inl same ↦ rw same
  | inr changed ↦ rw (changed, h)
]

unreported :
    (sku : ℕ) (ls : List StockTakingLine)
    → any (λ x. x.sku_id == sku) ls ≡ false
    → reported sku (deltas_of ls) ≡ pos 0
unfolding deltas_of
unreported sku [] h = refl
unreported sku (l ∷ ls) h = elim (Bool-cases (l.sku_id == sku)) [
  | inl own ↦ absurd (let h' = rw own at h in cc)
  | inr other ↦
      reported_other sku l.sku_id (compute_delta l) (deltas_of ls) other
      ∙ unreported sku ls (rw other at h)
]

zero_lem : (z : ℤ) → is_zero z ≡ true → z ≡ pos 0
zero_lem (pos n) h = ap pos (ground arith)
zero_lem (negsuc n) h = absurd (cc)

reported_own :
    (expected : Quantity) (actual : Option Quantity) (sku : ℕ) (ds : List StockTakingDelta)
    → reported sku ds ≡ pos 0
    → (pos expected.amount +ℤ reported sku (add_delta sku (delta_of expected actual) ds))
      ≡ pos (elim actual [ none ↦ expected.amount | some q ↦ q.amount ])
reported_own expected none sku ds h = rw h (no_change expected.amount)
reported_own expected (some q) sku ds h =
    let d = sub_ℕ q.amount expected.amount in
    elim (Bool-cases (is_zero d)) [
      | inl same ↦ rw (same, h) (rw (← zero_lem d same) (difference expected.amount q.amount))
      | inr changed ↦
          let own : (sku == sku) ≡ true = ground arith in
          rw (changed, own) (difference expected.amount q.amount)
    ]

-- The reports of the later lines are not changed by the first.
later_lines :
    (sku : ℕ) (d : Option SignedQuantity) (ds : List StockTakingDelta) (ls : List StockTakingLine)
    → any (λ x. x.sku_id == sku) ls ≡ false
    → All (λ l. (pos l.expected_quantity.amount +ℤ reported l.sku_id ds) ≡ pos (amount_after l)) ls
    → All
        (λ l.
          (pos l.expected_quantity.amount +ℤ reported l.sku_id (add_delta sku d ds))
          ≡ pos (amount_after l))
        ls
later_lines sku d ds [] h k = tt
later_lines sku d ds (l ∷ ls) h k =
    let other : (sku == l.sku_id) ≡ false = ground arith in
    (rw (reported_other l.sku_id sku d ds other) k.0, later_lines sku d ds ls (ground arith) k.1)

deltas_of_lem :
    (ls : List StockTakingLine)
    → DistinctSkus ls
    → All
        (λ l.
          (pos l.expected_quantity.amount +ℤ reported l.sku_id (deltas_of ls))
          ≡ pos (amount_after l))
        ls
unfolding deltas_of compute_delta
deltas_of_lem [] d = tt
deltas_of_lem (l ∷ ls) d = (
  reported_own l.expected_quantity l.actual_quantity l.sku_id (deltas_of ls)
      (unreported l.sku_id ls d.0),
  later_lines l.sku_id (compute_delta l) (deltas_of ls) ls d.0 (deltas_of_lem ls d.1),
)

adjusted_lem :
    (ds : List StockTakingDelta) (ls : List StockTakingLine)
    → SameUnits ls
    → All (λ l. reported_unit l.expected_quantity.unit l.sku_id ds ≡ l.expected_quantity.unit) ls
    → All (λ l. (pos l.expected_quantity.amount +ℤ reported l.sku_id ds) ≡ pos (amount_after l)) ls
    → All (λ l. adjusted ds l ≡ quantity_after l) ls
adjusted_lem ds [] u k h = tt
adjusted_lem ds (l ∷ ls) u k h = (
  in_unit l.expected_quantity l.actual_quantity (reported_unit l.expected_quantity.unit l.sku_id ds)
      (reported l.sku_id ds) u.0 k.0 h.0,
  adjusted_lem ds ls u.1 k.1 h.1,
)
  where
    in_unit :
        (expected : Quantity) (actual : Option Quantity) (v : UnitOfMeasure) (d : ℤ)
        → IsInUnitOf expected actual
        → v ≡ expected.unit
        → (pos expected.amount +ℤ d)
          ≡ pos (elim actual [ none ↦ expected.amount | some q ↦ q.amount ])
        → raised expected v d ≡ measured_or expected actual
    in_unit expected none v d u k h = rw (h, k)
    in_unit expected (some q) v d u k h = rw (h, u, k)

-- Where each SKU stands on one line and was measured in the unit of its expected quantity, posting a
-- started stock taking does not throw, and the differences in its event, added to the expected
-- quantities, give the measured ones, and leave what was not measured as expected.
pub post_differences :
    (by at : ℕ) (s : StockTaking)
    → s.status ≡ started
    → DistinctSkus s.lines
    → SameUnits s.lines
    → (s' : StockTaking) × (ds : List StockTakingDelta) × (post by at s ≡ ok s')
      × (s'.status ≡ posted)
      × (s'.events ≡ s.events ++ stock_taking_posted s.id s.branch_id ds by at ∷ [])
      × All (λ l. adjusted ds l ≡ quantity_after l) s.lines
unfolding post
post_differences by at s h d u = (
  record s {
    status = posted;
    completed_at = some at;
    events = s.events ++ stock_taking_posted s.id s.branch_id (deltas_of s.lines) by at ∷ [];
  },
  deltas_of s.lines,
  rw h,
  refl,
  refl,
  adjusted_lem (deltas_of s.lines) s.lines u (deltas_of-KeepsUnit s.lines d)
      (deltas_of_lem s.lines d),
)

-- A measurement of the only line is accepted in any unit, and its difference is that of the bare
-- numbers, in the expected unit.
pub any_unit_accepted :
    (s : StockTaking) (l : StockTakingLine) (actual : Quantity)
    → s.status ≡ started
    → s.lines ≡ l ∷ []
    → (s' : StockTaking) × (measured : StockTakingLine) × (record_measurement l.sku_id actual s
        ≡ ok s')
      × (s'.lines ≡ measured ∷ [])
      × (compute_delta measured
          ≡ some (record {
            amount = sub_ℕ actual.amount l.expected_quantity.amount;
            unit = l.expected_quantity.unit;
          }))
unfolding record_measurement record_actual compute_delta
any_unit_accepted s l actual h one =
    let own : (l.sku_id == l.sku_id) ≡ true = ground arith in
    (
      record s { lines = record l { actual_quantity = some actual } ∷ [] },
      record l { actual_quantity = some actual },
      rw (h, one) (rw own),
      refl,
      refl,
    )
