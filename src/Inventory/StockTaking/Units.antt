-- ===== src/Inventory/StockTaking/Units.antt =====
-- The units of the differences of a stock taking.
use detailing_studio.Prelude.{
  ℕ, ◌≡◌, refl, ◌∙◌, arith, false, Option, none, some, List, [], ◌∷◌, ◌==◌, any, All, if◌then◌else◌,
  Bool-cases, inl, inr,
}
use detailing_studio.Shared.Quantity.{Quantity, UnitOfMeasure}
use detailing_studio.Inventory.Stock.Movement.{SignedQuantity}
use detailing_studio.Inventory.StockTaking.{
  StockTakingLine, StockTakingDelta, compute_delta, delta_of, is_zero, add_delta, deltas_of,
}

-- The unit of the difference that is reported for an SKU, with one for where there is none.
abbrev pub reported_unit : UnitOfMeasure → ℕ → List StockTakingDelta → UnitOfMeasure
reported_unit u sku [] = u
reported_unit u sku (d ∷ ds) = if d.sku_id == sku then d.delta.unit else reported_unit u sku ds

-- Each SKU stands on one line.
abbrev pub DistinctSkus : List StockTakingLine → Type 0
DistinctSkus [] = Unit
DistinctSkus (l ∷ ls) = (any (λ x. x.sku_id == l.sku_id) ls ≡ false) × DistinctSkus ls

-- What is reported for the SKU of a line is in the unit of its expected quantity.
abbrev KeepsUnit : List StockTakingDelta → StockTakingLine → Type 0
KeepsUnit ds l = reported_unit l.expected_quantity.unit l.sku_id ds ≡ l.expected_quantity.unit

unit_other :
    (u : UnitOfMeasure) (sku other : ℕ) (d : Option SignedQuantity) (ds : List StockTakingDelta)
    → (other == sku) ≡ false
    → reported_unit u sku (add_delta other d ds) ≡ reported_unit u sku ds
unit_other u sku other none ds h = refl
unit_other u sku other (some d) ds h = elim (Bool-cases (is_zero d.amount)) [
  | inl same ↦ rw same
  | inr changed ↦ rw (changed, h)
]

unit_unreported :
    (u : UnitOfMeasure) (sku : ℕ) (ls : List StockTakingLine)
    → any (λ x. x.sku_id == sku) ls ≡ false
    → reported_unit u sku (deltas_of ls) ≡ u
unfolding deltas_of
unit_unreported u sku [] h = refl
unit_unreported u sku (l ∷ ls) h =
    let other : (l.sku_id == sku) ≡ false = ground arith in
    unit_other u sku l.sku_id (compute_delta l) (deltas_of ls) other
    ∙ unit_unreported u sku ls (ground arith)

unit_own :
    (expected : Quantity) (actual : Option Quantity) (sku : ℕ) (ds : List StockTakingDelta)
    → reported_unit expected.unit sku ds ≡ expected.unit
    → reported_unit expected.unit sku (add_delta sku (delta_of expected actual) ds) ≡ expected.unit
unit_own expected actual sku ds h = ground arith

later_units :
    (sku : ℕ) (d : Option SignedQuantity) (ds : List StockTakingDelta) (ls : List StockTakingLine)
    → any (λ x. x.sku_id == sku) ls ≡ false
    → All (KeepsUnit ds) ls
    → All (KeepsUnit (add_delta sku d ds)) ls
later_units sku d ds [] h k = tt
later_units sku d ds (l ∷ ls) h k =
    let other : (sku == l.sku_id) ≡ false = ground arith in
    (
      unit_other l.expected_quantity.unit l.sku_id sku d ds other ∙ k.0,
      later_units sku d ds ls (ground arith) k.1,
    )

pub deltas_of-KeepsUnit :
    (ls : List StockTakingLine) → DistinctSkus ls → All (KeepsUnit (deltas_of ls)) ls
unfolding deltas_of compute_delta
deltas_of-KeepsUnit [] d = tt
deltas_of-KeepsUnit (l ∷ ls) d = (
  unit_own l.expected_quantity l.actual_quantity l.sku_id (deltas_of ls)
      (unit_unreported l.expected_quantity.unit l.sku_id ls d.0),
  later_units l.sku_id (compute_delta l) (deltas_of ls) ls d.0 (deltas_of-KeepsUnit ls d.1),
)
