-- ===== src/Shared/Quantity.antt =====
-- libs/backend/shared/ddd/src/quantity.value-object.ts.
-- A `number` that measures an amount is a dyadic fraction: `amount` counts 1024ths, so that sums,
-- differences and comparisons of doubles below 2^53 are exact, as they are here.
use detailing_studio.Prelude.{
  ℕ, ◌+◌, ◌-◌, ◌≡◌, refl, Bool, true, false, arith, ltb, if◌then◌else◌, Result, ok, err,
}

pub data UnitOfMeasure : Type 0 where
  g kg l m ml pcs : UnitOfMeasure

-- `===` on the members of the enum.
unfoldable pub unit_eq : UnitOfMeasure → UnitOfMeasure → Bool
unit_eq g g = true
unit_eq kg kg = true
unit_eq l l = true
unit_eq m m = true
unit_eq ml ml = true
unit_eq pcs pcs = true
unit_eq _ _ = false

pub eq_of_unit_eq : (u v : UnitOfMeasure) → unit_eq u v ≡ true → u ≡ v
unfolding unit_eq
eq_of_unit_eq u v h = ground arith

pub unit_eq_refl : (u : UnitOfMeasure) → unit_eq u u ≡ true
unfolding unit_eq
unit_eq_refl g = refl
unit_eq_refl _ = refl

pub record Quantity : Type 0 where
  pub amount : ℕ
  pub unit : UnitOfMeasure

pub data QuantityError : Type 0 where
  quantity_unit_mismatch : QuantityError
  invalid_quantity : ℕ → QuantityError

-- The number of parts of one unit that `amount` counts.
abbrev pub amount_scale : ℕ
amount_scale = 1024

-- `of`, at an amount that is finite and not negative.
abbrev pub of : ℕ → UnitOfMeasure → Quantity
of amount unit = record { amount = amount; unit = unit }

unfoldable pub add : Quantity → Quantity → Result QuantityError Quantity
add p q =
    if unit_eq p.unit q.unit
    then ok (record p { amount = p.amount + q.amount })
    else err quantity_unit_mismatch

-- A difference below 0 is thrown; the error carries how far below it is.
unfoldable pub subtract : Quantity → Quantity → Result QuantityError Quantity
subtract p q =
    if unit_eq p.unit q.unit
    then (if ltb p.amount q.amount
        then err (invalid_quantity (q.amount - p.amount))
        else ok (record p { amount = p.amount - q.amount }))
    else err quantity_unit_mismatch
