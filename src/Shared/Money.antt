-- ===== src/Shared/Money.antt =====
-- libs/backend/shared/ddd/src/money.value-object.ts, and the rounding that its users do.
use native.Mathlib.Decide.{dec_le}
use native.Mathlib.Nat.{le-div_iff_mul-le, div-mul-le_self, lt-div-mul-add, mul-le-mul_left}
use detailing_studio.Prelude.{
  ℕ, ◌+◌, ◌-◌, ◌*◌, ◌/◌, ◌%◌, ◌≤◌, ◌<◌, ◌≡◌, arith, ltb, if◌then◌else◌, Result, ok, err,
}

-- An amount of roubles; `cents` is a bigint that `rub` and `subtract` keep from being negative.
pub record Money : Type 0 where
  pub cents : ℕ

-- `rub` at the text `r.kk` with two digits `kk`: `toCents` reads what stands before and after the
-- point.
abbrev pub rub : ℕ → ℕ → Money
rub roubles kopecks = record { cents = roubles * 100 + kopecks }

abbrev pub add : Money → Money → Money
add p q = record { cents = p.cents + q.cents }

pub data MoneyError : Type 0 where
  not_enough_funds : MoneyError

unfoldable pub subtract : Money → Money → Result MoneyError Money
subtract p q =
    if ltb p.cents q.cents then err not_enough_funds else ok (record { cents = p.cents - q.cents })

-- `moneyFromCents` of stock.aggregate.ts, which prints the roubles and the kopecks for `rub`.
unfoldable pub money_from_cents : ℕ → Money
money_from_cents cents = rub (cents / 100) (cents % 100)

pub cents-money_from_cents : (c : ℕ) → (money_from_cents c).cents ≡ c
unfolding money_from_cents
cents-money_from_cents c = omega arith

-- `Math.round(n / d)`: to the nearest integer, halves upwards.
abbrev pub round_div : ℕ → ℕ → ℕ
round_div n d = (2 * n + d) / (2 * d)

module _ (n d : ℕ) (h : 0 < d) where
  pub le-round_div : (lo : ℕ) → lo * d ≤ n → lo ≤ round_div n d
  le-round_div lo k =
      (le-div_iff_mul-le {k = 2 * d} {x = lo} {y = 2 * n + d} (omega arith)).1 (omega arith)

  -- Rounding is to the nearest: twice the error is at most the divisor.
  pub round_div_nearest :
      (2 * (round_div n d * d) ≤ 2 * n + d) × (2 * n + d < 2 * (round_div n d * d) + 2 * d)
  round_div_nearest = (
    omega (arith, div-mul-le_self (2 * n + d) (2 * d)),
    omega (arith, lt-div-mul-add {a = 2 * n + d} {b = 2 * d} (omega arith)),
  )

  pub round_div-le : (hi : ℕ) → n ≤ hi * d → round_div n d ≤ hi
  round_div-le hi k = elim (dec_le (round_div n d) hi) [
    | yes p ↦ p
    | no p ↦ absurd (
        let above : hi + 1 ≤ round_div n d = omega arith in
        omega (arith, round_div_nearest, mul-le-mul_left d above))
  ]
