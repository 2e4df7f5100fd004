-- ===== src/Analytics/Decimal.antt =====
-- Python's `decimal.Decimal`, which the source only calls: its operations are a parameter.
-- `div` returns `none` where the division raises `DivisionByZero` or `InvalidOperation`.
use ai_pmo_copilot.Common.{ℕ, ◌≡◌, ◌≢◌, Bool, false, Option, none}
use ai_pmo_copilot.Common.Int.{ℤ, pos}

pub record DecimalOps : Type 1 where
  pub Decimal : Type 0
  pub of_int : ℤ → Decimal
  pub add : Decimal → Decimal → Decimal
  pub sub : Decimal → Decimal → Decimal
  pub mul : Decimal → Decimal → Decimal
  pub div : Decimal → Decimal → Option Decimal
  pub abs : Decimal → Decimal
  pub eqb : Decimal → Decimal → Bool
  pub ltb_d : Decimal → Decimal → Bool
  pub leb_d : Decimal → Decimal → Bool
  -- `Decimal("0.1")` and `Decimal("0.25")`, as the decimal literals of numerator and exponent
  pub literal : ℕ → ℕ → Decimal

-- What the source relies on: a division raises only for a divisor that compares equal to 0, and
-- `Decimal(100)` does not.
pub record DecimalLaws (o : DecimalOps) : Type 0 where
  pub div_defined : (a b : o.Decimal) → o.eqb b (o.of_int (pos 0)) ≡ false → o.div a b ≢ none
  pub hundred_ne_zero : o.eqb (o.of_int (pos 100)) (o.of_int (pos 0)) ≡ false
