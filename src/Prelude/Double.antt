-- ===== src/Prelude/Double.antt =====
-- The `double` of the program, which the compiler supplies: the type and the operations that the
-- code uses.
use niba.Prelude.{ℕ, Option}
use niba.Prelude.Int.{ℤ}

pub record Double : Type 1 where
  pub Real : Type 0
  -- the conversion of an `int`, and a literal: `decimal 5 2` is 0.05
  pub of_int : ℤ → Real
  pub decimal : ℕ → ℕ → Real
  pub add : Real → Real → Real
  pub sub : Real → Real → Real
  pub mul : Real → Real → Real
  pub div : Real → Real → Real
  -- `static_cast<int>`; `none` where the value does not fit, which is undefined
  pub to_int : Real → Option ℤ
  -- `std::lround`, converted to `int`
  pub lround : Real → ℤ
