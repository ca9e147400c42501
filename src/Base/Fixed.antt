-- ===== src/Base/Fixed.antt =====
-- A number system that meets the laws of `Float`: decimals with four places, `none` for NaN.
-- The tests and the witnesses run on it.
use Prim.Native.Nat.{ℕ, suc, ◌+◌, ◌*◌, ◌/◌, ◌^◌, ◌≤◌}
use mathlib.Core.Bool.{Bool, false}
use mathlib.Core.Option.{Option, none, some}
use native.Mathlib.Omega.{arith}
use botik.Base.Tests.{ltb, leb, ◌==◌, if◌then◌else◌}
use botik.Base.Int.{ℤ, pos, negsuc, pos_part, neg_part, sub_ℕ}
use botik.Base.Float.{Float, FloatOrder}

abbrev pub Fixed : Type 0
Fixed = Option ℤ

abbrev lift : (ℤ → ℤ → ℤ) → Fixed → Fixed → Fixed
lift f (some a) (some b) = some (f a b)
lift f _ _ = none

abbrev on_numbers : (ℕ → ℕ → Bool) → Fixed → Fixed → Bool
on_numbers f (some a) (some b) = f (pos_part a + neg_part b) (pos_part b + neg_part a)
on_numbers f _ _ = false

-- The sign and the size of a product, rounded towards zero.
abbrev signed : Bool → ℕ → ℤ
signed minus n = if minus then sub_ℕ 0 n else pos n

abbrev product : ℤ → ℤ → ℤ
product (pos a) (pos b) = pos (a * b / 10_000)
product (pos a) (negsuc b) = sub_ℕ 0 (a * suc b / 10_000)
product (negsuc a) (pos b) = sub_ℕ 0 (suc a * b / 10_000)
product (negsuc a) (negsuc b) = pos (suc a * suc b / 10_000)

-- `x / 0` is never computed by the code; here it is 0.
abbrev quotient : ℤ → ℤ → ℤ
quotient (pos a) (pos b) = pos (a * 10_000 / b)
quotient (pos a) (negsuc b) = sub_ℕ 0 (a * 10_000 / suc b)
quotient (negsuc a) (pos b) = sub_ℕ 0 (suc a * 10_000 / b)
quotient (negsuc a) (negsuc b) = pos (suc a * 10_000 / suc b)

abbrev opposite : Fixed → Fixed
opposite none = none
opposite (some a) = some (sub_ℕ (neg_part a) (pos_part a))

instance abbrev pub fixed_float : Float Fixed
fixed_float = record {
  lit = λ m k. some (pos (m * 10_000 / 10 ^ k));
  add = lift λ a b. sub_ℕ (pos_part a + pos_part b) (neg_part a + neg_part b);
  sub = lift λ a b. sub_ℕ (pos_part a + neg_part b) (neg_part a + pos_part b);
  mul = lift product;
  div = lift quotient;
  neg = opposite;
  lt = on_numbers ltb;
  le = on_numbers leb;
  eq = on_numbers ◌==◌;
}

div_mono : (a b c : ℕ) → a ≤ b → a / c ≤ b / c
div_mono a b c h = grind arith

pub Fixed-FloatOrder : FloatOrder Fixed
Fixed-FloatOrder = record {
  lit_number = λ m k. ground arith;
  lit_mono = λ m n k h. ground (arith, div_mono (m * 10_000) (n * 10_000) (10 ^ k));
  le_numbers = λ x y h. ground arith;
  lt_numbers = λ x y h. ground arith;
  le_trans = λ x y z h k. ground arith;
  le_total = λ x y h k. ground arith;
  lt-eq-not-le = λ x y h k. ground arith;
}
