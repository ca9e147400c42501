-- ===== src/Base/Float.antt =====
-- Python's `float`, an IEEE 754 double. The code under src/ computes with floats throughout, and
-- this logic has none, so a component takes the type and its operations as an instance. A theorem
-- that needs more than the tests themselves takes `FloatOrder`, the order laws of IEEE 754.
use mathlib.Core.Logic.{◌⊎◌}
use Prim.Native.Nat.{ℕ, ◌≤◌}
use mathlib.Core.Path.{◌≡◌}
use mathlib.Core.Bool.{Bool, true, false, not}
use native.Mathlib.Omega.{arith}
use botik.Base.Tests.{if◌then◌else◌}

pub record Float (F : Type 0) : Type 0 where
  -- `lit m k` is the literal m · 10⁻ᵏ
  pub lit : ℕ → ℕ → F
  pub add : F → F → F
  pub sub : F → F → F
  pub mul : F → F → F
  pub div : F → F → F
  pub neg : F → F
  pub lt : F → F → Bool
  pub le : F → F → Bool
  pub eq : F → F → Bool

module _ {F : Type 0} ⦃fl : Float F⦄ where
  abbrev pub nought : F
  nought = fl.lit 0 0

  abbrev pub one : F
  one = fl.lit 1 0

  -- `max(x, y)` and `min(x, y)` keep the first argument unless the second is beyond it.
  abbrev pub fmax : F → F → F
  fmax x y = if fl.lt x y then y else x

  abbrev pub fmin : F → F → F
  fmin x y = if fl.lt y x then y else x

  abbrev pub fabs : F → F
  fabs x = if fl.lt x nought then fl.neg x else x

  -- Every float but NaN is `<=` itself.
  abbrev pub IsNumber : F → Type 0
  IsNumber x = fl.le x x ≡ true

-- What IEEE 754 says of `<` and `<=`, and of the literals.
pub record FloatOrder (F : Type 0) ⦃fl : Float F⦄ : Type 0 where
  pub lit_number : (m k : ℕ) → IsNumber (fl.lit m k)
  pub lit_mono : (m n k : ℕ) → m ≤ n → fl.le (fl.lit m k) (fl.lit n k) ≡ true
  pub le_numbers : (x y : F) → fl.le x y ≡ true → IsNumber x × IsNumber y
  pub lt_numbers : (x y : F) → fl.lt x y ≡ true → IsNumber x × IsNumber y
  pub le_trans : (x y z : F) → fl.le x y ≡ true → fl.le y z ≡ true → fl.le x z ≡ true
  pub le_total : (x y : F) → IsNumber x → IsNumber y → (fl.le x y ≡ true) ⊎ (fl.le y x ≡ true)
  pub lt-eq-not-le : (x y : F) → IsNumber x → IsNumber y → fl.lt x y ≡ not (fl.le y x)

module _ {F : Type 0} ⦃fl : Float F⦄ (laws : FloatOrder F) where
  open laws use {le_numbers, lt_numbers, le_trans, le_total, lt-eq-not-le}

  pub le_of_lt : (x y : F) → fl.lt x y ≡ true → fl.le x y ≡ true
  le_of_lt x y h =
      let n = lt_numbers x y h in ground (arith, le_total x y n.0 n.1, lt-eq-not-le x y n.0 n.1)

  -- `not (x < y)` between numbers.
  pub le_of_not_lt : (x y : F) → IsNumber x → IsNumber y → fl.lt x y ≡ false → fl.le y x ≡ true
  le_of_not_lt x y p q h = ground (arith, lt-eq-not-le x y p q)

  pub lt_of_le_lt : (x y z : F) → fl.le x y ≡ true → fl.lt y z ≡ true → fl.lt x z ≡ true
  lt_of_le_lt x y z h k =
      let ny = le_numbers x y h in
      let nz = lt_numbers y z k in
      ground (arith, lt-eq-not-le x z ny.0 nz.1, lt-eq-not-le y z ny.1 nz.1, le_trans z x y)

  pub lt_of_lt_le : (x y z : F) → fl.lt x y ≡ true → fl.le y z ≡ true → fl.lt x z ≡ true
  lt_of_lt_le x y z h k =
      let ny = lt_numbers x y h in
      let nz = le_numbers y z k in
      ground (arith, lt-eq-not-le x z ny.0 nz.1, lt-eq-not-le x y ny.0 nz.0, le_trans y z x)
