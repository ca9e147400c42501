-- ===== src/Risk/Plans.antt =====
-- What a futures protection plan and the entry gate promise.
use botik.Base.{◌≡◌, true, false, Option, some, if◌then◌else◌, arith}
use botik.Base.Float.{Float, FloatOrder, IsNumber, nought, one}
use botik.Risk.FuturesProtection.{
  FuturesProtectionPlan, validate_futures_protection_params, build_futures_protection_plan,
}

-- What IEEE 754 says of the order under `1 ± x` and a product with a positive factor, away from
-- NaN: rounding is monotone, and `x * 1` is exact.
pub record ScaleLaws (F : Type 0) ⦃fl : Float F⦄ : Type 0 where
  pub one-sub : (x : F) → fl.le nought x ≡ true → fl.le (fl.sub one x) one ≡ true
  pub one-add : (x : F) → fl.le nought x ≡ true → fl.le one (fl.add one x) ≡ true
  pub mul-one : (x : F) → IsNumber x → fl.mul x one ≡ x
  pub mul_mono :
      (x a b : F)
      → fl.le nought x ≡ true
      → fl.le a b ≡ true
      → IsNumber (fl.mul x a)
      → IsNumber (fl.mul x b)
      → fl.le (fl.mul x a) (fl.mul x b) ≡ true

module _ {F : Type 0} ⦃fl : Float F⦄ where
  -- The protective prices stand on the two sides of the entry price.
  abbrev pub Brackets : F → F → FuturesProtectionPlan F → Type 0
  Brackets entry qty plan =
      if fl.lt nought qty
      then (fl.le plan.stop_loss entry ≡ true) × (fl.le entry plan.take_profit ≡ true)
      else (fl.le plan.take_profit entry ≡ true) × (fl.le entry plan.stop_loss ≡ true)

module _ {F : Type 0} ⦃fl : Float F⦄ (laws : FloatOrder F) (scale : ScaleLaws F) where
  open laws use {lit_number}
  open scale use {one-sub, one-add, mul-one, mul_mono}

  module _ (entry x : F) (n : IsNumber entry) (positive : fl.le nought entry ≡ true)
      (size : fl.le nought x ≡ true) where
    below-entry :
        IsNumber (fl.mul entry (fl.sub one x)) → fl.le (fl.mul entry (fl.sub one x)) entry ≡ true
    below-entry m =
        ground
          (arith, mul-one entry n, mul_mono entry (fl.sub one x) one positive (one-sub x size) m)

    above-entry :
        IsNumber (fl.mul entry (fl.add one x)) → fl.le entry (fl.mul entry (fl.add one x)) ≡ true
    above-entry m =
        ground (arith, mul-one entry n, mul_mono entry one (fl.add one x) positive (one-add x size))

  -- If a plan is made and no price in it is NaN, both its prices are positive and stand on the two
  -- sides of the entry price: for a long position the stop loss is not above it and the take profit
  -- not below, for a short one the other way round. The trailing stop is as asked.
  pub build_plan-Brackets :
      (entry qty sl tp : F) (trailing : Option F) (plan : FuturesProtectionPlan F)
      → IsNumber entry
      → IsNumber sl
      → IsNumber tp
      → IsNumber plan.stop_loss
      → IsNumber plan.take_profit
      → build_futures_protection_plan entry qty sl tp trailing ≡ some plan
      → Brackets entry qty plan
        × (fl.le plan.stop_loss nought ≡ false)
        × (fl.le plan.take_profit nought ≡ false)
        × (plan.trailing_stop ≡ trailing)
  unfolding build_futures_protection_plan validate_futures_protection_params
  build_plan-Brackets entry qty sl tp trailing plan n s t a b e =
      let zero = lit_number 0 0 in
      let pe = laws.le_total nought entry zero n in
      let ps = laws.le_total nought sl zero s in
      let pt = laws.le_total nought tp zero t in
      ground (
        arith,
        pe,
        ps,
        pt,
        below-entry entry sl n,
        below-entry entry tp n,
        above-entry entry sl n,
        above-entry entry tp n,
      )
