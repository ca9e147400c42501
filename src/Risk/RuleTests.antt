-- ===== src/Risk/RuleTests.antt =====
-- The rules of the risk package on concrete inputs.
use botik.Base.{ℕ, suc, ◌*◌, ◌/◌, ◌≤◌, ◌≡◌, refl, ◌⊎◌, ◌↔◌, true, false, none, some, arith}
use botik.Base.Int.{pos, negsuc}
use botik.Base.Float.{nought, one, IsNumber}
use botik.Base.Fixed.{Fixed, fixed_float, Fixed-FloatOrder}
use botik.Base.Text.{codes, normalize}
use botik.Risk.FuturesRules.{transition_protection_status, protected}
use botik.Risk.Protection.{transition-protected_iff}
use botik.Risk.ExitRules.{ExitInput, ExitReason, decide_exit_reason, pnl_bps, updated_peak}
use botik.Risk.Exits.{IsPeak, decide_exit_reason_first}
use botik.Risk.Fills.{SignLaws}
use botik.Risk.FuturesProtection.{
  FuturesProtectionPlan, build_futures_protection_plan, validate_futures_protection_params,
}
use botik.Risk.Plans.{ScaleLaws, Brackets, build_plan-Brackets}

Fixed-SignLaws : SignLaws Fixed
Fixed-SignLaws = record {
  add_pos = λ x y h. ground arith;
  add_neg = λ x y h. ground arith;
  neg_pos = λ x h. ground arith;
  neg_neg = λ x h. ground arith;
  neg_swap = λ x y h. ground arith;
  swap_neg = λ x y h. ground arith;
  eq-le-le = λ x y. ground arith;
}

scaled_mono : (x a b : ℕ) → a ≤ b → x * a / 10_000 ≤ x * b / 10_000
scaled_mono x a b h = grind arith

Fixed-mul_mono :
    (x a b : Fixed)
    → fixed_float.le nought x ≡ true
    → fixed_float.le a b ≡ true
    → IsNumber (fixed_float.mul x a)
    → IsNumber (fixed_float.mul x b)
    → fixed_float.le (fixed_float.mul x a) (fixed_float.mul x b) ≡ true
Fixed-mul_mono (some (pos x)) (some (pos a)) (some (pos b)) p q m n =
    ground (arith, scaled_mono x a b)
Fixed-mul_mono (some (pos x)) (some (pos a)) (some (negsuc b)) p q m n = ground arith
Fixed-mul_mono (some (pos x)) (some (negsuc a)) (some (pos b)) p q m n = ground arith
Fixed-mul_mono (some (pos x)) (some (negsuc a)) (some (negsuc b)) p q m n =
    ground (arith, scaled_mono x (suc b) (suc a))
Fixed-mul_mono (some (negsuc x)) a b p q m n = ground arith
Fixed-mul_mono (some (pos x)) none b p q m n = ground arith
Fixed-mul_mono (some (pos x)) (some a) none p q m n = ground arith
Fixed-mul_mono none a b p q m n = ground arith

Fixed-mul_one : (x : Fixed) → IsNumber x → fixed_float.mul x one ≡ x
Fixed-mul_one none h = refl
Fixed-mul_one (some (pos x)) h = ground arith
Fixed-mul_one (some (negsuc x)) h = ground arith

Fixed-ScaleLaws : ScaleLaws Fixed
Fixed-ScaleLaws = record {
  one-sub = λ x h. ground arith;
  one-add = λ x h. ground arith;
  mul-one = Fixed-mul_one;
  mul_mono = Fixed-mul_mono;
}

abbrev fixed : ℕ → Fixed
fixed n = some (pos n)

transition-protected_iff_example :
    (transition_protection_status (some (codes "pending")) true true (some (codes " Protected "))
      ≡ protected)
    ↔ (((true ≡ true) × (true ≡ true) × (normalize (some (codes " Protected ")) ≡ protected))
        ⊎ ((true ≡ false) × (normalize (some (codes "pending")) ≡ protected)))
transition-protected_iff_example =
    transition-protected_iff (some (codes "pending")) (some (codes " Protected ")) true true

-- A profit of 0.2 % after a peak of 60 basis points, with a trailing stop of 30.
abbrev exit_input : ExitInput Fixed
exit_input = record {
  pnl_pct = some (fixed 20);
  age_sec = fixed 100_000;
  hold_timeout_sec = fixed 600_000;
  pnl_exit_enabled = true;
  stop_loss_pct = fixed 100;
  take_profit_pct = fixed 200;
  fallback_stoploss_bps = fixed 0;
  fallback_breakeven_bps = fixed 0;
  fallback_trailing_bps = fixed 300_000;
  fallback_trailing_activation_bps = fixed 400_000;
  peak_pnl_bps = fixed 600_000;
}

decide_exit_reason_first_example :
    IsPeak exit_input exit_input.pnl_pct (fixed 600_000)
    × ((decide_exit_reason exit_input).0 ≡ some ExitReason.fallback_trailing)
unfolding decide_exit_reason pnl_bps updated_peak
decide_exit_reason_first_example = decide_exit_reason_first exit_input Fixed-FloatOrder

abbrev plan : FuturesProtectionPlan Fixed
plan = record {
  stop_loss = fixed 980_000;
  take_profit = fixed 1_030_000;
  trailing_stop = none;
  stop_loss_pct = fixed 200;
  take_profit_pct = fixed 300;
}

build_plan-Brackets_example :
    Brackets (fixed 1_000_000) (fixed 10_000) plan
    × (fixed_float.le plan.stop_loss nought ≡ false)
    × (fixed_float.le plan.take_profit nought ≡ false)
    × (plan.trailing_stop ≡ none)
unfolding build_futures_protection_plan validate_futures_protection_params
build_plan-Brackets_example =
    build_plan-Brackets Fixed-FloatOrder Fixed-ScaleLaws (fixed 1_000_000) (fixed 10_000)
      (fixed 200) (fixed 300) none plan refl refl refl refl refl refl
