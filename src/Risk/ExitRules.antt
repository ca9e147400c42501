-- ===== src/Risk/ExitRules.antt =====
-- `decide_exit_reason` (src/botik/risk/exit_rules.py).
use botik.Base.{Bool, ◌&&◌, Option, none, some, if◌then◌else◌}
use botik.Base.Float.{Float, nought, fmax, fabs}

pub data ExitReason : Type 0 where
  stop_loss take_profit fallback_stoploss fallback_breakeven fallback_trailing hold_timeout :
      ExitReason

-- The arguments of `decide_exit_reason`.
pub record ExitInput (F : Type 0) : Type 0 where
  pub pnl_pct : Option F
  pub age_sec : F
  pub hold_timeout_sec : F
  pub pnl_exit_enabled : Bool
  pub stop_loss_pct : F
  pub take_profit_pct : F
  pub fallback_stoploss_bps : F
  pub fallback_breakeven_bps : F
  pub fallback_trailing_bps : F
  pub fallback_trailing_activation_bps : F
  pub peak_pnl_bps : F

module _ {F : Type 0} ⦃fl : Float F⦄ (i : ExitInput F) where
  unfoldable pub pnl_bps : F → F
  pnl_bps pnl = fl.mul pnl (fl.lit 10_000 0)

  -- `peak`, after the first block.
  unfoldable pub updated_peak : Option F → F
  updated_peak none = i.peak_pnl_bps
  updated_peak (some pnl) =
      if fl.lt i.peak_pnl_bps (pnl_bps pnl) then pnl_bps pnl else i.peak_pnl_bps

  -- The second block: the configured exits.
  unfoldable pub pnl_exit : F → Option ExitReason
  pnl_exit pnl =
      if i.pnl_exit_enabled
      then if fl.lt nought i.stop_loss_pct && fl.le pnl (fl.neg i.stop_loss_pct)
        then some ExitReason.stop_loss
        else if fl.lt nought i.take_profit_pct && fl.le i.take_profit_pct pnl
        then some ExitReason.take_profit
        else none
      else none

  -- The third block: the fallbacks, on the profit in basis points and the peak.
  unfoldable pub fallback_exit : F → F → Option ExitReason
  fallback_exit bps peak =
      if fl.lt nought i.fallback_stoploss_bps && fl.le bps (fl.neg (fabs i.fallback_stoploss_bps))
      then some ExitReason.fallback_stoploss
      else if fl.lt nought i.fallback_breakeven_bps
          && (fl.le i.fallback_breakeven_bps peak && fl.le bps nought)
      then some ExitReason.fallback_breakeven
      else if fl.lt nought i.fallback_trailing_bps
          && (fl.le (fmax i.fallback_trailing_activation_bps nought) peak
              && fl.le bps (fl.sub peak (fabs i.fallback_trailing_bps)))
      then some ExitReason.fallback_trailing
      else none

  abbrev pub or_timeout : Option ExitReason → Option ExitReason
  or_timeout (some r) = some r
  or_timeout none =
      if fl.le i.hold_timeout_sec i.age_sec then some ExitReason.hold_timeout else none

  abbrev pub or_else : Option ExitReason → Option ExitReason → Option ExitReason
  or_else (some r) other = some r
  or_else none other = other

  abbrev pub reason_on : Option F → Option ExitReason
  reason_on none = none
  reason_on (some pnl) =
      or_else (pnl_exit pnl) (fallback_exit (pnl_bps pnl) (updated_peak (some pnl)))

  unfoldable pub decide_exit_reason : Option ExitReason × F
  decide_exit_reason = (or_timeout (reason_on i.pnl_pct), updated_peak i.pnl_pct)
