-- ===== src/Risk/FuturesProtection.antt =====
-- The protection plan and the entry gate of futures (src/botik/risk/futures_protection.py).
use botik.Base.{Bool, true, false, ◌||◌, Option, none, some, if◌then◌else◌}
use botik.Base.Float.{Float, nought, one}

-- The second part of the answers of the two gates.
pub data GateReason : Type 0 where
  ok missing_stop_loss missing_take_profit symbol_has_unprotected_position : GateReason

-- `FuturesProtectionPlan`
pub record FuturesProtectionPlan (F : Type 0) : Type 0 where
  pub stop_loss : F
  pub take_profit : F
  pub trailing_stop : Option F
  pub stop_loss_pct : F
  pub take_profit_pct : F

abbrev pub passes : GateReason → Bool
passes GateReason.ok = true
passes _ = false

module _ {F : Type 0} ⦃fl : Float F⦄ where
  -- `float(x or 0.0)`
  abbrev pub pct_or_nought : Option F → F
  pct_or_nought none = nought
  pct_or_nought (some x) = x

  -- `validate_futures_protection_params`
  unfoldable pub validate_futures_protection_params : Option F → Option F → GateReason
  validate_futures_protection_params stop_loss_pct take_profit_pct =
      if fl.le (pct_or_nought stop_loss_pct) nought
      then GateReason.missing_stop_loss
      else if fl.le (pct_or_nought take_profit_pct) nought
      then GateReason.missing_take_profit
      else GateReason.ok

  abbrev pub plan_prices : F → F → F → F → F × F
  plan_prices entry_price position_qty sl tp =
      if fl.lt nought position_qty
      then (fl.mul entry_price (fl.sub one sl), fl.mul entry_price (fl.add one tp))
      else (fl.mul entry_price (fl.add one sl), fl.mul entry_price (fl.sub one tp))

  abbrev pub plan_of : F × F → Option F → F → F → Option (FuturesProtectionPlan F)
  plan_of (stop_loss, take_profit) trailing_stop sl tp =
      if fl.le stop_loss nought || fl.le take_profit nought
      then none
      else some (record {
        stop_loss = stop_loss;
        take_profit = take_profit;
        trailing_stop = trailing_stop;
        stop_loss_pct = sl;
        take_profit_pct = tp;
      })

  -- `build_futures_protection_plan`
  unfoldable pub build_futures_protection_plan :
      F → F → F → F → Option F → Option (FuturesProtectionPlan F)
  build_futures_protection_plan entry_price position_qty stop_loss_pct take_profit_pct
        trailing_stop =
      if fl.le entry_price nought || fl.eq position_qty nought
      then none
      else if passes
          (validate_futures_protection_params (some stop_loss_pct) (some take_profit_pct))
      then plan_of (plan_prices entry_price position_qty stop_loss_pct take_profit_pct)
          trailing_stop stop_loss_pct take_profit_pct
      else none

  -- `futures_entry_allowed`
  unfoldable pub futures_entry_allowed : Option F → Option F → Bool → GateReason
  futures_entry_allowed stop_loss_pct take_profit_pct has_unprotected_position =
      let reason = validate_futures_protection_params stop_loss_pct take_profit_pct in
      if passes reason
      then if has_unprotected_position
        then GateReason.symbol_has_unprotected_position
        else GateReason.ok
      else reason
