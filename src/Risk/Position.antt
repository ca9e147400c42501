-- ===== src/Risk/Position.antt =====
-- Position accounting (src/botik/risk/position.py) and the holding rules of the spot domain
-- (src/botik/risk/spot_rules.py).
use botik.Base.{Bool, true, ◌&&◌, ◌||◌, not, Option, none, some, if◌then◌else◌}
use botik.Base.Float.{Float, nought, one, fabs}
use botik.Base.Text.{Text, codes, text_eq, lower, strip}

module _ {F : Type 0} ⦃fl : Float F⦄ where
  abbrev pub same_direction : F → F → Bool
  same_direction current_qty signed_fill =
      (fl.lt nought current_qty && fl.lt nought signed_fill)
      || (fl.lt current_qty nought && fl.lt signed_fill nought)

  abbrev pub increase : F → F → F → F → F × F
  increase current_qty current_avg_entry signed_fill fill_price =
      let new_qty = fl.add current_qty signed_fill in
      if fl.eq new_qty nought then (nought, nought) else (
        new_qty,
        fl.div
            (fl.add (fl.mul (fabs current_qty) current_avg_entry)
              (fl.mul (fabs signed_fill) fill_price))
            (fabs new_qty),
      )

  -- A partial close, a full close, or a reversal.
  abbrev pub reduce : F → F → F → F → F × F
  reduce current_qty current_avg_entry signed_fill fill_price =
      if fl.lt (fabs signed_fill) (fabs current_qty)
      then (fl.add current_qty signed_fill, current_avg_entry)
      else if fl.eq (fabs signed_fill) (fabs current_qty)
      then (nought, nought)
      else (fl.add current_qty signed_fill, fill_price)

  unfoldable pub apply_signed : F → F → F → F → F × F
  apply_signed current_qty current_avg_entry signed_fill fill_price =
      if fl.eq current_qty nought
      then (signed_fill, fill_price)
      else if same_direction current_qty signed_fill
      then increase current_qty current_avg_entry signed_fill fill_price
      else reduce current_qty current_avg_entry signed_fill fill_price

  -- `apply_fill`
  unfoldable pub apply_fill : F → F → Text → F → F → F × F
  apply_fill current_qty current_avg_entry side fill_qty fill_price =
      let side_norm = lower side in
      if fl.le fill_qty nought || fl.le fill_price nought
      then (current_qty, current_avg_entry)
      else if text_eq side_norm (codes "buy")
      then apply_signed current_qty current_avg_entry fill_qty fill_price
      else if text_eq side_norm (codes "sell")
      then apply_signed current_qty current_avg_entry (fl.neg fill_qty) fill_price
      else (current_qty, current_avg_entry)

  -- `unrealized_pnl_pct`
  unfoldable pub unrealized_pnl_pct : F → F → F → Option F
  unrealized_pnl_pct position_qty avg_entry_price mark_price =
      if fl.eq position_qty nought || (fl.le avg_entry_price nought || fl.le mark_price nought)
      then none
      else if fl.lt nought position_qty
      then some (fl.sub (fl.div mark_price avg_entry_price) one)
      else some (fl.sub (fl.div avg_entry_price mark_price) one)

  -- `classify_spot_state`
  abbrev pub classify_profit : Option F → Text
  classify_profit none = codes "unknown"
  classify_profit (some pnl) =
      if fl.lt pnl nought
      then codes "floating_loss"
      else if fl.lt nought pnl
      then codes "floating_profit"
      else codes "flat"

  unfoldable pub classify_spot_state : Text → Option F → Text
  classify_spot_state hold_reason pnl_pct =
      let reason = strip hold_reason in
      if text_eq reason (codes "stale_hold")
      then codes "stale_hold"
      else if text_eq reason (codes "unknown_recovered_from_exchange")
      then codes "recovered_hold"
      else classify_profit pnl_pct

-- Membership in `PROTECTED_HOLD_REASONS`.
abbrev pub is_protected_reason : Text → Bool
is_protected_reason s =
    text_eq s (codes "manual_import") || text_eq s (codes "unknown_recovered_from_exchange")

-- `can_auto_sell_hold`
unfoldable pub can_auto_sell_hold : Text → Bool → Bool
can_auto_sell_hold hold_reason auto_sell_allowed =
    if auto_sell_allowed then true else not (is_protected_reason (strip hold_reason))
