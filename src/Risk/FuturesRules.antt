-- ===== src/Risk/FuturesRules.antt =====
-- The protection state machine and the risk state of a futures position
-- (src/botik/risk/futures_rules.py).
use botik.Base.{Bool, false, ◌||◌, Option, none, some, [], ◌∷◌, if◌then◌else◌}
use botik.Base.Float.{Float, nought, fabs}
use botik.Base.Text.{Text, codes, text_eq, normalize}

-- The literals of the module.
abbrev pub pending : Text
pending = codes "pending"

abbrev pub repairing : Text
repairing = codes "repairing"

abbrev pub failed : Text
failed = codes "failed"

abbrev pub unprotected : Text
unprotected = codes "unprotected"

abbrev pub protected : Text
protected = codes "protected"

abbrev pub closed : Text
closed = codes "closed"

-- `normalize_protection_status`
unfoldable pub normalize_protection_status : Option Text → Text
normalize_protection_status value = normalize value

-- Membership in `BLOCKING_PROTECTION_STATUSES`.
abbrev pub is_blocking : Text → Bool
is_blocking s =
    text_eq s pending || text_eq s repairing || text_eq s failed || text_eq s unprotected

unfoldable pub is_blocking_protection_status : Option Text → Bool
is_blocking_protection_status value = is_blocking (normalize_protection_status value)

-- Membership in `ENTRY_BLOCKING_FUTURES_RISK_STATES`.
abbrev pub is_entry_blocking : Text → Bool
is_entry_blocking s =
    text_eq s (codes "unprotected_position")
    || text_eq s (codes "soft_failure")
    || text_eq s (codes "hard_failure")

unfoldable pub is_entry_blocking_futures_risk_state : Option Text → Bool
is_entry_blocking_futures_risk_state value = is_entry_blocking (normalize value)

-- `current or "pending"`
abbrev pub or_pending : Text → Text
or_pending [] = pending
or_pending (c ∷ s) = c ∷ s

-- The branches after a successful attempt, over the normalized statuses.
abbrev pub after_apply : Text → Text → Text
after_apply current verified =
    if text_eq verified protected
    then protected
    else if text_eq verified closed
    then closed
    else if text_eq verified failed
    then failed
    else if text_eq verified unprotected
    then if text_eq current pending then unprotected else failed
    else failed

-- `transition_protection_status`
unfoldable pub transition_protection_status : Option Text → Bool → Bool → Option Text → Text
transition_protection_status current_status apply_attempted apply_success verify_status =
    let current = normalize_protection_status current_status in
    let verified = normalize_protection_status verify_status in
    if apply_attempted
    then if apply_success then after_apply current verified else failed
    else or_pending current

module _ {F : Type 0} ⦃fl : Float F⦄ where
  abbrev pub or_nought : Option F → F
  or_nought none = nought
  or_nought (some x) = x

  -- `compute_distance_to_liq_bps`. `float(x or 0.0)` is 0.0 for `None` and for 0.
  unfoldable pub compute_distance_to_liq_bps : Option Text → Option F → Option F → Option F
  compute_distance_to_liq_bps side mark_price liq_price =
      let mark = or_nought mark_price in
      let liq = or_nought liq_price in
      let side_norm = normalize side in
      let bps = λ (gap : F). some (fl.mul (fl.div gap mark) (fl.lit 10_000 0)) in
      if fl.le mark nought || fl.le liq nought
      then none
      else if text_eq side_norm (codes "buy") || text_eq side_norm (codes "long")
      then bps (fl.sub mark liq)
      else if text_eq side_norm (codes "sell") || text_eq side_norm (codes "short")
      then bps (fl.sub liq mark)
      else bps (fabs (fl.sub mark liq))

  -- The end of `classify_futures_state`, on the profit alone.
  unfoldable pub classify_pnl : Option F → Text
  classify_pnl none = codes "unknown"
  classify_pnl (some pnl) =
      if fl.le pnl (fl.neg (fl.lit 1 1))
      then codes "hard_failure"
      else if fl.lt pnl (fl.neg (fl.lit 3 2))
      then codes "soft_failure"
      else if fl.lt pnl nought
      then codes "floating_loss"
      else codes "healthy"

  abbrev pub is_near_liquidation : Option F → Bool
  is_near_liquidation none = false
  is_near_liquidation (some d) = fl.le d (fl.lit 50 0)

  -- `classify_futures_state`
  unfoldable pub classify_futures_state : Text → Option F → Option F → Text
  classify_futures_state protection_status unrealized_pnl_pct distance_to_liq_bps =
      let status = normalize (some protection_status) in
      if text_eq status unprotected
      then codes "unprotected_position"
      else if text_eq status failed || text_eq status repairing
      then codes "soft_failure"
      else if is_near_liquidation distance_to_liq_bps
      then codes "hard_failure"
      else classify_pnl unrealized_pnl_pct
