-- ===== src/Risk/Manager.antt =====
-- `RiskManager` (src/botik/risk/manager.py) and the gate of the trading loop that uses it
-- (src/botik/main.py). `time.monotonic()` is a number of nanoseconds, and is an argument.
use botik.Base.{
  ℕ, ◌-◌, Bool, true, false, ◌&&◌, Option, none, some, List, [], ◌∷◌, ◌++◌, length, ltb, leb,
  if◌then◌else◌,
}
use botik.Base.Float.{Float, fmax, nought, one}

-- What the manager takes from `RiskConfig`. A negative `max_open_positions` is no limit, as 0 is.
pub record RiskLimits (F : Type 0) : Type 0 where
  pub initial_equity : F
  pub max_total_pct : F
  pub max_symbol_exposure_pct : F
  pub max_orders_per_minute : ℕ
  pub max_open_positions : ℕ

-- The reasons of a `RiskCheckResult`, with what their texts show.
pub data Reason (F : Type 0) : Type 0 where
  ok notional_not_positive too_many_orders : Reason F
  too_many_positions : (current limit : ℕ) → Reason F
  total_exposure symbol_exposure : (exposure limit : F) → Reason F

abbrev pub allowed : {F : Type 0} → Reason F → Bool
allowed Reason.ok = true
allowed _ = false

-- `_order_timestamps`, the oldest first.
abbrev pub Timestamps : Type 0
Timestamps = List ℕ

-- 60.0 seconds
abbrev pub minute : ℕ
minute = 60_000_000_000

-- `while ts and now - ts[0] > 60.0: ts.popleft()`. The clock is monotonic, and where it were not
-- the difference would be negative and the test fail, as it does here at 0.
unfoldable pub prune : ℕ → Timestamps → Timestamps
prune now [] = []
prune now (t ∷ ts) = if ltb minute (now - t) then prune now ts else t ∷ ts

unfoldable pub register_order_placed : ℕ → Timestamps → Timestamps
register_order_placed now ts = prune now (ts ++ (now ∷ []))

unfoldable pub orders_in_last_minute : ℕ → Timestamps → ℕ × Timestamps
orders_in_last_minute now ts = let left = prune now ts in (length left, left)

-- The arguments of `check_order` that it reads.
pub record OrderCheck (F : Type 0) : Type 0 where
  pub price : F
  pub qty : F
  pub current_total_exposure : F
  pub current_symbol_exposure : F
  pub current_open_positions : ℕ
  pub leverage : Option F

module _ {F : Type 0} ⦃fl : Float F⦄ where
  unfoldable pub max_total_exposure : RiskLimits F → F
  max_total_exposure l = fl.mul l.initial_equity (fl.div l.max_total_pct (fl.lit 100 0))

  unfoldable pub max_symbol_exposure : RiskLimits F → F
  max_symbol_exposure l = fl.mul l.initial_equity (fl.div l.max_symbol_exposure_pct (fl.lit 100 0))

  abbrev pub raw_leverage : Option F → F
  raw_leverage none = one
  raw_leverage (some x) = x

  unfoldable pub notional : OrderCheck F → F
  notional c = fl.mul (fl.mul c.price c.qty) (fmax (raw_leverage c.leverage) one)

  -- The checks after the one on the notional.
  unfoldable pub check_limits : RiskLimits F → OrderCheck F → ℕ → Reason F
  check_limits l c orders =
      if leb l.max_orders_per_minute orders
      then Reason.too_many_orders
      else if ltb 0 l.max_open_positions && leb l.max_open_positions c.current_open_positions
      then Reason.too_many_positions c.current_open_positions l.max_open_positions
      else if fl.lt (max_total_exposure l) (fl.add c.current_total_exposure (notional c))
      then Reason.total_exposure (fl.add c.current_total_exposure (notional c))
          (max_total_exposure l)
      else if fl.lt (max_symbol_exposure l) (fl.add c.current_symbol_exposure (notional c))
      then Reason.symbol_exposure (fl.add c.current_symbol_exposure (notional c))
          (max_symbol_exposure l)
      else Reason.ok

  -- An order with no positive notional is refused before the timestamps are looked at.
  unfoldable pub check_order : RiskLimits F → OrderCheck F → ℕ → Timestamps → Reason F × Timestamps
  check_order l c now ts =
      let (orders, left) = orders_in_last_minute now ts in
      if fl.le (notional c) nought
      then (Reason.notional_not_positive, ts)
      else (check_limits l c orders, left)

-- A pass of the trading loop for one order: the check, the submission to the exchange, which may
-- fail, and the registration when it went through.
pub record Attempt (F : Type 0) : Type 0 where
  pub check : OrderCheck F
  pub checked_at : ℕ
  pub accepted : Bool
  pub placed_at : ℕ

module _ {F : Type 0} ⦃fl : Float F⦄ where
  -- The timestamps, and the times of all orders that were placed so far.
  unfoldable pub attempt : RiskLimits F → Attempt F → Timestamps × List ℕ → Timestamps × List ℕ
  attempt l a (ts, placed) =
      let (reason, left) = check_order l a.check a.checked_at ts in
      if allowed reason && a.accepted
      then (register_order_placed a.placed_at left, placed ++ (a.placed_at ∷ []))
      else (left, placed)

  unfoldable pub attempts :
      RiskLimits F → List (Attempt F) → Timestamps × List ℕ → Timestamps × List ℕ
  attempts l [] s = s
  attempts l (a ∷ as') s = attempts l as' (attempt l a s)
