-- ===== src/Risk/Limits.antt =====
-- What `RiskManager.check_order` promises of an order that it allows.
use botik.Base.{ℕ, ◌<◌, ◌≡◌, ◌⊎◌, ◌↔◌, true, length, arith}
use botik.Base.Float.{Float, FloatOrder, IsNumber, nought}
use botik.Risk.Manager.{
  RiskLimits, OrderCheck, Timestamps, prune, orders_in_last_minute, allowed, check_order,
  check_limits, notional, max_total_exposure, max_symbol_exposure,
}

module _ {F : Type 0} ⦃fl : Float F⦄ (l : RiskLimits F) (c : OrderCheck F) where
  abbrev pub new_total : F
  new_total = fl.add c.current_total_exposure (notional c)

  abbrev pub new_symbol : F
  new_symbol = fl.add c.current_symbol_exposure (notional c)

  -- No position limit is set, or there is room for one more position.
  abbrev pub HasPositionRoom : Type 0
  HasPositionRoom = (l.max_open_positions ≡ 0) ⊎ (c.current_open_positions < l.max_open_positions)

  -- The contract of the check.
  pub record IsWithinLimits (now : ℕ) (ts : Timestamps) : Type 0 where
    pub positive : fl.lt nought (notional c) ≡ true
    pub rate : length (prune now ts) < l.max_orders_per_minute
    pub positions : HasPositionRoom
    pub total : fl.le new_total (max_total_exposure l) ≡ true
    pub symbol : fl.le new_symbol (max_symbol_exposure l) ≡ true

  -- No amount in the check is NaN.
  pub record AreNumbers : Type 0 where
    pub notional_number : IsNumber (notional c)
    pub total_number : IsNumber new_total
    pub symbol_number : IsNumber new_symbol
    pub max_total_number : IsNumber (max_total_exposure l)
    pub max_symbol_number : IsNumber (max_symbol_exposure l)

  module _ (laws : FloatOrder F) (now : ℕ) (ts : Timestamps) where
    open laws use {lit_number, lt-eq-not-le, le_numbers, lt_numbers}

    -- If no amount is NaN, an order is allowed exactly when its notional is positive, fewer orders
    -- than the limit are at most a minute old, there is room for a position, and neither exposure
    -- goes above its limit with the order added.
    pub check_order_iff :
        AreNumbers → (allowed (check_order l c now ts).0 ≡ true) ↔ IsWithinLimits now ts
    unfolding check_order check_limits orders_in_last_minute
    check_order_iff n =
        let positive = lt-eq-not-le nought (notional c) (lit_number 0 0) n.notional_number in
        let total =
          lt-eq-not-le (max_total_exposure l) new_total n.max_total_number n.total_number in
        let symbol =
          lt-eq-not-le (max_symbol_exposure l) new_symbol n.max_symbol_number n.symbol_number in
        (
          λ h. record {
            positive = ground arith;
            rate = ground arith;
            positions = ground arith;
            total = ground arith;
            symbol = ground arith;
          },
          λ w. ground arith,
        )

    -- An order whose notional is NaN, and with it both exposures, is allowed whatever the exposure
    -- limits are, if there is room in the last minute and room for a position.
    pub check_order_nan :
        ¬ IsNumber (notional c)
        → ¬ IsNumber new_total
        → ¬ IsNumber new_symbol
        → length (prune now ts) < l.max_orders_per_minute
        → HasPositionRoom
        → allowed (check_order l c now ts).0 ≡ true
    unfolding check_order check_limits orders_in_last_minute
    check_order_nan n t s r p = ground (
      arith,
      le_numbers (notional c) nought,
      lt_numbers (max_total_exposure l) new_total,
      lt_numbers (max_symbol_exposure l) new_symbol,
    )
