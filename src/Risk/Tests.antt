-- ===== src/Risk/Tests.antt =====
-- The risk limits on concrete inputs.
use botik.Base.{
  ℕ, ◌+◌, ◌*◌, ◌≤◌, ◌≡◌, refl, ◌↔◌, true, none, some, List, [], ◌∷◌, length, keep, arith,
}
use botik.Base.Int.{pos}
use botik.Base.Fixed.{Fixed, fixed_float, Fixed-FloatOrder}
use botik.Risk.Manager.{
  RiskLimits, OrderCheck, Attempt, allowed, check_order, check_limits, prune, attempt, attempts,
  orders_in_last_minute, register_order_placed, notional, max_total_exposure, max_symbol_exposure,
}
use botik.Risk.Window.{is_recent}
use botik.Risk.Rate.{attempts_rate, orders_in_last_minute_exact}
use botik.Risk.Limits.{IsWithinLimits, AreNumbers, check_order_iff}

-- 10000 USDT, 2 % in all and 1 % for a symbol, two orders a minute, three positions.
abbrev limits : RiskLimits Fixed
limits = record {
  initial_equity = some (pos 100_000_000);
  max_total_pct = some (pos 20_000);
  max_symbol_exposure_pct = some (pos 10_000);
  max_orders_per_minute = 2;
  max_open_positions = 3;
}

-- Half a coin at 100 USDT, with `held` USDT in the symbol.
abbrev order : ℕ → OrderCheck Fixed
order held = record {
  price = some (pos 1_000_000);
  qty = some (pos 5_000);
  current_total_exposure = some (pos (held * 10_000));
  current_symbol_exposure = some (pos (held * 10_000));
  current_open_positions = 1;
  leverage = none;
}

abbrev nan_order : OrderCheck Fixed
nan_order = record {
  price = none;
  qty = some (pos 5_000);
  current_total_exposure = some (pos 0);
  current_symbol_exposure = some (pos 0);
  current_open_positions = 1;
  leverage = none;
}

abbrev pass : ℕ → Attempt Fixed
pass at = record { check = order 0; checked_at = at; accepted = true; placed_at = at + 1 }

-- The third order comes too early; the fourth comes when the first is more than a minute old.
abbrev passes : List (Attempt Fixed)
passes = pass 10 ∷ pass 20 ∷ pass 30 ∷ pass 60_000_000_020 ∷ []

third_refused : (attempts limits passes ([], [])).1 ≡ 11 ∷ 21 ∷ 60_000_000_021 ∷ []
unfolding attempts attempt check_order check_limits orders_in_last_minute register_order_placed
    prune notional max_total_exposure max_symbol_exposure
third_refused = refl

attempts_rate_example :
    length (keep (is_recent 60_000_000_022) (attempts limits passes ([], [])).1) ≤ 2
attempts_rate_example = attempts_rate limits passes 0 60_000_000_022 (omega arith) (omega arith)

orders_in_last_minute_exact_example :
    let (ts, placed) = attempts limits passes ([], []) in
    (orders_in_last_minute 60_000_000_022 ts).0 ≡ length (keep (is_recent 60_000_000_022) placed)
orders_in_last_minute_exact_example =
    orders_in_last_minute_exact limits passes 0 60_000_000_022 (omega arith) (omega arith)

order_numbers : AreNumbers limits (order 40)
unfolding notional max_total_exposure max_symbol_exposure
order_numbers = record {
  notional_number = refl;
  total_number = refl;
  symbol_number = refl;
  max_total_number = refl;
  max_symbol_number = refl;
}

check_order_iff_example :
    (allowed (check_order limits (order 40) 100 (50 ∷ [])).0 ≡ true)
    ↔ IsWithinLimits limits (order 40) 100 (50 ∷ [])
check_order_iff_example =
    check_order_iff limits (order 40) Fixed-FloatOrder 100 (50 ∷ []) order_numbers
