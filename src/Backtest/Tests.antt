-- ===== src/Backtest/Tests.antt =====
-- The witnesses of the simulations: a fall after a flat market, then a rise to the target, on decimals.
use botik.Base.{
  ℕ, ◌*◌, ◌+◌, ◌≡◌, ◌⊎◌, refl, true, some, List, [], ◌∷◌, ◌++◌, All, length, map, arith, zero, suc,
}
use botik.Base.Int.{pos}
use botik.Base.Float.{nought, IsNumber}
use botik.Base.Fixed.{Fixed, fixed_float, Fixed-FloatOrder}
use botik.Paper.Sizer.{calc_atr, true_ranges, sum_of, calc_qty, risk_qty, calc_sl_tp, target_mult}
use botik.Backtest.Metrics.{
  Maths, Scope, calc_max_drawdown, build_result, drawdown_loop, calc_sharpe, calc_profit_factor,
}
use botik.Backtest.Engines.{
  futures_engine, spot_engine, futures_tick, futures_close, futures_open, futures_pnl,
  exit_reason_of,
}
use botik.Backtest.Runner.{
  PriceRow, Params, run, run_rows, on_row, try_open, check_exits, book_closed, open_signal,
  signal_side, open_side,
}
use botik.Backtest.Account.{balances, pnl_of, run_books}
use botik.Backtest.Sides.{IsLong, run_only-IsLong}
use botik.Backtest.Drawdown.{IsFall, Differences, calc_max_drawdown_lem}

abbrev fixed : ℕ → Fixed
fixed n = some (pos (n * 10_000))

abbrev py : Maths Fixed
py = record { sqrt = λ x. x; round = λ x _. x; inf = fixed 1_000_000 }

abbrev params : Params Fixed
params = record {
  symbol = 1;
  interval = 1;
  balance = fixed 10_000;
  spike_bps = fixed 80;
  sizer = record {
    risk_pct = some (pos 100);
    atr_sl_mult = some (pos 15_000);
    atr_tp_mult = some (pos 25_000);
    max_position_pct = some (pos 1_500);
  };
}

abbrev row_at : ℕ → ℕ → PriceRow Fixed
row_at t price = record {
  open_time_ms = t;
  candle = record { high = fixed (price + 1); low = fixed (price + 0); close = fixed price };
}

abbrev flat : ℕ → List (PriceRow Fixed)
flat zero = []
flat (suc n) = row_at n 100 ∷ flat n

abbrev rows : List (PriceRow Fixed)
rows = flat 20 ++ row_at 30 90 ∷ row_at 31 120 ∷ []

-- The position that the fall opens is closed at its target.
one_trade : (run py futures_engine params Scope.futures (λ k. k) (row_at 29 100 ∷ rows)).trades ≡ 1
unfolding run build_result run_rows on_row try_open check_exits book_closed futures_tick
    futures_close futures_open futures_pnl exit_reason_of calc_atr true_ranges sum_of open_signal
    signal_side open_side calc_qty risk_qty calc_sl_tp target_mult calc_max_drawdown drawdown_loop
    calc_sharpe calc_profit_factor
one_trade = refl

run_books_example :
    let r = run py futures_engine params Scope.futures (λ k. k) (row_at 29 100 ∷ rows) in
    let dd = λ (ps : List Fixed). calc_max_drawdown (balances (fixed 10_000) ps) in
    (ps : List Fixed) × (map pnl_of r.trades_list ≡ map (λ x. py.round x 4) ps)
    × (r.trades ≡ length ps)
    × (r.max_drawdown ≡ py.round (dd ps).0 4)
    × (r.max_drawdown_pct ≡ py.round (dd ps).1 4)
run_books_example = run_books py futures_engine params Scope.futures (λ k. k) (row_at 29 100) rows

run_only-IsLong_example :
    All IsLong (run py futures_engine params Scope.futures (λ k. k) rows).trades_list
    × All IsLong (run py spot_engine params Scope.futures (λ k. k) rows).trades_list
run_only-IsLong_example = run_only-IsLong Fixed-FloatOrder py params Scope.futures (λ k. k) rows

Fixed-Differences : Differences {F = Fixed} IsNumber
Fixed-Differences = record {
  finite_number = λ x h. h;
  sub_number = λ x y h k. ground arith;
  sub_mono = λ x y z h k l m. ground arith;
}

calc_max_drawdown_lem_example :
    let curve = fixed 10 ∷ fixed 4 ∷ fixed 7 ∷ [] in
    let dd = (calc_max_drawdown curve).0 in
    ((d : Fixed) → IsFall d curve → fixed_float.le d dd ≡ true)
    × (fixed_float.le nought dd ≡ true)
    × ((dd ≡ nought) ⊎ IsFall dd curve)
calc_max_drawdown_lem_example =
    calc_max_drawdown_lem Fixed-FloatOrder Fixed-Differences (fixed 10) (fixed 4) (fixed 7 ∷ [])
      (refl, (refl, (refl, tt)))
