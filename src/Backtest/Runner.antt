-- ===== src/Backtest/Runner.antt =====
-- `_BaseBacktestRunner.run` of src/botik/backtest/backtest_runner.py, over either engine. The
-- candles that the database returns, the parameters after their defaults, and the time at which the
-- simulation reaches each candle are arguments.
use botik.Base.{
  ℕ, ◌&&◌, ◌||◌, Option, none, some, List, [], ◌∷◌, ◌++◌, take_last, length, ltb, if◌then◌else◌,
}
use botik.Base.Float.{Float, nought}
use botik.Paper.Policy.{PositionSide}
use botik.Paper.Sizer.{Candle, PositionSizer, untrained, calc_atr, calc_sl_tp, calc_qty}
use botik.Backtest.Metrics.{Maths, Scope, TradeItem, BacktestResult, build_result, empty_result}
use botik.Backtest.Engines.{SimPosition, Closed, SimEngine}

-- A row of `price_history`. The opening price and the volume are not read.
pub record PriceRow (F : Type 0) : Type 0 where
  pub open_time_ms : ℕ
  pub candle : Candle F

pub record Params (F : Type 0) : Type 0 where
  pub symbol : ℕ
  pub interval : ℕ
  pub balance : F
  pub spike_bps : F
  pub sizer : PositionSizer F

-- The variables of the loop. `candles` is the three lists `highs`, `lows` and `closes`.
pub record RunState (F S : Type 0) : Type 0 where
  pub equity : F
  pub equity_curve : List F
  pub closed_trades : List (TradeItem F)
  pub candles : List (Candle F)
  pub engine : S

module _ {F : Type 0} ⦃fl : Float F⦄ where
  -- A list that has a head, or 0, which a list of 20 candles never shows.
  abbrev first_close : List (Candle F) → F
  first_close [] = nought
  first_close (c ∷ cs) = c.close

  -- `closes[-6]`, or the first where there are fewer.
  abbrev ref_price : List (Candle F) → F
  ref_price cs = first_close (take_last 6 cs)

  abbrev spike_of : F → F → F
  spike_of close ref = fl.mul (fl.div (fl.sub close ref) ref) (fl.lit 10_000 0)

  unfoldable pub signal_side : F → F → F → Option PositionSide
  signal_side spike threshold imb =
      if fl.lt spike (fl.neg threshold) && fl.lt (fl.lit 50 2) imb
      then some PositionSide.long
      else if fl.lt threshold spike && fl.lt imb (fl.lit 50 2)
      then some PositionSide.short
      else none

  abbrev item_of : Maths F → ℕ → Closed F → TradeItem F
  item_of py now c = record {
    open_time = c.position.open_time;
    close_time = now;
    side = c.position.side;
    entry = c.position.entry_price;
    exit = c.exit_price;
    pnl = py.round c.net_pnl 4;
    reason = c.exit_reason;
  }

module _ {F S : Type 0} ⦃fl : Float F⦄ (py : Maths F) (e : SimEngine F S) (p : Params F) where
  -- The loop over the trades that a tick has closed.
  unfoldable pub book_closed : ℕ → List (Closed F) → RunState F S → RunState F S
  book_closed now [] s = s
  book_closed now (c ∷ cs) s =
      let equity = fl.add s.equity c.net_pnl in
      book_closed now cs (record s {
        equity = equity;
        equity_curve = s.equity_curve ++ equity ∷ [];
        closed_trades = s.closed_trades ++ item_of py now c ∷ [];
      })

  -- What would be opened on a signal.
  abbrev pub position_at : PriceRow F → F → PositionSide → F → SimPosition F
  position_at row atr side equity =
      let levels = calc_sl_tp py.round p.sizer row.candle.close atr side none none in
      record {
        symbol = p.symbol;
        side = side;
        entry_price = row.candle.close;
        qty = calc_qty py.round p.sizer equity row.candle.close levels.0 untrained;
        stop_loss = levels.0;
        take_profit = levels.1;
        open_time = row.open_time_ms;
      }

  unfoldable pub open_side : PriceRow F → F → PositionSide → RunState F S → RunState F S
  open_side row atr side s =
      let q = position_at row atr side s.equity in
      if fl.le q.qty nought then s else record s { engine = e.open_trade q s.engine }

  unfoldable pub open_signal : PriceRow F → F → Option PositionSide → RunState F S → RunState F S
  open_signal row atr none s = s
  open_signal row atr (some side) s = open_side row atr side s

  unfoldable pub try_open : PriceRow F → RunState F S → RunState F S
  try_open row s =
      let atr = calc_atr 14 (take_last 50 s.candles) in
      let ref = ref_price s.candles in
      if ltb (length s.candles) 20 || e.has_open_position p.symbol s.engine
      then s
      else if fl.le atr nought || ltb (length s.candles) 5 || fl.le ref nought
      then s
      else open_signal row atr
          (signal_side (spike_of row.candle.close ref) p.spike_bps e.imbalance_threshold) s

  -- The exits of a candle.
  unfoldable pub check_exits : ℕ → PriceRow F → RunState F S → RunState F S
  check_exits now row s =
      let ticked = e.tick p.symbol row.candle.close s.engine in
      book_closed now ticked.0
        (record s { candles = s.candles ++ row.candle ∷ []; engine = ticked.1 })

  -- One round of the loop.
  unfoldable pub on_row : ℕ → PriceRow F → RunState F S → RunState F S
  on_row now row s = try_open row (check_exits now row s)

  unfoldable pub run_rows : (ℕ → ℕ) → List (PriceRow F) → RunState F S → RunState F S
  run_rows clock [] s = s
  run_rows clock (row ∷ rows) s = run_rows clock rows (on_row (clock (length s.candles)) row s)

  abbrev pub first_state : RunState F S
  first_state = record {
    equity = p.balance;
    equity_curve = p.balance ∷ [];
    closed_trades = [];
    candles = [];
    engine = e.start;
  }

  abbrev end_time : ℕ → List (PriceRow F) → ℕ
  end_time t [] = t
  end_time t (row ∷ rows) = end_time row.open_time_ms rows

  unfoldable pub run : Scope → (ℕ → ℕ) → List (PriceRow F) → BacktestResult F
  run scope clock [] = empty_result p.symbol scope p.interval
  run scope clock (row ∷ rows) =
      let s = run_rows clock (row ∷ rows) first_state in
      build_result py p.symbol scope p.interval (length (row ∷ rows)) (some row.open_time_ms)
        (some (end_time row.open_time_ms rows)) s.closed_trades s.equity_curve
