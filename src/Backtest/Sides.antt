-- ===== src/Backtest/Sides.antt =====
-- The sides that the engines of src/botik/backtest/backtest_runner.py ever hold, by laws of the
-- interface that both engines meet.
use botik.Base.{
  ℕ, ◌≤◌, ◌≡◌, false, Option, none, some, List, [], ◌∷◌, All, All-append, if_kept, arith,
}
use botik.Base.Float.{Float, FloatOrder, nought}
use botik.Paper.Policy.{PositionSide}
use botik.Backtest.Metrics.{Maths, Scope, TradeItem, build_result, empty_result}
use botik.Backtest.Engines.{SimPosition, Closed, SimEngine, futures_engine, spot_engine}
use botik.Backtest.EngineLaws.{EngineLaws, futures_laws, spot_laws}
use botik.Backtest.Runner.{
  PriceRow, Params, RunState, book_closed, open_side, open_signal, try_open, check_exits, on_row,
  run_rows, first_state, run, signal_side, position_at,
}

abbrev OnlyLong : Option PositionSide → Type 0
OnlyLong none = Unit
OnlyLong (some side) = side ≡ PositionSide.long

module _ {F : Type 0} ⦃fl : Float F⦄ where
  abbrev pub IsLong : TradeItem F → Type 0
  IsLong t = t.side ≡ PositionSide.long

  signal_side-OnlyLong :
      (spike threshold imb : F)
      → fl.lt imb (fl.lit 50 2) ≡ false
      → OnlyLong (signal_side spike threshold imb)
  unfolding signal_side
  signal_side-OnlyLong spike threshold imb h = ground (arith, h)

module _ {F S : Type 0} ⦃fl : Float F⦄ (py : Maths F) (e : SimEngine F S) (laws : EngineLaws e)
    (p : Params F) (above : fl.lt e.imbalance_threshold (fl.lit 50 2) ≡ false) where
  abbrev HoldsLong : S → Type 0
  HoldsLong = laws.Holds λ (q : SimPosition F). q.side ≡ PositionSide.long

  record IsLongState (s : RunState F S) : Type 0 where
    trades_long : All IsLong s.closed_trades
    holds_long : HoldsLong s.engine

  book_closed-IsLongState :
      (now : ℕ) (cs : List (Closed F)) (s : RunState F S)
      → All (λ (c : Closed F). c.position.side ≡ PositionSide.long) cs
      → IsLongState s
      → IsLongState (book_closed py e p now cs s)
  unfolding book_closed
  book_closed-IsLongState now [] s h l = l
  book_closed-IsLongState now (c ∷ cs) s (h, hs) l = book_closed-IsLongState now cs _ hs (record {
    trades_long = All-append IsLong s.closed_trades _ l.trades_long (h, tt);
    holds_long = l.holds_long;
  })

  open_side-IsLongState :
      (row : PriceRow F) (atr : F) (side : PositionSide) (s : RunState F S)
      → side ≡ PositionSide.long
      → IsLongState s
      → IsLongState (open_side py e p row atr side s)
  unfolding open_side
  open_side-IsLongState row atr side s h l =
      let q = position_at py e p row atr side s.equity in
      if_kept IsLongState (fl.le q.qty nought) s (record s { engine = e.open_trade q s.engine }) l
        (record {
          trades_long = l.trades_long;
          holds_long =
              laws.open_holds (λ (p : SimPosition F). p.side ≡ PositionSide.long) q s.engine h
                l.holds_long;
        })

  open_signal-IsLongState :
      (row : PriceRow F) (atr : F) (side : Option PositionSide) (s : RunState F S)
      → OnlyLong side
      → IsLongState s
      → IsLongState (open_signal py e p row atr side s)
  unfolding open_signal
  open_signal-IsLongState row atr none s h l = l
  open_signal-IsLongState row atr (some side) s h l = open_side-IsLongState row atr side s h l

  try_open-IsLongState :
      (row : PriceRow F) (s : RunState F S) → IsLongState s → IsLongState (try_open py e p row s)
  unfolding try_open
  try_open-IsLongState row s l = if_kept IsLongState _ s _ l (
      if_kept IsLongState _ s _ l
        (open_signal-IsLongState row _ _ s (signal_side-OnlyLong _ p.spike_bps _ above) l))

  run_rows-IsLongState :
      (clock : ℕ → ℕ) (rows : List (PriceRow F)) (s : RunState F S)
      → IsLongState s
      → IsLongState (run_rows py e p clock rows s)
  unfolding run_rows on_row check_exits
  run_rows-IsLongState clock [] s l = l
  run_rows-IsLongState clock (row ∷ rows) s l =
      let t =
        laws.tick_holds (λ (q : SimPosition F). q.side ≡ PositionSide.long) p.symbol
          row.candle.close s.engine l.holds_long in
      run_rows-IsLongState clock rows _ (
        try_open-IsLongState row _ (
          book_closed-IsLongState _ _ _ t.0
            (record { trades_long = l.trades_long; holds_long = t.1 })))

  run-IsLong :
      (scope : Scope) (clock : ℕ → ℕ) (rows : List (PriceRow F))
      → All IsLong (run py e p scope clock rows).trades_list
  unfolding run build_result empty_result
  run-IsLong scope clock [] = tt
  run-IsLong scope clock (row ∷ rows) =
      (run_rows-IsLongState clock (row ∷ rows) (first_state py e p) (record {
        trades_long = tt;
        holds_long = laws.start_holds λ (q : SimPosition F). q.side ≡ PositionSide.long;
      })).trades_long

module _ {F : Type 0} ⦃fl : Float F⦄ (order : FloatOrder F) where
  above_half : (m : ℕ) → 50 ≤ m → fl.lt (fl.lit m 2) (fl.lit 50 2) ≡ false
  above_half m h = ground (
    arith,
    order.lit_mono 50 m 2 h,
    order.lt-eq-not-le (fl.lit m 2) (fl.lit 50 2) (order.lit_number m 2) (order.lit_number 50 2),
  )

  -- Every trade of a simulation is long, for futures as for spot: the constant that stands for the
  -- imbalance is above one half, so the signal to sell never comes.
  pub run_only-IsLong :
      (py : Maths F) (p : Params F) (scope : Scope) (clock : ℕ → ℕ) (rows : List (PriceRow F))
      → All IsLong (run py futures_engine p scope clock rows).trades_list
        × All IsLong (run py spot_engine p scope clock rows).trades_list
  run_only-IsLong py p scope clock rows = (
    run-IsLong py futures_engine futures_laws p (above_half 65 (omega arith)) scope clock rows,
    run-IsLong py spot_engine spot_laws p (above_half 67 (omega arith)) scope clock rows,
  )
