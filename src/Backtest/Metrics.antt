-- ===== src/Backtest/Metrics.antt =====
-- The statistics of src/botik/backtest/backtest_runner.py and the result of
-- src/botik/backtest/backtest_result.py. The square of a float is its product with itself, which is
-- the same number as long as it does not overflow.
use botik.Base.{
  ℕ, ◌==◌, Bool, ◌||◌, Option, none, List, [], ◌∷◌, map, length, keep, ltb, if◌then◌else◌,
}
use botik.Base.Float.{Float, nought, one, fabs, fmax}
use botik.Paper.Policy.{PositionSide}
use botik.Paper.Sizer.{sum_of}

-- What the code takes from Python's numbers: `math.sqrt`, `round`, `float("inf")`.
pub record Maths (F : Type 0) : Type 0 where
  pub sqrt : F → F
  pub round : F → ℕ → F
  pub inf : F

pub data CloseReason : Type 0 where
  sl_hit tp_hit : CloseReason

-- A row of `trades_list`. Times that the code formats are numbers, and `close_time` is the time at
-- which the simulation ran.
pub record TradeItem (F : Type 0) : Type 0 where
  pub open_time : ℕ
  pub close_time : ℕ
  pub side : PositionSide
  pub entry : F
  pub exit : F
  pub pnl : F
  pub reason : CloseReason

pub data Scope : Type 0 where
  futures spot : Scope

-- The two dates are missing in the empty result.
pub record BacktestResult (F : Type 0) : Type 0 where
  pub symbol : ℕ
  pub scope : Scope
  pub interval : ℕ
  pub start_date : Option ℕ
  pub end_date : Option ℕ
  pub total_candles : ℕ
  pub trades : ℕ
  pub wins : ℕ
  pub losses : ℕ
  pub win_rate : F
  pub total_pnl : F
  pub max_drawdown : F
  pub max_drawdown_pct : F
  pub sharpe_ratio : F
  pub avg_win : F
  pub avg_loss : F
  pub profit_factor : F
  pub trades_list : List (TradeItem F)

module _ {F : Type 0} ⦃fl : Float F⦄ where
  -- The loop of the drawdown, over the peak and the deepest fall so far.
  unfoldable pub drawdown_loop : F → F → List F → F
  drawdown_loop peak max_dd [] = max_dd
  drawdown_loop peak max_dd (x ∷ xs) =
      drawdown_loop (fmax peak x) (fmax max_dd (fl.sub (fmax peak x) x)) xs

  abbrev initial_of : F → F
  initial_of x = if fl.eq x nought then one else x

  abbrev drawdown_pct : F → F → F
  drawdown_pct initial max_dd =
      if fl.eq initial nought then nought else fl.mul (fl.div max_dd (fabs initial)) (fl.lit 100 0)

  unfoldable pub calc_max_drawdown : List F → F × F
  calc_max_drawdown [] = (nought, nought)
  calc_max_drawdown (x ∷ []) = (nought, nought)
  calc_max_drawdown (x ∷ y ∷ xs) =
      let max_dd = drawdown_loop x nought (x ∷ y ∷ xs) in
      (max_dd, drawdown_pct (initial_of x) max_dd)

  abbrev sum : List F → F
  sum = sum_of nought

  abbrev size_of : List F → F
  size_of xs = fl.lit (length xs) 0

  abbrev square : F → F
  square x = fl.mul x x

  unfoldable pub calc_sharpe : (F → F) → List F → F
  calc_sharpe sqrt xs =
      let mean = fl.div (sum xs) (size_of xs) in
      let variance = fl.div (sum (map (λ x. square (fl.sub x mean)) xs)) (size_of xs) in
      if ltb (length xs) 5 || fl.le variance nought
      then nought
      else fl.mul (fl.div mean (sqrt variance)) (sqrt (fl.lit 252 0))

  unfoldable pub calc_profit_factor : F → List F → List F → F
  calc_profit_factor inf win_pnls loss_pnls =
      let total_wins = sum win_pnls in
      let total_losses = sum loss_pnls in
      if fl.eq total_losses nought
      then (if fl.lt nought total_wins then inf else nought)
      else if fl.eq (fabs total_losses) nought
      then inf
      else fl.div total_wins (fabs total_losses)

  abbrev pub is_win : F → Bool
  is_win pnl = fl.lt nought pnl

  abbrev pub is_loss : F → Bool
  is_loss pnl = fl.le pnl nought

  abbrev average : List F → F
  average [] = nought
  average (x ∷ xs) = fl.div (sum (x ∷ xs)) (size_of (x ∷ xs))

  abbrev percent_of : ℕ → ℕ → F
  percent_of k n =
      if n == 0 then nought else fl.mul (fl.div (fl.lit k 0) (fl.lit n 0)) (fl.lit 100 0)

  -- `_build_result`
  unfoldable pub build_result :
      Maths F
      → ℕ
      → Scope
      → ℕ
      → ℕ
      → Option ℕ
      → Option ℕ
      → List (TradeItem F)
      → List F
      → BacktestResult F
  build_result py symbol scope interval total_candles start_date end_date closed_trades
        equity_curve =
      let pnls = map (λ (t : TradeItem F). t.pnl) closed_trades in
      let win_pnls = keep is_win pnls in
      let loss_pnls = keep is_loss pnls in
      let drawdown = calc_max_drawdown equity_curve in
      record {
        symbol = symbol;
        scope = scope;
        interval = interval;
        start_date = start_date;
        end_date = end_date;
        total_candles = total_candles;
        trades = length closed_trades;
        wins = length win_pnls;
        losses = length loss_pnls;
        win_rate = py.round (percent_of (length win_pnls) (length closed_trades)) 2;
        total_pnl = py.round (sum pnls) 4;
        max_drawdown = py.round drawdown.0 4;
        max_drawdown_pct = py.round drawdown.1 4;
        sharpe_ratio = py.round (calc_sharpe py.sqrt pnls) 4;
        avg_win = py.round (average win_pnls) 4;
        avg_loss = py.round (average loss_pnls) 4;
        profit_factor = calc_profit_factor py.inf win_pnls loss_pnls;
        trades_list = closed_trades;
      }

  -- `_empty_result`
  unfoldable pub empty_result : ℕ → Scope → ℕ → BacktestResult F
  empty_result symbol scope interval = record {
    symbol = symbol;
    scope = scope;
    interval = interval;
    start_date = none;
    end_date = none;
    total_candles = 0;
    trades = 0;
    wins = 0;
    losses = 0;
    win_rate = nought;
    total_pnl = nought;
    max_drawdown = nought;
    max_drawdown_pct = nought;
    sharpe_ratio = nought;
    avg_win = nought;
    avg_loss = nought;
    profit_factor = nought;
    trades_list = [];
  }

  -- What `to_dict` shows of a result: the numbers rounded once more.
  unfoldable pub to_dict : (F → ℕ → F) → BacktestResult F → BacktestResult F
  to_dict round r = record r {
    win_rate = round r.win_rate 2;
    total_pnl = round r.total_pnl 4;
    max_drawdown = round r.max_drawdown 4;
    max_drawdown_pct = round r.max_drawdown_pct 4;
    sharpe_ratio = round r.sharpe_ratio 4;
    avg_win = round r.avg_win 4;
    avg_loss = round r.avg_loss 4;
  }
