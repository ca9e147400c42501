-- ===== src/Backtest/Engines.antt =====
-- The two engines of src/botik/backtest/backtest_runner.py that hold a position in memory, behind
-- the interface that the loop uses. The trade id, a random text that no result has, is left out,
-- and the symbol of a position is the one that the run is for.
use botik.Base.{ℕ, ◌==◌, Bool, false, Option, none, some, List, [], ◌∷◌, if◌then◌else◌}
use botik.Base.Float.{Float}
use botik.Paper.Policy.{PositionSide}
use botik.Paper.Futures.{is_long}
use botik.Backtest.Metrics.{CloseReason}

pub record SimPosition (F : Type 0) : Type 0 where
  pub symbol : ℕ
  pub side : PositionSide
  pub entry_price : F
  pub qty : F
  pub stop_loss : F
  pub take_profit : F
  pub open_time : ℕ

-- A holding of the spot engine also has the fee that was paid for it.
pub record SimHolding (F : Type 0) : Type 0 where
  pub position : SimPosition F
  pub entry_fee : F

-- What a tick returns for a position that it closes.
pub record Closed (F : Type 0) : Type 0 where
  pub position : SimPosition F
  pub exit_price : F
  pub net_pnl : F
  pub exit_reason : CloseReason

-- `_open_trade`, `_tick` and `_has_open_position` over the state of an engine, and the constant
-- that stands for the imbalance of the order book.
pub record SimEngine (F S : Type 0) : Type 0 where
  pub start : S
  pub open_trade : SimPosition F → S → S
  pub tick : ℕ → F → S → List (Closed F) × S
  pub has_open_position : ℕ → S → Bool
  pub imbalance_threshold : F

abbrev when : Bool → CloseReason → Option CloseReason → Option CloseReason
when test reason rest = if test then some reason else rest

module _ {F : Type 0} ⦃fl : Float F⦄ where
  -- Why a position is closed at a price, if it is: the stop comes first.
  unfoldable pub exit_reason_of : SimPosition F → F → Option CloseReason
  exit_reason_of p price =
      if is_long p.side
      then when (fl.le price p.stop_loss) CloseReason.sl_hit
          (when (fl.le p.take_profit price) CloseReason.tp_hit none)
      else when (fl.le p.stop_loss price) CloseReason.sl_hit
          (when (fl.le price p.take_profit) CloseReason.tp_hit none)

  -- The fee of 0.055 % is taken at the exit only.
  unfoldable pub futures_pnl : SimPosition F → F → F
  futures_pnl p price =
      fl.sub
        (if is_long p.side
          then fl.mul (fl.sub price p.entry_price) p.qty
          else fl.mul (fl.sub p.entry_price price) p.qty)
        (fl.mul (fl.mul price p.qty) (fl.lit 55 5))

  unfoldable pub spot_pnl : SimHolding F → F → F
  spot_pnl h price =
      let gross = fl.mul price h.position.qty in
      fl.sub (fl.sub gross (fl.mul gross (fl.lit 1 3)))
        (fl.add (fl.mul h.position.entry_price h.position.qty) h.entry_fee)

  unfoldable pub futures_close :
      SimPosition F → F → Option CloseReason → List (Closed F) × Option (SimPosition F)
  futures_close p price none = ([], some p)
  futures_close p price (some reason) = (
    record { position = p; exit_price = price; net_pnl = futures_pnl p price; exit_reason = reason }
        ∷ [],
    none,
  )

  unfoldable pub futures_tick :
      ℕ → F → Option (SimPosition F) → List (Closed F) × Option (SimPosition F)
  futures_tick symbol price none = ([], none)
  futures_tick symbol price (some p) =
      if p.symbol == symbol then futures_close p price (exit_reason_of p price) else ([], some p)

  unfoldable pub futures_open : SimPosition F → Option (SimPosition F) → Option (SimPosition F)
  futures_open p none = some p
  futures_open p (some q) = some q

  abbrev futures_has_open : ℕ → Option (SimPosition F) → Bool
  futures_has_open symbol none = false
  futures_has_open symbol (some p) = p.symbol == symbol

  -- `FuturesBacktestRunner`
  abbrev pub futures_engine : SimEngine F (Option (SimPosition F))
  futures_engine = record {
    start = none;
    open_trade = futures_open;
    tick = futures_tick;
    has_open_position = futures_has_open;
    imbalance_threshold = fl.lit 65 2;
  }

  unfoldable pub spot_close :
      SimHolding F → F → Option CloseReason → List (Closed F) × Option (SimHolding F)
  spot_close h price none = ([], some h)
  spot_close h price (some reason) = (
    record {
      position = h.position;
      exit_price = price;
      net_pnl = spot_pnl h price;
      exit_reason = reason;
    }
        ∷ [],
    none,
  )

  -- The spot engine has long positions only.
  abbrev spot_exit : SimPosition F → F → Option CloseReason
  spot_exit p price =
      when (fl.le price p.stop_loss) CloseReason.sl_hit
        (when (fl.le p.take_profit price) CloseReason.tp_hit none)

  unfoldable pub spot_tick : ℕ → F → Option (SimHolding F) → List (Closed F) × Option (SimHolding F)
  spot_tick symbol price none = ([], none)
  spot_tick symbol price (some h) =
      if h.position.symbol == symbol
      then spot_close h price (spot_exit h.position price)
      else ([], some h)

  abbrev pub held : SimPosition F → SimHolding F
  held p = record { position = p; entry_fee = fl.mul (fl.mul p.entry_price p.qty) (fl.lit 1 3) }

  unfoldable pub spot_open : SimPosition F → Option (SimHolding F) → Option (SimHolding F)
  spot_open p none = if is_long p.side then some (held p) else none
  spot_open p (some h) = some h

  abbrev spot_has_open : ℕ → Option (SimHolding F) → Bool
  spot_has_open symbol none = false
  spot_has_open symbol (some h) = h.position.symbol == symbol

  -- `SpotBacktestRunner`
  abbrev pub spot_engine : SimEngine F (Option (SimHolding F))
  spot_engine = record {
    start = none;
    open_trade = spot_open;
    tick = spot_tick;
    has_open_position = spot_has_open;
    imbalance_threshold = fl.lit 67 2;
  }
