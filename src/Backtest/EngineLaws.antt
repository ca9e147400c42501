-- ===== src/Backtest/EngineLaws.antt =====
-- The laws of the interface of src/botik/backtest/backtest_runner.py that both of its engines meet.
use botik.Base.{ℕ, ◌==◌, Option, none, some, List, [], All, if_kept}
use botik.Base.Float.{Float}
use botik.Paper.Futures.{is_long}
use botik.Backtest.Metrics.{CloseReason}
use botik.Backtest.Engines.{
  SimPosition, SimHolding, Closed, SimEngine, futures_engine, futures_open, futures_tick,
  futures_close, spot_engine, spot_open, spot_tick, spot_close, held,
}

-- What a client may rely on: an engine holds only what it was given to open, and a tick closes only
-- what it holds.
pub record EngineLaws {F S : Type 0} (e : SimEngine F S) : Type 1 where
  pub Holds : (SimPosition F → Type 0) → S → Type 0
  pub start_holds : (P : SimPosition F → Type 0) → Holds P e.start
  pub open_holds :
      (P : SimPosition F → Type 0) (q : SimPosition F) (s : S)
      → P q
      → Holds P s
      → Holds P (e.open_trade q s)
  pub tick_holds :
      (P : SimPosition F → Type 0) (symbol : ℕ) (price : F) (s : S)
      → Holds P s
      → All (λ (c : Closed F). P c.position) (e.tick symbol price s).0
        × Holds P (e.tick symbol price s).1

module _ {F : Type 0} ⦃fl : Float F⦄ where
  abbrev pub WhenHeld :
      {A : Type 0} → (A → SimPosition F) → (SimPosition F → Type 0) → Option A → Type 0
  WhenHeld f P none = Unit
  WhenHeld f P (some a) = P (f a)

  -- A tick closes and keeps only positions with the property.
  abbrev Ticked :
      {A : Type 0}
      → (A → SimPosition F)
      → (SimPosition F → Type 0)
      → List (Closed F) × Option A
      → Type 0
  Ticked f P r = All (λ (c : Closed F). P c.position) r.0 × WhenHeld f P r.1

  abbrev pub itself : SimPosition F → SimPosition F
  itself p = p

  abbrev pub position_of : SimHolding F → SimPosition F
  position_of h = h.position

  futures_open_holds :
      (P : SimPosition F → Type 0) (q : SimPosition F) (s : Option (SimPosition F))
      → P q
      → WhenHeld itself P s
      → WhenHeld itself P (futures_open q s)
  unfolding futures_open
  futures_open_holds P q none h k = h
  futures_open_holds P q (some p) h k = k

  futures_close_holds :
      (P : SimPosition F → Type 0) (p : SimPosition F) (price : F) (reason : Option CloseReason)
      → P (itself p)
      → Ticked itself P (futures_close p price reason)
  unfolding futures_close
  futures_close_holds P p price none h = (tt, h)
  futures_close_holds P p price (some reason) h = ((h, tt), tt)

  futures_tick_holds :
      (P : SimPosition F → Type 0) (symbol : ℕ) (price : F) (s : Option (SimPosition F))
      → WhenHeld itself P s
      → Ticked itself P (futures_tick symbol price s)
  unfolding futures_tick
  futures_tick_holds P symbol price none h = (tt, tt)
  futures_tick_holds P symbol price (some p) h =
      if_kept (Ticked itself P) (p.symbol == symbol) _ ([], some p)
        (futures_close_holds P p price _ h) (tt, h)

  pub futures_laws : EngineLaws {F = F} futures_engine
  futures_laws = record {
    Holds = WhenHeld itself;
    start_holds = λ P. tt;
    open_holds = futures_open_holds;
    tick_holds = futures_tick_holds;
  }

  spot_open_holds :
      (P : SimPosition F → Type 0) (q : SimPosition F) (s : Option (SimHolding F))
      → P q
      → WhenHeld position_of P s
      → WhenHeld position_of P (spot_open q s)
  unfolding spot_open
  spot_open_holds P q none h k =
      if_kept (WhenHeld position_of P) (is_long q.side) (some (held q)) none h tt
  spot_open_holds P q (some p) h k = k

  spot_close_holds :
      (P : SimPosition F → Type 0) (p : SimHolding F) (price : F) (reason : Option CloseReason)
      → P (position_of p)
      → Ticked position_of P (spot_close p price reason)
  unfolding spot_close
  spot_close_holds P p price none h = (tt, h)
  spot_close_holds P p price (some reason) h = ((h, tt), tt)

  spot_tick_holds :
      (P : SimPosition F → Type 0) (symbol : ℕ) (price : F) (s : Option (SimHolding F))
      → WhenHeld position_of P s
      → Ticked position_of P (spot_tick symbol price s)
  unfolding spot_tick
  spot_tick_holds P symbol price none h = (tt, tt)
  spot_tick_holds P symbol price (some p) h =
      if_kept (Ticked position_of P) (p.position.symbol == symbol) _ ([], some p)
        (spot_close_holds P p price _ h) (tt, h)

  pub spot_laws : EngineLaws {F = F} spot_engine
  spot_laws = record {
    Holds = WhenHeld position_of;
    start_holds = λ P. tt;
    open_holds = spot_open_holds;
    tick_holds = spot_tick_holds;
  }
