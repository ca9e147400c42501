-- ===== src/Market/State.antt =====
-- The class `TradingState` of src/botik/state/state.py: the market data by symbol, and the control
-- flags. Times are in milliseconds. The dictionaries of free form that other parts leave here (the
-- snapshots of the filter, of the scanner and of the policy) are not modelled.
use botik.Base.{
  ℕ, ◌+◌, ◌-◌, ◌==◌, Bool, true, false, ◌&&◌, Option, none, some, List, [], ◌∷◌, ◌++◌, length, drop,
  if◌then◌else◌, ltb, Dict, lookup, insert,
}
use botik.Base.Int.{ℤ}
use botik.Base.Float.{Float, nought}
use botik.Market.Series.{prune}

pub record OrderBookAggregate (F : Type 0) : Type 0 where
  pub symbol : ℕ
  pub best_bid : F
  pub best_ask : F
  pub mid : F
  pub spread_ticks : ℤ
  pub imbalance_top_n : F
  pub best_bid_size : F
  pub best_ask_size : F
  pub ts_ms : ℕ

pub data TakerSide : Type 0 where
  taker_buy taker_sell : TakerSide

pub record PublicTradeEvent (F : Type 0) : Type 0 where
  pub symbol : ℕ
  pub trade_id : ℕ
  pub seq : ℕ
  pub ts_ms : ℕ
  pub taker_side : TakerSide
  pub price : F
  pub qty : F

-- Price and size of the levels of a side of the book.
abbrev pub Levels : Type 0 → Type 0
Levels F = List (F × F)

-- `cooldown_until_ms` and `pass_since_ms`, 0 where the key is missing.
pub record GateState : Type 0 where
  pub cooldown_until_ms : ℕ
  pub pass_since_ms : ℕ

pub record TradingState (F : Type 0) : Type 0 where
  pub orderbooks : Dict (OrderBookAggregate F)
  pub orderbook_levels : Dict (Levels F × Levels F)
  pub symbol_tick_size : Dict F
  pub book_snapshot_ready : Dict Bool
  pub last_book_update_ms : Dict ℕ
  pub last_trade_update_ms : Dict ℕ
  pub spread_bps_history : Dict (List (ℕ × F))
  pub mid_history : Dict (List (ℕ × F))
  pub public_trades : Dict (List (PublicTradeEvent F))
  pub pair_gate_state : Dict GateState
  pub paused : Bool
  pub panic_requested : Bool
  pub active_symbols : List ℕ
  pub update_in_progress : Bool
  pub restart_requested : Bool

-- `d.get(k, [])`
abbrev pub or_empty : {A : Type 0} → Option (List A) → List A
or_empty none = []
or_empty (some xs) = xs

abbrev pub is_some : {A : Type 0} → Option A → Bool
is_some none = false
is_some (some x) = true

-- 15 minutes.
abbrev pub max_age_ms : ℕ
max_age_ms = 900_000

abbrev pub max_trades : ℕ
max_trades = 100_000

unfoldable pub set_ready : ℕ → Bool → Dict Bool → Dict Bool
set_ready symbol is_snapshot ready =
    if is_snapshot
    then insert symbol true ready
    else if is_some (lookup symbol ready)
    then ready
    else insert symbol false ready

-- `while len(trades) > n: trades.popleft()`
abbrev pub keep_newest : {A : Type 0} → ℕ → List A → List A
keep_newest n xs = drop (length xs - n) xs

abbrev pub or_zeros : Option GateState → GateState
or_zeros none = record { cooldown_until_ms = 0; pass_since_ms = 0 }
or_zeros (some g) = g

module _ {F : Type 0} ⦃fl : Float F⦄ where
  -- `now_ms - ts > max_age_ms` on integers.
  abbrev pub is_older : ℕ → ℕ × F → Bool
  is_older now p = ltb (p.0 + max_age_ms) now

  -- An entry is added to a series, which is then pruned.
  unfoldable pub push_series : ℕ → ℕ → F → Dict (List (ℕ × F)) → Dict (List (ℕ × F))
  push_series symbol ts value store =
      insert symbol (prune (is_older ts) (or_empty (lookup symbol store) ++ (ts, value) ∷ [])) store

  unfoldable pub set_tick_size : ℕ → Option F → Dict F → Dict F
  set_tick_size symbol none sizes = sizes
  set_tick_size symbol (some t) sizes = if fl.lt nought t then insert symbol t sizes else sizes

  unfoldable pub set_levels :
      ℕ
      → Option (Levels F)
      → Option (Levels F)
      → Dict (Levels F × Levels F)
      → Dict (Levels F × Levels F)
  set_levels symbol (some bids) (some asks) levels = insert symbol (bids, asks) levels
  set_levels symbol none _ levels = levels
  set_levels symbol (some bids) none levels = levels

  -- `agg.ts_ms or self._now_ms()`
  abbrev pub book_ts : OrderBookAggregate F → ℕ → ℕ
  book_ts agg now = if agg.ts_ms == 0 then now else agg.ts_ms

  abbrev pub spread_bps_of : OrderBookAggregate F → F
  spread_bps_of agg = fl.mul (fl.div (fl.sub agg.best_ask agg.best_bid) agg.mid) (fl.lit 10_000 0)

  abbrev pub has_spread : OrderBookAggregate F → Bool
  has_spread agg =
      fl.lt nought agg.mid && (fl.lt agg.best_bid agg.best_ask && fl.lt nought agg.best_bid)

  unfoldable pub set_orderbook :
      ℕ
      → OrderBookAggregate F
      → Option (Levels F)
      → Option (Levels F)
      → Bool
      → Option F
      → ℕ
      → TradingState F
      → TradingState F
  set_orderbook symbol agg bids asks is_snapshot tick_size now s =
      let ts = book_ts agg now in
      record s {
        orderbooks = insert symbol agg s.orderbooks;
        symbol_tick_size = set_tick_size symbol tick_size s.symbol_tick_size;
        last_book_update_ms = insert symbol ts s.last_book_update_ms;
        book_snapshot_ready = set_ready symbol is_snapshot s.book_snapshot_ready;
        orderbook_levels = set_levels symbol bids asks s.orderbook_levels;
        spread_bps_history =
            if has_spread agg
            then push_series symbol ts (spread_bps_of agg) s.spread_bps_history
            else s.spread_bps_history;
        mid_history =
            if fl.lt nought agg.mid
            then push_series symbol ts agg.mid s.mid_history
            else s.mid_history;
      }

  unfoldable pub get_orderbook : ℕ → TradingState F → Option (OrderBookAggregate F)
  get_orderbook symbol s = lookup symbol s.orderbooks

  abbrev pub positive : Option F → Option F
  positive none = none
  positive (some t) = if fl.le t nought then none else some t

  unfoldable pub get_tick_size : ℕ → TradingState F → Option F
  get_tick_size symbol s = positive (lookup symbol s.symbol_tick_size)

  -- `trades[0].ts_ms < event.ts_ms - max_age_ms` on integers.
  abbrev pub is_stale : ℕ → PublicTradeEvent F → Bool
  is_stale now t = ltb (t.ts_ms + max_age_ms) now

  unfoldable pub push_trade :
      PublicTradeEvent F → List (PublicTradeEvent F) → List (PublicTradeEvent F)
  push_trade event trades =
      prune (is_stale event.ts_ms) (keep_newest max_trades (trades ++ event ∷ []))

  unfoldable pub record_public_trade : PublicTradeEvent F → TradingState F → TradingState F
  record_public_trade event s = record s {
    public_trades =
        insert event.symbol (push_trade event (or_empty (lookup event.symbol s.public_trades)))
          s.public_trades;
    last_trade_update_ms = insert event.symbol event.ts_ms s.last_trade_update_ms;
  }

  unfoldable pub get_public_trades : ℕ → TradingState F → List (PublicTradeEvent F)
  get_public_trades symbol s = or_empty (lookup symbol s.public_trades)

  unfoldable pub get_spread_bps_series : ℕ → TradingState F → List (ℕ × F)
  get_spread_bps_series symbol s = or_empty (lookup symbol s.spread_bps_history)

  unfoldable pub get_mid_series : ℕ → TradingState F → List (ℕ × F)
  get_mid_series symbol s = or_empty (lookup symbol s.mid_history)

  unfoldable pub set_pair_gate_state : ℕ → GateState → TradingState F → TradingState F
  set_pair_gate_state symbol gate s = record s {
    pair_gate_state = insert symbol gate s.pair_gate_state;
  }

  unfoldable pub get_pair_gate_state : ℕ → TradingState F → GateState
  get_pair_gate_state symbol s = or_zeros (lookup symbol s.pair_gate_state)

  -- The sum of the sizes of the first `n` levels.
  unfoldable pub volume : ℕ → Levels F → F
  volume n levels = add_all n levels nought
    where
      add_all : ℕ → Levels F → F → F
      add_all n [] sum = sum
      add_all n ((price, size) ∷ levels) sum =
          if n == 0 then sum else add_all (n - 1) levels (fl.add sum size)

  unfoldable pub compute_imbalance : Levels F → Levels F → ℕ → F
  compute_imbalance bids asks top_n =
      let b_vol = volume top_n bids in
      let a_vol = volume top_n asks in
      let total = fl.add b_vol a_vol in
      if fl.le total nought then nought else fl.div (fl.sub b_vol a_vol) total
