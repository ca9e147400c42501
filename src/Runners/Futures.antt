-- ===== src/Runners/Futures.antt =====
-- `FuturesRunner` of src/botik/runners/futures_runner.py over its engine: candles and order books as
-- they arrive. The engine keeps its state in the database. What the learner answers for each closed
-- trade is an argument; what it learns, the log and the statistics are left out.
use botik.Base.{
  ℕ, zero, suc, ◌||◌, ◌&&◌, Bool, Option, none, some, List, [], ◌∷◌, length, leb, if◌then◌else◌,
  Dict, insert,
}
use botik.Base.Float.{Float, nought, one}
use botik.Paper.Policy.{PositionSide, Policy}
use botik.Paper.Rows.{Call}
use botik.Paper.Sizer.{Candle, PositionSizer, untrained, calc_sl_tp, calc_qty}
use botik.Paper.Futures.{
  FuturesDb, open_position, save_protection, on_price_tick, get_open_positions,
}
use botik.Market.State.{Levels}
use botik.Runners.Signals.{none_found, get_buffer, push_buffer, measures, spike_from, imbalance}

-- The settings, those of the strategy included.
pub record Settings (F : Type 0) : Type 0 where
  pub sizer : PositionSizer F
  pub balance : F
  pub spike_threshold_bps : F
  pub imbalance_threshold : F
  pub round : F → ℕ → F

pub record FuturesRunner (F : Type 0) : Type 0 where
  pub price_buf : Dict (List (Candle F))
  pub last_price : Dict F
  pub closed_since_retrain : ℕ
  pub db : FuturesDb F

-- A message: the candles of a symbol, each with what its calls take from outside and what the
-- learner answers for each trade that it closes; or the two sides of a book, with the calls that
-- look for a position, open one, and save its levels.
pub data FeedMessage (F : Type 0) : Type 0 where
  kline : ℕ → List (Call × (ℕ → Bool) × Candle F) → FeedMessage F
  orderbook : ℕ → (check opening saving : Call) → (bids asks : Levels F) → FeedMessage F

-- The trades closed since the models were trained: training starts anew when the learner says so,
-- or after 50 trades.
unfoldable pub count_closed : (ℕ → Bool) → ℕ → ℕ → ℕ
count_closed updated zero n = n
count_closed updated (suc k) n =
    count_closed updated k (if updated k || leb 50 (suc n) then 0 else suc n)

module _ {F : Type 0} ⦃fl : Float F⦄ where
  -- The levels are saved if a trade was opened.
  unfoldable pub protect_if : Call → ℕ → PositionSide → F → F → FuturesDb F × Option ℕ → FuturesDb F
  protect_if saving symbol side sl tp (db, none) = db
  protect_if saving symbol side sl tp (db, some trade_id) =
      save_protection saving symbol side sl tp db

  unfoldable pub open_and_protect :
      Call → Call → ℕ → PositionSide → F → F → F → F → FuturesDb F → FuturesDb F
  open_and_protect opening saving symbol side entry qty sl tp db =
      protect_if saving symbol side sl tp (open_position opening 0 symbol side entry qty db)

module _ {F : Type 0} ⦃fl : Float F⦄ (policy : Policy F) (cfg : Settings F) where
  unfoldable pub on_candle : ℕ → Call → (ℕ → Bool) → Candle F → FuturesRunner F → FuturesRunner F
  on_candle symbol c updated candle r =
      let ticked = on_price_tick policy c symbol candle.close r.db in
      if fl.le candle.close nought then r else record {
        price_buf = push_buffer symbol candle r.price_buf;
        last_price = insert symbol candle.close r.last_price;
        closed_since_retrain = count_closed updated (length ticked.1) r.closed_since_retrain;
        db = ticked.0;
      }

  unfoldable pub on_kline :
      ℕ → List (Call × (ℕ → Bool) × Candle F) → FuturesRunner F → FuturesRunner F
  on_kline symbol [] r = r
  on_kline symbol ((c, updated, candle) ∷ rest) r =
      on_kline symbol rest (on_candle symbol c updated candle r)

  -- The side of an entry and its price.
  unfoldable pub entry_signal : F → F → F → F → Option (PositionSide × F)
  entry_signal spike imb best_bid best_ask =
      if fl.lt spike (fl.neg cfg.spike_threshold_bps) && fl.lt cfg.imbalance_threshold imb
      then some (PositionSide.long, best_ask)
      else if fl.lt cfg.spike_threshold_bps spike && fl.lt imb (fl.sub one cfg.imbalance_threshold)
      then some (PositionSide.short, best_bid)
      else none

  unfoldable pub enter : Call → Call → ℕ → F → Option (PositionSide × F) → FuturesDb F → FuturesDb F
  enter opening saving symbol atr none db = db
  enter opening saving symbol atr (some (side, entry)) db =
      let levels = calc_sl_tp cfg.round cfg.sizer entry atr side none none in
      let qty = calc_qty cfg.round cfg.sizer cfg.balance entry levels.0 untrained in
      if fl.le qty nought
      then db
      else open_and_protect opening saving symbol side entry qty levels.0 levels.1 db

  unfoldable pub try_enter :
      Call → Call → ℕ → Levels F → Levels F → F → F → Option (F × F) → FuturesDb F → FuturesDb F
  try_enter opening saving symbol bids asks best_bid best_ask none db = db
  try_enter opening saving symbol bids asks best_bid best_ask (some (atr, ref)) db =
      enter opening saving symbol atr
        (entry_signal (spike_from best_bid best_ask ref) (imbalance bids asks) best_bid best_ask) db

  unfoldable pub on_orderbook :
      ℕ → Call → Call → Call → Levels F → Levels F → FuturesRunner F → FuturesRunner F
  on_orderbook symbol check opening saving [] asks r = r
  on_orderbook symbol check opening saving (b ∷ bids) [] r = r
  on_orderbook symbol check opening saving (b ∷ bids) (a ∷ asks) r =
      if fl.le b.0 nought || fl.le a.0 nought
      then r
      else if none_found (get_open_positions check symbol r.db)
      then record r {
        db =
            try_enter opening saving symbol (b ∷ bids) (a ∷ asks) b.0 a.0
              (measures (get_buffer symbol r.price_buf)) r.db;
      }
      else r

  -- `_handle_message`
  unfoldable pub handle_message : FeedMessage F → FuturesRunner F → FuturesRunner F
  handle_message (FeedMessage.kline symbol candles) r = on_kline symbol candles r
  handle_message (FeedMessage.orderbook symbol check opening saving bids asks) r =
      on_orderbook symbol check opening saving bids asks r

  unfoldable pub handle_all : List (FeedMessage F) → FuturesRunner F → FuturesRunner F
  handle_all [] r = r
  handle_all (x ∷ xs) r = handle_all xs (handle_message x r)
