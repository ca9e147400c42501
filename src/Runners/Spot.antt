-- ===== src/Runners/Spot.antt =====
-- `SpotRunner` of src/botik/runners/spot_runner.py over its engine: candles and order books as they
-- arrive. The score of the model, where one is trained and the features of the last candles can be
-- built, is an argument, as is what it has to reach. What the learner does, the poller of the
-- account, the log and the statistics are left out.
use botik.Base.{
  ℕ, suc, ◌||◌, Bool, true, false, Option, none, some, List, [], ◌∷◌, take_last, leb, if◌then◌else◌,
  Dict, insert,
}
use botik.Base.Float.{Float, nought}
use botik.Paper.Policy.{PositionSide, Policy}
use botik.Paper.Rows.{Call, Engine}
use botik.Paper.Sizer.{Candle, untrained, calc_sl_tp, calc_qty}
use botik.Paper.Spot.{buy, on_price_tick, get_holdings}
use botik.Market.State.{Levels}
use botik.Runners.Signals.{none_found, get_buffer, push_buffer, measures, spike_from, imbalance}
use botik.Runners.Futures.{Settings}

pub record SpotRunner (F : Type 0) : Type 0 where
  pub price_buf : Dict (List (Candle F))
  pub last_price : Dict F
  pub closed_since_retrain : ℕ
  pub engine : Engine F

pub data SpotMessage (F : Type 0) : Type 0 where
  candles : ℕ → List (Call × Candle F) → SpotMessage F
  book : ℕ → Call → (bids asks : Levels F) → SpotMessage F

-- The trades closed since the models were trained: after 50, training starts anew.
unfoldable pub count_sold : {A : Type 0} → Option A → ℕ → ℕ
count_sold none n = n
count_sold (some t) n = if leb 50 (suc n) then 0 else suc n

module _ {F : Type 0} ⦃fl : Float F⦄ (policy : Policy F) (cfg : Settings F)
    (score : List (Candle F) → F → Option F) (entry_threshold : F) where
  unfoldable pub on_spot_candle : ℕ → Call → Candle F → SpotRunner F → SpotRunner F
  on_spot_candle symbol c candle r =
      let ticked = on_price_tick policy c symbol candle.close r.engine in
      if fl.le candle.close nought then r else record {
        price_buf = push_buffer symbol candle r.price_buf;
        last_price = insert symbol candle.close r.last_price;
        closed_since_retrain = count_sold ticked.1 r.closed_since_retrain;
        engine = ticked.0;
      }

  unfoldable pub on_candles : ℕ → List (Call × Candle F) → SpotRunner F → SpotRunner F
  on_candles symbol [] r = r
  on_candles symbol ((c, candle) ∷ rest) r =
      on_candles symbol rest (on_spot_candle symbol c candle r)

  -- The filter by the model: there is no score, or it is high enough.
  abbrev pub passes_model : Option F → Bool
  passes_model none = true
  passes_model (some x) = if fl.lt x entry_threshold then false else true

  unfoldable pub buy_sized : Call → ℕ → F → F → Engine F → Engine F
  buy_sized c symbol atr entry e =
      let levels = calc_sl_tp cfg.round cfg.sizer entry atr PositionSide.long none none in
      let qty = calc_qty cfg.round cfg.sizer cfg.balance entry levels.0 untrained in
      if fl.le qty nought then e else (buy c symbol qty entry levels.0 levels.1 e).0

  -- The spot market is only ever bought, after a fall with buyers.
  unfoldable pub try_buy :
      Call
      → ℕ
      → List (Candle F)
      → Levels F
      → Levels F
      → F
      → F
      → Option (F × F)
      → Engine F
      → Engine F
  try_buy c symbol buf bids asks best_bid best_ask none e = e
  try_buy c symbol buf bids asks best_bid best_ask (some (atr, ref)) e =
      let imb = imbalance bids asks in
      if fl.le (fl.neg cfg.spike_threshold_bps) (spike_from best_bid best_ask ref)
        || fl.le imb cfg.imbalance_threshold
      then e
      else if passes_model (score (take_last 20 buf) imb)
      then buy_sized c symbol atr best_ask e
      else e

  unfoldable pub on_book : ℕ → Call → Levels F → Levels F → SpotRunner F → SpotRunner F
  on_book symbol c [] asks r = r
  on_book symbol c (b ∷ bids) [] r = r
  on_book symbol c (b ∷ bids) (a ∷ asks) r =
      let buf = get_buffer symbol r.price_buf in
      if fl.le b.0 nought || fl.le a.0 nought
      then r
      else if none_found (get_holdings (some symbol) r.engine)
      then record r {
        engine = try_buy c symbol buf (b ∷ bids) (a ∷ asks) b.0 a.0 (measures buf) r.engine;
      }
      else r

  -- `_handle_message`
  unfoldable pub handle_spot : SpotMessage F → SpotRunner F → SpotRunner F
  handle_spot (SpotMessage.candles symbol cs) r = on_candles symbol cs r
  handle_spot (SpotMessage.book symbol c bids asks) r = on_book symbol c bids asks r

  unfoldable pub handle_spots : List (SpotMessage F) → SpotRunner F → SpotRunner F
  handle_spots [] r = r
  handle_spots (x ∷ xs) r = handle_spots xs (handle_spot x r)
