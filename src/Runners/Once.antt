-- ===== src/Runners/Once.antt =====
-- The positions that `FuturesRunner` of src/botik/runners/futures_runner.py ever holds.
use botik.Base.{
  ℕ, ◌≤◌, ◌==◌, ◌&&◌, ◌||◌, ◌≡◌, true, Bool, Option, none, some, List, [], ◌∷◌, ◌++◌, All, keep,
  keep-append, length, length-append, if_kept, Bool-cases, inl, inr, arith,
}
use botik.Base.Float.{Float, nought}
use botik.Paper.Policy.{PositionSide, Policy}
use botik.Paper.Rows.{Call}
use botik.Paper.Sizer.{Candle, untrained, calc_sl_tp, calc_qty}
use botik.Paper.Futures.{
  Closing, TradeRow, FuturesDb, Loaded, is_open, close_trade, write_open, open_position,
  save_protection, update_mark_price, close_position, close_if, tick_row, tick_rows, on_price_tick,
  get_open_positions,
}
use botik.Market.State.{Levels}
use botik.Runners.Signals.{none_found, measures, get_buffer}
use botik.Runners.Futures.{
  Settings, FuturesRunner, FeedMessage, on_candle, on_kline, protect_if, open_and_protect, enter,
  try_enter, on_orderbook, handle_message, handle_all,
}

abbrev is_open_at : {F : Type 0} → ℕ → TradeRow F → Bool
is_open_at symbol t = (t.symbol == symbol) && is_open t

abbrev pub open_count : {F : Type 0} → ℕ → List (TradeRow F) → ℕ
open_count symbol ts = length (keep (is_open_at symbol) ts)

-- One open trade of each symbol at most.
pub record HoldsOnce {F : Type 0} (ts : List (TradeRow F)) : Type 0 where
  pub once : (symbol : ℕ) → open_count symbol ts ≤ 1

-- The database answered the question for a position.
abbrev pub IsAnswered : {F : Type 0} → FeedMessage F → Type 0
IsAnswered (FeedMessage.kline symbol candles) = Unit
IsAnswered (FeedMessage.orderbook symbol check opening saving bids asks) = check.db_up ≡ true

module _ {F : Type 0} ⦃fl : Float F⦄ where
  -- Closing a trade opens none.
  close_trade_count :
      (symbol n : ℕ) (x : Closing F) (ts : List (TradeRow F))
      → open_count symbol (close_trade n x ts) ≤ open_count symbol ts
  unfolding close_trade
  close_trade_count symbol n x [] = omega arith
  close_trade_count symbol n x (t ∷ ts) = ground (arith, close_trade_count symbol n x ts)

  close_if-HoldsOnce :
      (c : Call) (symbol : ℕ) (t : TradeRow F) (o : Option (Closing F))
      (r : FuturesDb F × List (ℕ × Closing F))
      → HoldsOnce r.0.trades
      → HoldsOnce (close_if c symbol t o r).0.trades
  unfolding close_if close_position
  close_if-HoldsOnce c symbol t none r h = h
  close_if-HoldsOnce c symbol t (some x) (db, closed) h = elim (Bool-cases c.db_up) [
    | inl e ↦
        rw e (record {
          once = λ k. omega (arith, h.once k, close_trade_count k t.trade_id x db.trades);
        })
    | inr e ↦ rw e h
  ]

  update_mark_price-trades :
      (c : Call) (symbol : ℕ) (side : PositionSide) (p q : F) (db : FuturesDb F)
      → (update_mark_price c symbol side p q db).trades ≡ db.trades
  unfolding update_mark_price
  update_mark_price-trades c symbol side p q db = ground arith

  save_protection-trades :
      (c : Call) (symbol : ℕ) (side : PositionSide) (sl tp : F) (db : FuturesDb F)
      → (save_protection c symbol side sl tp db).trades ≡ db.trades
  unfolding save_protection
  save_protection-trades c symbol side sl tp db = ground arith

  tick_rows-HoldsOnce :
      (policy : Policy F) (c : Call) (symbol : ℕ) (price : F) (ls : List (Loaded F))
      (r : FuturesDb F × List (ℕ × Closing F))
      → HoldsOnce r.0.trades
      → HoldsOnce (tick_rows policy c symbol price ls r).0.trades
  unfolding tick_rows tick_row
  tick_rows-HoldsOnce policy c symbol price [] r h = h
  tick_rows-HoldsOnce policy c symbol price (l ∷ ls) (db, closed) h =
      tick_rows-HoldsOnce policy c symbol price ls (tick_row policy c symbol price l (db, closed)) (
        close_if-HoldsOnce c symbol l.trade _ (_, closed)
          (rw (update_mark_price-trades c symbol l.trade.side price _ db) h))

  -- A trade may be opened where its symbol has none.
  appended-HoldsOnce :
      (ts : List (TradeRow F)) (t : TradeRow F)
      → open_count t.symbol ts ≡ 0
      → HoldsOnce ts
      → HoldsOnce (ts ++ t ∷ [])
  appended-HoldsOnce ts t e h = record {
    once = λ k. rw (keep-append (is_open_at k) ts (t ∷ [])) (appended_count k);
  }
    where
      appended_count : (k : ℕ) → length (keep (is_open_at k) ts ++ keep (is_open_at k) (t ∷ [])) ≤ 1
      appended_count k = ground (
        arith,
        length-append (keep (is_open_at k) ts) (keep (is_open_at k) (t ∷ [])),
        h.once k,
        e,
      )

  open_position-HoldsOnce :
      (c : Call) (scope symbol : ℕ) (side : PositionSide) (p q : F) (db : FuturesDb F)
      → open_count symbol db.trades ≡ 0
      → HoldsOnce db.trades
      → HoldsOnce (open_position c scope symbol side p q db).0.trades
  unfolding open_position write_open
  open_position-HoldsOnce c scope symbol side p q db e h = elim (Bool-cases c.db_up) [
    | inl up ↦ rw up (appended-HoldsOnce db.trades _ e h)
    | inr up ↦ rw up h
  ]

module _ {F : Type 0} ⦃fl : Float F⦄ (policy : Policy F) (cfg : Settings F) where
  on_candle-HoldsOnce :
      (symbol : ℕ) (c : Call) (updated : ℕ → Bool) (candle : Candle F) (r : FuturesRunner F)
      → HoldsOnce r.db.trades
      → HoldsOnce (on_candle policy cfg symbol c updated candle r).db.trades
  unfolding on_candle on_price_tick
  on_candle-HoldsOnce symbol c updated candle r h = elim (Bool-cases (fl.le candle.close nought)) [
    | inl e ↦ rw e h
    | inr e ↦ rw e (tick_rows-HoldsOnce policy c symbol candle.close _ (r.db, []) h)
  ]

  on_kline-HoldsOnce :
      (symbol : ℕ) (cs : List (Call × (ℕ → Bool) × Candle F)) (r : FuturesRunner F)
      → HoldsOnce r.db.trades
      → HoldsOnce (on_kline policy cfg symbol cs r).db.trades
  unfolding on_kline
  on_kline-HoldsOnce symbol [] r h = h
  on_kline-HoldsOnce symbol ((c, updated, candle) ∷ cs) r h =
      on_kline-HoldsOnce symbol cs (on_candle policy cfg symbol c updated candle r)
        (on_candle-HoldsOnce symbol c updated candle r h)

  protect_if-HoldsOnce :
      (c : Call) (symbol : ℕ) (side : PositionSide) (sl tp : F) (r : FuturesDb F × Option ℕ)
      → HoldsOnce r.0.trades
      → HoldsOnce (protect_if c symbol side sl tp r).trades
  unfolding protect_if
  protect_if-HoldsOnce c symbol side sl tp (db, none) h = h
  protect_if-HoldsOnce c symbol side sl tp (db, some n) h =
      rw (save_protection-trades c symbol side sl tp db) h

  module _ (opening saving : Call) (symbol : ℕ) (db : FuturesDb F)
      (free : open_count symbol db.trades ≡ 0) (h : HoldsOnce db.trades) where
    open_and_protect-HoldsOnce :
        (side : PositionSide) (entry qty sl tp : F)
        → HoldsOnce (open_and_protect opening saving symbol side entry qty sl tp db).trades
    unfolding open_and_protect
    open_and_protect-HoldsOnce side entry qty sl tp =
        protect_if-HoldsOnce saving symbol side sl tp
          (open_position opening 0 symbol side entry qty db)
          (open_position-HoldsOnce opening 0 symbol side entry qty db free h)

    enter-HoldsOnce :
        (atr : F) (signal : Option (PositionSide × F))
        → HoldsOnce (enter policy cfg opening saving symbol atr signal db).trades
    unfolding enter
    enter-HoldsOnce atr none = h
    enter-HoldsOnce atr (some (side, entry)) =
        let levels = calc_sl_tp cfg.round cfg.sizer entry atr side none none in
        let qty = calc_qty cfg.round cfg.sizer cfg.balance entry levels.0 untrained in
        if_kept (λ (d : FuturesDb F). HoldsOnce d.trades) (fl.le qty nought) db _ h
          (open_and_protect-HoldsOnce side entry qty levels.0 levels.1)

    try_enter-HoldsOnce :
        (bids asks : Levels F) (b a : F) (m : Option (F × F))
        → HoldsOnce (try_enter policy cfg opening saving symbol bids asks b a m db).trades
    unfolding try_enter
    try_enter-HoldsOnce bids asks b a none = h
    try_enter-HoldsOnce bids asks b a (some (atr, ref)) = enter-HoldsOnce atr _

  -- Where the database answers that there is no position, there is none.
  none_open :
      (check : Call) (symbol : ℕ) (db : FuturesDb F)
      → check.db_up ≡ true
      → none_found (get_open_positions check symbol db) ≡ true
      → open_count symbol db.trades ≡ 0
  unfolding get_open_positions
  none_open check symbol db up e = none_kept (keep (is_open_at symbol) db.trades) (rw up at e)
    where
      none_kept : (ts : List (TradeRow F)) → none_found ts ≡ true → length ts ≡ 0
      none_kept [] e = omega arith
      none_kept (t ∷ ts) e = cc

  on_orderbook-HoldsOnce :
      (symbol : ℕ) (check opening saving : Call) (bids asks : Levels F) (r : FuturesRunner F)
      → check.db_up ≡ true
      → HoldsOnce r.db.trades
      → HoldsOnce (on_orderbook policy cfg symbol check opening saving bids asks r).db.trades
  unfolding on_orderbook
  on_orderbook-HoldsOnce symbol check opening saving [] asks r up h = h
  on_orderbook-HoldsOnce symbol check opening saving (b ∷ bids) [] r up h = h
  on_orderbook-HoldsOnce symbol check opening saving (b ∷ bids) (a ∷ asks) r up h =
      if_kept (λ (q : FuturesRunner F). HoldsOnce q.db.trades)
        (fl.le b.0 nought || fl.le a.0 nought) r _ h
        (elim (Bool-cases (none_found (get_open_positions check symbol r.db))) [
          | inl e ↦ rw e (
              try_enter-HoldsOnce opening saving symbol r.db (none_open check symbol r.db up e) h
                (b ∷ bids) (a ∷ asks) b.0 a.0 (measures (get_buffer symbol r.price_buf)))
          | inr e ↦ rw e h
        ])

  -- Whatever messages arrive, and whatever the policy, the futures runner keeps at most one open
  -- trade of each symbol, if it began so and the database answers each time it looks for one.
  pub handle_all-HoldsOnce :
      (xs : List (FeedMessage F)) (r : FuturesRunner F)
      → All IsAnswered xs
      → HoldsOnce r.db.trades
      → HoldsOnce (handle_all policy cfg xs r).db.trades
  unfolding handle_all handle_message
  handle_all-HoldsOnce [] r up h = h
  handle_all-HoldsOnce (FeedMessage.kline symbol cs ∷ xs) r (u, up) h =
      handle_all-HoldsOnce xs (on_kline policy cfg symbol cs r) up
        (on_kline-HoldsOnce symbol cs r h)
  handle_all-HoldsOnce (FeedMessage.orderbook symbol check opening saving bids asks ∷ xs) r (u, up)
        h =
      handle_all-HoldsOnce xs (on_orderbook policy cfg symbol check opening saving bids asks r) up
        (on_orderbook-HoldsOnce symbol check opening saving bids asks r u h)
