-- ===== src/Paper/FuturesTicks.antt =====
-- What a tick of the futures engine, src/botik/execution/futures_paper.py, does to the trades, and
-- what runs of the engine never record.
use botik.Base.{
  ℕ, ◌==◌, ◌≡◌, ◌≢◌, refl, sym, ◌∙◌, ap, Bool, true, false, ◌&&◌, Option, none, some, List, [], ◌∷◌,
  ◌++◌, append_assoc, map, if◌then◌else◌, arith,
}
use botik.Base.Float.{Float}
use botik.Paper.Policy.{Policy, PositionSide}
use botik.Paper.Rows.{Call}
use botik.Paper.Futures.{
  Closing, TradeRow, FuturesDb, is_open, close_trade, update_mark_price, close_position, levels_at,
  load_rows, load_open_positions, position_of, closing_on, close_if, tick_row, tick_rows,
  on_price_tick,
}

module _ {F : Type 0} where
  -- No two trades have one identifier.
  unfoldable pub IsApart : ℕ → List (TradeRow F) → Type 0
  IsApart n [] = Unit
  IsApart n (t ∷ ts) = (t.trade_id ≢ n) × IsApart n ts

  unfoldable pub AreDistinct : List (TradeRow F) → Type 0
  AreDistinct [] = Unit
  AreDistinct (t ∷ ts) = IsApart t.trade_id ts × AreDistinct ts

  close_trade-IsApart :
      (n : ℕ) (x : Closing F) (ts : List (TradeRow F)) → IsApart n ts → close_trade n x ts ≡ ts
  unfolding close_trade IsApart
  close_trade-IsApart n x [] h = refl
  close_trade-IsApart n x (t ∷ ts) (h, hs) = ground (arith, close_trade-IsApart n x ts hs)

  -- A trade between others.
  IsApart-middle :
      (n : ℕ) (pre : List (TradeRow F)) (t : TradeRow F) (ts : List (TradeRow F))
      → IsApart n (pre ++ (t ∷ ts))
      → t.trade_id ≢ n
  unfolding IsApart
  IsApart-middle n [] t ts (h, hs) = h
  IsApart-middle n (p ∷ pre) t ts (h, hs) = IsApart-middle n pre t ts hs

  close_middle :
      (x : Closing F) (pre : List (TradeRow F)) (t : TradeRow F) (ts : List (TradeRow F))
      → AreDistinct (pre ++ (t ∷ ts))
      → close_trade t.trade_id x (pre ++ (t ∷ ts)) ≡ pre ++ (record t { closing = some x } ∷ ts)
  unfolding close_trade AreDistinct
  close_middle x [] t ts (h, hs) = ground (arith, close_trade-IsApart t.trade_id x ts h)
  close_middle x (p ∷ pre) t ts (h, hs) =
      ground (arith, IsApart-middle p.trade_id pre t ts h, close_middle x pre t ts hs)

  module _ (t t' : TradeRow F) (same : t'.trade_id ≡ t.trade_id) where
    IsApart-changed :
        (n : ℕ) (pre ts : List (TradeRow F))
        → IsApart n (pre ++ (t ∷ ts))
        → IsApart n (pre ++ (t' ∷ ts))
    unfolding IsApart
    IsApart-changed n [] ts (h, hs) = (rw same h, hs)
    IsApart-changed n (p ∷ pre) ts (h, hs) = (h, IsApart-changed n pre ts hs)

    AreDistinct-changed :
        (pre ts : List (TradeRow F))
        → AreDistinct (pre ++ (t ∷ ts))
        → AreDistinct (pre ++ (t' ∷ ts))
    unfolding AreDistinct
    AreDistinct-changed [] ts (h, hs) = (rw same h, hs)
    AreDistinct-changed (p ∷ pre) ts (h, hs) =
        (IsApart-changed p.trade_id pre ts h, AreDistinct-changed pre ts hs)

module _ {F : Type 0} ⦃fl : Float F⦄ (policy : Policy F) (c : Call) (symbol : ℕ)
    (mark_price : F) where
  -- What the policy asks for of a trade that is open.
  abbrev closing_at : FuturesDb F → TradeRow F → Option (Closing F)
  closing_at db t =
      let l = levels_at t.symbol t.side db in
      closing_on c mark_price t
        (policy c.now_ms (position_of symbol mark_price (record { trade = t; sl = l.0; tp = l.1 })))

  abbrev closed_by : TradeRow F → Option (Closing F) → TradeRow F
  closed_by t none = t
  closed_by t (some x) = record t { closing = some x }

  -- A trade after a tick.
  unfoldable pub settled : FuturesDb F → TradeRow F → TradeRow F
  settled db t = if (t.symbol == symbol) && is_open t then closed_by t (closing_at db t) else t

  mark_trades :
      (side : PositionSide) (pnl : F) (db : FuturesDb F)
      → (update_mark_price c symbol side mark_price pnl db).trades ≡ db.trades
  unfolding update_mark_price
  mark_trades side pnl db = ground arith

  close_if_trades :
      (pre ts : List (TradeRow F)) (t : TradeRow F) (o : Option (Closing F)) (db : FuturesDb F)
      (closed : List (ℕ × Closing F))
      → c.db_up ≡ true
      → AreDistinct (pre ++ (t ∷ ts))
      → db.trades ≡ pre ++ (t ∷ ts)
      → (close_if c symbol t o (db, closed)).0.trades ≡ pre ++ (closed_by t o ∷ ts)
  unfolding close_if close_position
  close_if_trades pre ts t none db closed up h e = e
  close_if_trades pre ts t (some x) db closed up h e = rw (up, e) (close_middle x pre t ts h)

  abbrev ticked :
      FuturesDb F → List (TradeRow F) → FuturesDb F × List (ℕ × Closing F) → List (TradeRow F)
  ticked db₀ ts r = (tick_rows policy c symbol mark_price (load_rows symbol ts db₀) r).0.trades

  -- The loop over the trades that are left, after those before them.
  abbrev Settles : FuturesDb F → List (TradeRow F) → Type 0
  Settles db₀ ts =
      (pre : List (TradeRow F)) (db : FuturesDb F) (closed : List (ℕ × Closing F))
      → AreDistinct (pre ++ ts)
      → db.trades ≡ pre ++ ts
      → ticked db₀ ts (db, closed) ≡ pre ++ map (settled db₀) ts

  Settles-next :
      (db₀ : FuturesDb F) (t : TradeRow F) (ts : List (TradeRow F))
      → Settles db₀ ts
      → (pre : List (TradeRow F)) (r : FuturesDb F × List (ℕ × Closing F))
      → AreDistinct (pre ++ (t ∷ ts))
      → r.0.trades ≡ pre ++ (t ∷ ts)
      → ticked db₀ ts r ≡ pre ++ (t ∷ map (settled db₀) ts)
  Settles-next db₀ t ts next pre (db, closed) h e =
      next (pre ++ (t ∷ [])) db closed (rw (append_assoc pre (t ∷ []) ts) h)
        (e ∙ sym (append_assoc pre (t ∷ []) ts))
      ∙ append_assoc pre (t ∷ []) (map (settled db₀) ts)

  closed_by_id : (t : TradeRow F) (o : Option (Closing F)) → (closed_by t o).trade_id ≡ t.trade_id
  closed_by_id t none = refl
  closed_by_id t (some x) = refl

  -- A trade by whether the query has it.
  Settles-case :
      (db₀ : FuturesDb F) (t : TradeRow F) (ts : List (TradeRow F)) (b : Bool)
      → c.db_up ≡ true
      → Settles db₀ ts
      → (pre : List (TradeRow F)) (db : FuturesDb F) (closed : List (ℕ × Closing F))
      → AreDistinct (pre ++ (t ∷ ts))
      → db.trades ≡ pre ++ (t ∷ ts)
      → let l = levels_at t.symbol t.side db₀ in
        (tick_rows policy c symbol mark_price
          (if b
            then record { trade = t; sl = l.0; tp = l.1 } ∷ load_rows symbol ts db₀
            else load_rows symbol ts db₀)
          (db, closed)).0.trades
        ≡ pre ++ ((if b then closed_by t (closing_at db₀ t) else t) ∷ map (settled db₀) ts)
  unfolding tick_rows tick_row
  Settles-case db₀ t ts false up next pre db closed h e =
      Settles-next db₀ t ts next pre (db, closed) h e
  Settles-case db₀ t ts true up next pre db closed h e =
      let o = closing_at db₀ t in
      Settles-next db₀ (closed_by t o) ts next pre _
        (AreDistinct-changed t (closed_by t o) (closed_by_id t o) pre ts h)
        (close_if_trades pre ts t o _ closed up h (mark_trades t.side _ db ∙ e))

  settles : (db₀ : FuturesDb F) (ts : List (TradeRow F)) → c.db_up ≡ true → Settles db₀ ts
  unfolding load_rows settled tick_rows
  settles db₀ [] up pre db closed h e = e
  settles db₀ (t ∷ ts) up pre db closed h e =
      Settles-case db₀ t ts ((t.symbol == symbol) && is_open t) up (settles db₀ ts up) pre db closed
        h e

  loaded :
      (db : FuturesDb F)
      → c.db_up ≡ true
      → load_open_positions c symbol db ≡ load_rows symbol db.trades db
  unfolding load_open_positions
  loaded db up = rw up refl

  -- A tick changes each trade by itself: an open one of the symbol is closed if the policy asks for
  -- it at its position, at the levels that are stored, all of it or a part; every other stays as it
  -- is. The identifiers are distinct and the database answers.
  pub on_price_tick_trades :
      (db : FuturesDb F)
      → c.db_up ≡ true
      → AreDistinct db.trades
      → (on_price_tick policy c symbol mark_price db).0.trades ≡ map (settled db) db.trades
  unfolding on_price_tick
  on_price_tick_trades db up h =
      ap (λ ls. (tick_rows policy c symbol mark_price ls (db, [])).0.trades) (loaded db up)
      ∙ settles db db.trades up [] db [] h refl
