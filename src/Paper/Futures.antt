-- ===== src/Paper/Futures.antt =====
-- The class `FuturesPaperEngine` of src/botik/execution/futures_paper.py. All of its state is in the
-- database, which answers all statements of a call or none. Columns that nothing reads are left
-- out, as are alerts and log. A side other than long and short is one text.
use botik.Base.{
  ℕ, zero, suc, ◌*◌, ◌/◌, ◌==◌, Bool, true, false, ◌&&◌, Option, none, some, List, [], ◌∷◌, ◌++◌,
  if◌then◌else◌, Dict, lookup, insert, keep,
}
use botik.Base.Int.{ℤ, sub_ℕ}
use botik.Base.Float.{Float, nought}
use botik.Paper.Policy.{
  Position, PositionSide, Action, Reason, Policy, PolicyAction, unrealized_pnl,
}
use botik.Paper.Rows.{Call}

-- What closing writes to a trade.
pub record Closing (F : Type 0) : Type 0 where
  pub exit_price : F
  pub gross_pnl : F
  pub net_pnl : F
  pub hold_time_ms : Option ℤ
  pub exit_reason : Reason
  pub was_profitable : Bool
  pub closed_at_s : ℕ

-- A row of `futures_paper_trades`; times that are written are in seconds.
pub record TradeRow (F : Type 0) : Type 0 where
  pub trade_id : ℕ
  pub symbol : ℕ
  pub side : PositionSide
  pub entry_price : F
  pub qty : F
  pub model_scope : ℕ
  pub opened_at_s : ℕ
  pub closing : Option (Closing F)

-- A row of `futures_positions` of the account.
pub record FuturesRow (F : Type 0) : Type 0 where
  pub size : F
  pub entry_price : F
  pub mark_price : F
  pub unrealised_pnl : F

-- `futures_protection_orders` has the stop and the target.
pub record FuturesDb (F : Type 0) : Type 0 where
  pub positions : Dict (FuturesRow F)
  pub trades : List (TradeRow F)
  pub protection : Dict (F × F)

-- The number of a symbol and a side.
unfoldable pub side_key : ℕ → PositionSide → ℕ
side_key symbol PositionSide.long = 3 * symbol
side_key symbol PositionSide.short = suc (3 * symbol)
side_key symbol PositionSide.other_side = suc (suc (3 * symbol))

abbrev pub is_long : PositionSide → Bool
is_long PositionSide.long = true
is_long PositionSide.short = false
is_long PositionSide.other_side = false

-- `if opened_at_ms:` is false for a 0 too.
unfoldable pub hold_time : Call → Option ℕ → Option ℤ
hold_time c none = none
hold_time c (some zero) = none
hold_time c (some (suc n)) = some (sub_ℕ c.now_ms (suc n))

-- A row of the join: the trade, its stop and its target.
pub record Loaded (F : Type 0) : Type 0 where
  pub trade : TradeRow F
  pub sl : F
  pub tp : F

module _ {F : Type 0} where
  abbrev pub is_open : TradeRow F → Bool
  is_open t = elim t.closing [ none ↦ true | some x ↦ false ]

  -- `UPDATE futures_paper_trades SET … WHERE trade_id=?`
  unfoldable pub close_trade : ℕ → Closing F → List (TradeRow F) → List (TradeRow F)
  close_trade n x [] = []
  close_trade n x (t ∷ ts) =
      (if t.trade_id == n then record t { closing = some x } else t) ∷ close_trade n x ts

  -- `UPDATE futures_positions SET … WHERE …`
  unfoldable pub update_row :
      ℕ → (FuturesRow F → FuturesRow F) → Dict (FuturesRow F) → Dict (FuturesRow F)
  update_row k f d = elim (lookup k d) [ none ↦ d | some r ↦ insert k (f r) d ]

module _ {F : Type 0} ⦃fl : Float F⦄ where
  -- The upsert of `open_position`.
  unfoldable pub opened_row : F → F → FuturesRow F
  opened_row entry_price qty = record {
    size = qty;
    entry_price = entry_price;
    mark_price = entry_price;
    unrealised_pnl = nought;
  }

  unfoldable pub write_open : ℕ → ℕ → ℕ → PositionSide → F → F → ℕ → FuturesDb F → FuturesDb F
  write_open trade_id scope symbol side entry_price qty now_s db = record db {
    positions = insert (side_key symbol side) (opened_row entry_price qty) db.positions;
    trades =
        db.trades
        ++ (record {
          trade_id = trade_id;
          symbol = symbol;
          side = side;
          entry_price = entry_price;
          qty = qty;
          model_scope = scope;
          opened_at_s = now_s;
          closing = none;
        }
            ∷ []);
  }

  -- `none` for the empty text.
  unfoldable pub open_position :
      Call → ℕ → ℕ → PositionSide → F → F → FuturesDb F → FuturesDb F × Option ℕ
  open_position c scope symbol side entry_price qty db =
      if c.db_up
      then (
        write_open (c.uuid 0) scope symbol side entry_price qty (c.now_ms / 1_000) db,
        some (c.uuid 0),
      )
      else (db, none)

  -- `_save_protection`
  unfoldable pub save_protection : Call → ℕ → PositionSide → F → F → FuturesDb F → FuturesDb F
  save_protection c symbol side sl tp db =
      if c.db_up
      then record db { protection = insert (side_key symbol side) (sl, tp) db.protection }
      else db

  -- `_update_mark_price`
  unfoldable pub update_mark_price : Call → ℕ → PositionSide → F → F → FuturesDb F → FuturesDb F
  update_mark_price c symbol side mark_price pnl db =
      if c.db_up
      then record db {
        positions =
            update_row (side_key symbol side)
              (λ r. record r { mark_price = mark_price; unrealised_pnl = pnl }) db.positions;
      }
      else db

  abbrev gross_of : PositionSide → F → F → F → F
  gross_of side exit_price entry_price qty =
      if is_long side
      then fl.mul (fl.sub exit_price entry_price) qty
      else fl.mul (fl.sub entry_price exit_price) qty

  unfoldable pub closing_of : Call → PositionSide → F → F → Reason → F → Option ℕ → Closing F
  closing_of c side exit_price qty_closed reason entry_price opened_at_ms =
      let gross = gross_of side exit_price entry_price qty_closed in
      let net = fl.sub gross (fl.mul (fl.mul exit_price qty_closed) (fl.lit 55 5)) in
      record {
        exit_price = exit_price;
        gross_pnl = gross;
        net_pnl = net;
        hold_time_ms = hold_time c opened_at_ms;
        exit_reason = reason;
        was_profitable = fl.lt nought net;
        closed_at_s = c.now_ms / 1_000;
      }

  -- `close_position` on the database: what it answers is the closing and the trade.
  unfoldable pub close_position :
      Call → ℕ → ℕ → PositionSide → Closing F → FuturesDb F → FuturesDb F
  close_position c trade_id symbol side x db =
      if c.db_up
      then record db {
        trades = close_trade trade_id x db.trades;
        positions =
            update_row (side_key symbol side)
              (λ r. record r { size = nought; unrealised_pnl = nought }) db.positions;
      }
      else db

  -- The levels that the join finds, with `float(… or 0)`.
  abbrev pub levels_at : ℕ → PositionSide → FuturesDb F → F × F
  levels_at symbol side db = elim (lookup (side_key symbol side) db.protection) [
    | none ↦ (nought, nought)
    | some l ↦ l
  ]

  -- `_load_open_positions`: the rows of the query, or none if the database fails.
  unfoldable pub load_rows : ℕ → List (TradeRow F) → FuturesDb F → List (Loaded F)
  load_rows symbol [] db = []
  load_rows symbol (t ∷ ts) db =
      let rest = load_rows symbol ts db in
      if (t.symbol == symbol) && is_open t
      then (let l = levels_at t.symbol t.side db in record { trade = t; sl = l.0; tp = l.1 }) ∷ rest
      else rest

  unfoldable pub load_open_positions : Call → ℕ → FuturesDb F → List (Loaded F)
  load_open_positions c symbol db = if c.db_up then load_rows symbol db.trades db else []

  unfoldable pub position_of : ℕ → F → Loaded F → Position F
  position_of symbol mark_price r =
      let t = r.trade in
      record {
        trade_id = t.trade_id;
        symbol = symbol;
        side = t.side;
        entry_price = t.entry_price;
        qty = t.qty;
        stop_loss = r.sl;
        take_profit = r.tp;
        mark_price = mark_price;
        opened_at_ms = t.opened_at_s * 1_000;
        partial_closed_qty = nought;
      }

  -- The closing that an action asks for, of all or of a part.
  unfoldable pub closing_for : Call → F → TradeRow F → F → Reason → Action → Option (Closing F)
  closing_for c mark_price t qty_pct reason Action.close_all =
      some (closing_of c t.side mark_price t.qty reason t.entry_price none)
  closing_for c mark_price t qty_pct reason Action.close_partial =
      some (closing_of c t.side mark_price (fl.mul t.qty qty_pct) reason t.entry_price none)
  closing_for c mark_price t qty_pct reason Action.hold = none
  closing_for c mark_price t qty_pct reason Action.add_more = none
  closing_for c mark_price t qty_pct reason Action.hedge = none

  unfoldable pub closing_on : Call → F → TradeRow F → PolicyAction F → Option (Closing F)
  closing_on c mark_price t a = closing_for c mark_price t a.qty_pct a.reason a.action

  -- The database, and the trades that were closed.
  unfoldable pub close_if :
      Call
      → ℕ
      → TradeRow F
      → Option (Closing F)
      → FuturesDb F × List (ℕ × Closing F)
      → FuturesDb F × List (ℕ × Closing F)
  close_if c symbol t none r = r
  close_if c symbol t (some x) (db, closed) =
      (close_position c t.trade_id symbol t.side x db, closed ++ ((t.trade_id, x) ∷ []))

  unfoldable pub tick_row :
      Policy F
      → Call
      → ℕ
      → F
      → Loaded F
      → FuturesDb F × List (ℕ × Closing F)
      → FuturesDb F × List (ℕ × Closing F)
  tick_row policy c symbol mark_price l (db, closed) =
      let pos = position_of symbol mark_price l in
      close_if c symbol l.trade (closing_on c mark_price l.trade (policy c.now_ms pos))
        (update_mark_price c symbol l.trade.side mark_price (unrealized_pnl pos) db, closed)

  unfoldable pub tick_rows :
      Policy F
      → Call
      → ℕ
      → F
      → List (Loaded F)
      → FuturesDb F × List (ℕ × Closing F)
      → FuturesDb F × List (ℕ × Closing F)
  tick_rows policy c symbol mark_price [] r = r
  tick_rows policy c symbol mark_price (l ∷ ls) r =
      tick_rows policy c symbol mark_price ls (tick_row policy c symbol mark_price l r)

  unfoldable pub on_price_tick :
      Policy F → Call → ℕ → F → FuturesDb F → FuturesDb F × List (ℕ × Closing F)
  on_price_tick policy c symbol mark_price db =
      tick_rows policy c symbol mark_price (load_open_positions c symbol db) (db, [])

  -- `get_open_positions(symbol)`
  unfoldable pub get_open_positions : Call → ℕ → FuturesDb F → List (TradeRow F)
  get_open_positions c symbol db =
      if c.db_up then keep (λ (t : TradeRow F). (t.symbol == symbol) && is_open t) db.trades else []
