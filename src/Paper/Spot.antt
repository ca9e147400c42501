-- ===== src/Paper/Spot.antt =====
-- The class `SpotPaperEngine` of src/botik/execution/spot_paper.py. Alerts and log are left out.
use botik.Base.{
  ℕ, ◌+◌, Option, none, some, List, [], ◌∷◌, if◌then◌else◌, Dict, lookup, insert, erase, values,
}
use botik.Base.Int.{sub_ℕ}
use botik.Base.Float.{Float, nought}
use botik.Paper.Policy.{Position, PositionSide, Action, Reason, Policy}
use botik.Paper.Rows.{Call, Db, Engine, FillRow, Holding, HoldingRow, OrderRow, OrderSide, Trade}

module _ {F : Type 0} ⦃fl : Float F⦄ where
  abbrev pub fee_rate : F
  fee_rate = fl.lit 1 3

  -- A block `with db.connect()` in `try`: all of it, or nothing if the database fails.
  abbrev pub write : Call → (Db F → Db F) → Db F → Db F
  write c f db = if c.db_up then f db else db

  -- The upsert of `buy`: a row that is there keeps its price and profit columns.
  unfoldable pub bought_row : F → F → Option (HoldingRow F) → HoldingRow F
  bought_row qty price none = record {
    free_qty = qty;
    avg_entry_price = price;
    current_price = price;
    purchase_value_usdt = fl.mul price qty;
    current_value_usdt = fl.mul price qty;
    unrealized_pnl = nought;
    unrealized_pnl_pct = nought;
  }
  bought_row qty price (some r) = record r {
    free_qty = qty;
    avg_entry_price = price;
    purchase_value_usdt = fl.mul price qty;
  }

  abbrev pub order_row : ℕ → OrderSide → F → F → ℕ → OrderRow F
  order_row symbol side qty price order_id = record {
    symbol = symbol;
    order_link_id = order_id;
    side = side;
    price = price;
    qty = qty;
  }

  unfoldable pub write_buy : ℕ → F → F → ℕ → Db F → Db F
  write_buy symbol qty price trade_id db = record db {
    spot_holdings =
        insert symbol (bought_row qty price (lookup symbol db.spot_holdings)) db.spot_holdings;
    spot_orders = order_row symbol OrderSide.buy_side qty price trade_id ∷ db.spot_orders;
  }

  abbrev pub new_holding : ℕ → F → F → F → F → ℕ → Holding F
  new_holding trade_id qty price stop_loss take_profit now = record {
    trade_id = trade_id;
    qty = qty;
    avg_entry_price = price;
    current_price = price;
    stop_loss = some stop_loss;
    take_profit = some take_profit;
    entry_fee = fl.mul (fl.mul price qty) fee_rate;
    purchase_value_usdt = fl.mul price qty;
    opened_at_ms = now;
  }

  abbrev pub total_cost : F → F → F
  total_cost qty price = fl.add (fl.mul price qty) (fl.mul (fl.mul price qty) fee_rate)

  unfoldable pub buy : Call → ℕ → F → F → F → F → Engine F → Engine F × Option ℕ
  buy c symbol qty entry_price stop_loss take_profit e = elim (lookup symbol e.holdings) [
    | some h ↦ (e, none)
    | none ↦
        if fl.lt e.balance (total_cost qty entry_price)
        then (e, none)
        else let trade_id = c.uuid 0 in
          (
            record e {
              balance = fl.sub e.balance (total_cost qty entry_price);
              holdings =
                  insert symbol
                    (new_holding trade_id qty entry_price stop_loss take_profit c.now_ms)
                    e.holdings;
              protection = insert symbol (stop_loss, take_profit) e.protection;
              db = write c (write_buy symbol qty entry_price trade_id) e.db;
            },
            some trade_id,
          )
  ]

  abbrev pub net_proceeds : F → F → F
  net_proceeds qty price = let gross = fl.mul price qty in fl.sub gross (fl.mul gross fee_rate)

  -- `exec_id` is the first identifier that `sell` draws, that of the order the second.
  abbrev pub fill_row : Call → ℕ → F → F → FillRow F
  fill_row c symbol qty price = record {
    exec_id = c.uuid 0;
    order_link_id = c.uuid 1;
    symbol = symbol;
    exec_price = price;
    exec_qty = qty;
    exec_fee = fl.mul (fl.mul price qty) fee_rate;
    exec_time_ms = c.now_ms;
  }

  unfoldable pub write_sell : Call → ℕ → F → F → Db F → Db F
  write_sell c symbol qty price db = record {
    spot_holdings = erase symbol db.spot_holdings;
    spot_orders = order_row symbol OrderSide.sell_side qty price (c.uuid 1) ∷ db.spot_orders;
    spot_fills = fill_row c symbol qty price ∷ db.spot_fills;
  }

  unfoldable pub trade_of : Call → ℕ → F → Reason → Holding F → Trade F
  trade_of c symbol exit_price reason h = record {
    symbol = symbol;
    entry_price = h.avg_entry_price;
    exit_price = exit_price;
    qty = h.qty;
    net_pnl =
        fl.sub (net_proceeds h.qty exit_price)
          (fl.add (fl.mul h.avg_entry_price h.qty) h.entry_fee);
    hold_time_ms = sub_ℕ c.now_ms h.opened_at_ms;
    exit_reason = reason;
  }

  unfoldable pub sell : Call → ℕ → F → Reason → Engine F → Engine F × Option (Trade F)
  sell c symbol exit_price reason e = elim (lookup symbol e.holdings) [
    | none ↦ (e, none)
    | some h ↦ (
      record {
        balance = fl.add e.balance (net_proceeds h.qty exit_price);
        holdings = erase symbol e.holdings;
        protection = erase symbol e.protection;
        db = write c (write_sell c symbol h.qty exit_price) e.db;
      },
      some (trade_of c symbol exit_price reason h),
    )
  ]

  unfoldable pub marked_row : F → Holding F → HoldingRow F → HoldingRow F
  marked_row price h r =
      let cost_basis = fl.mul h.avg_entry_price h.qty in
      let pnl = fl.sub (fl.mul price h.qty) cost_basis in
      record r {
        current_price = price;
        current_value_usdt = fl.mul price h.qty;
        unrealized_pnl = pnl;
        unrealized_pnl_pct = if fl.lt nought cost_basis then fl.div pnl cost_basis else nought;
      }

  unfoldable pub update_holding_pnl : ℕ → F → Holding F → Db F → Db F
  update_holding_pnl symbol price h db = elim (lookup symbol db.spot_holdings) [
    | none ↦ db
    | some r ↦ record db { spot_holdings = insert symbol (marked_row price h r) db.spot_holdings }
  ]

  abbrev pub or_default : F × F → Option (F × F) → F × F
  or_default d none = d
  or_default d (some p) = p

  unfoldable pub position_of : ℕ → F → F × F → Holding F → Position F
  position_of symbol price levels h = record {
    trade_id = h.trade_id;
    symbol = symbol;
    side = PositionSide.long;
    entry_price = h.avg_entry_price;
    qty = h.qty;
    stop_loss = levels.0;
    take_profit = levels.1;
    mark_price = price;
    opened_at_ms = h.opened_at_ms;
    partial_closed_qty = nought;
  }

  -- The new price in the holding and in the row.
  unfoldable pub mark : Call → ℕ → F → Holding F → Engine F → Engine F
  mark c symbol price h e = record e {
    holdings = insert symbol (record h { current_price = price }) e.holdings;
    db = write c (update_holding_pnl symbol price h) e.db;
  }

  unfoldable pub sell_on : Call → ℕ → F → Reason → Engine F → Action → Engine F × Option (Trade F)
  sell_on c symbol price reason e Action.close_all = sell c symbol price reason e
  sell_on c symbol price reason e Action.hold = (e, none)
  sell_on c symbol price reason e Action.close_partial = (e, none)
  sell_on c symbol price reason e Action.add_more = (e, none)
  sell_on c symbol price reason e Action.hedge = (e, none)

  -- The list of closed trades has at most one.
  unfoldable pub tick_found :
      Policy F → Call → ℕ → F → Engine F → Option (Holding F) → Engine F × Option (Trade F)
  tick_found policy c symbol price e none = (e, none)
  tick_found policy c symbol price e (some h) =
      let levels = or_default (nought, nought) (lookup symbol e.protection) in
      let a = policy c.now_ms (position_of symbol price levels h) in
      sell_on c symbol price a.reason (mark c symbol price h e) a.action

  unfoldable pub on_price_tick : Policy F → Call → ℕ → F → Engine F → Engine F × Option (Trade F)
  on_price_tick policy c symbol price e =
      tick_found policy c symbol price e (lookup symbol e.holdings)

  -- `x or 0`
  abbrev pub or_zero : F → F
  or_zero x = if fl.eq x nought then nought else x

  abbrev pub or_else : F → F → F
  or_else x y = if fl.eq x nought then y else x

  unfoldable pub loaded : ℕ → ℕ → HoldingRow F → Holding F
  loaded trade_id now r = record {
    trade_id = trade_id;
    qty = or_zero r.free_qty;
    avg_entry_price = or_zero r.avg_entry_price;
    current_price = or_else r.current_price (or_zero r.avg_entry_price);
    stop_loss = none;
    take_profit = none;
    entry_fee = fl.mul (or_zero r.purchase_value_usdt) fee_rate;
    purchase_value_usdt = or_zero r.purchase_value_usdt;
    opened_at_ms = now;
  }

  -- `_load_holdings_from_db`; the rows have different symbols, by the key of the table, and the n-th
  -- draws the n-th identifier.
  unfoldable pub load_rows : Call → ℕ → Dict (HoldingRow F) → Dict (Holding F)
  load_rows c n [] = []
  load_rows c n ((symbol, r) ∷ rows) =
      (symbol, loaded (c.uuid n) c.now_ms r) ∷ load_rows c (1 + n) rows

  -- `SpotPaperEngine(balance_usdt)` on what is in the database.
  unfoldable pub new_engine : Call → F → Db F → Engine F
  new_engine c balance_usdt db = record {
    balance = balance_usdt;
    holdings = if c.db_up then load_rows c 0 db.spot_holdings else [];
    protection = [];
    db = db;
  }

  unfoldable pub get_holdings : Option ℕ → Engine F → List (Holding F)
  get_holdings none e = values e.holdings
  get_holdings (some symbol) e = elim (lookup symbol e.holdings) [ none ↦ [] | some h ↦ h ∷ [] ]
