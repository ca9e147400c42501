-- ===== src/Paper/Rows.antt =====
-- The data of `SpotPaperEngine` in src/botik/execution/spot_paper.py: what it holds in memory, the
-- rows that it writes, and what a call takes from outside. A symbol is a key, and its base asset, a
-- function of it, adds nothing to the key of a row. The columns that the engine writes and never
-- reads again are left out.
use botik.Base.{ℕ, Bool, Option, List, Dict}
use botik.Base.Int.{ℤ}
use botik.Paper.Policy.{Reason}

-- A holding in memory. One that is loaded has no `stop_loss` and no `take_profit`.
pub record Holding (F : Type 0) : Type 0 where
  pub trade_id : ℕ
  pub qty : F
  pub avg_entry_price : F
  pub current_price : F
  pub stop_loss : Option F
  pub take_profit : Option F
  pub entry_fee : F
  pub purchase_value_usdt : F
  pub opened_at_ms : ℕ

-- A row of `spot_holdings`, of `spot_orders` and of `spot_fills`.
pub record HoldingRow (F : Type 0) : Type 0 where
  pub free_qty : F
  pub avg_entry_price : F
  pub current_price : F
  pub purchase_value_usdt : F
  pub current_value_usdt : F
  pub unrealized_pnl : F
  pub unrealized_pnl_pct : F

pub data OrderSide : Type 0 where
  buy_side sell_side : OrderSide

pub record OrderRow (F : Type 0) : Type 0 where
  pub symbol : ℕ
  pub order_link_id : ℕ
  pub side : OrderSide
  pub price : F
  pub qty : F

pub record FillRow (F : Type 0) : Type 0 where
  pub exec_id : ℕ
  pub order_link_id : ℕ
  pub symbol : ℕ
  pub exec_price : F
  pub exec_qty : F
  pub exec_fee : F
  pub exec_time_ms : ℕ

pub record Db (F : Type 0) : Type 0 where
  pub spot_holdings : Dict (HoldingRow F)
  pub spot_orders : List (OrderRow F)
  pub spot_fills : List (FillRow F)

-- The engine and the database it shares with those that come after it.
pub record Engine (F : Type 0) : Type 0 where
  pub balance : F
  pub holdings : Dict (Holding F)
  pub protection : Dict (F × F)
  pub db : Db F

-- What a call takes from outside: whether the database answers, the time, and `uuid4`.
pub record Call : Type 0 where
  pub db_up : Bool
  pub now_ms : ℕ
  pub uuid : ℕ → ℕ

-- What `sell` answers of a trade.
pub record Trade (F : Type 0) : Type 0 where
  pub symbol : ℕ
  pub entry_price : F
  pub exit_price : F
  pub qty : F
  pub net_pnl : F
  pub hold_time_ms : ℤ
  pub exit_reason : Reason
