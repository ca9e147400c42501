-- ===== src/Paper/Stats.antt =====
-- `get_stats` of the spot engine.
use botik.Base.{ℕ, suc, zero, List, [], ◌∷◌, ◌++◌, if◌then◌else◌, ltb, ◌==◌, length}
use botik.Base.Float.{Float, nought}
use botik.Paper.Rows.{OrderRow, FillRow, Engine, Call}
use botik.Paper.Spot.{or_zero}

-- A fill joined with an order: the price and the quantity sold, and the price of the order.
pub record StatsRow (F : Type 0) : Type 0 where
  pub exec_price : F
  pub exec_qty : F
  pub order_price : F
  pub exec_time_ms : ℕ

pub record Stats (F : Type 0) : Type 0 where
  pub total : ℕ
  pub wins : ℕ
  pub win_rate : F
  pub total_pnl : F

module _ {F : Type 0} where
  abbrev pub stats_row : FillRow F → OrderRow F → StatsRow F
  stats_row f o = record {
    exec_price = f.exec_price;
    exec_qty = f.exec_qty;
    order_price = o.price;
    exec_time_ms = f.exec_time_ms;
  }

  -- `ON so.order_link_id = sf.order_link_id`
  unfoldable pub join_fill : FillRow F → List (OrderRow F) → List (StatsRow F)
  join_fill f [] = []
  join_fill f (o ∷ os) =
      if o.order_link_id == f.order_link_id then stats_row f o ∷ join_fill f os else join_fill f os

  unfoldable pub join_fills : List (FillRow F) → List (OrderRow F) → List (StatsRow F)
  join_fills [] os = []
  join_fills (f ∷ fs) os = join_fill f os ++ join_fills fs os

  -- `ORDER BY exec_time_ms DESC`
  unfoldable pub insert_newest : StatsRow F → List (StatsRow F) → List (StatsRow F)
  insert_newest r [] = r ∷ []
  insert_newest r (x ∷ xs) =
      if ltb r.exec_time_ms x.exec_time_ms then x ∷ insert_newest r xs else r ∷ x ∷ xs

  unfoldable pub newest_first : List (StatsRow F) → List (StatsRow F)
  newest_first [] = []
  newest_first (r ∷ rs) = insert_newest r (newest_first rs)

  -- `LIMIT n`
  unfoldable pub first_rows : ℕ → List (StatsRow F) → List (StatsRow F)
  first_rows zero rs = []
  first_rows (suc n) [] = []
  first_rows (suc n) (r ∷ rs) = r ∷ first_rows n rs

module _ {F : Type 0} ⦃fl : Float F⦄ where
  abbrev pub row_pnl : StatsRow F → F
  row_pnl r = fl.mul (fl.sub r.exec_price (or_zero r.order_price)) r.exec_qty

  -- The loop over the rows: the wins and the sum of the profits.
  unfoldable pub count_rows : List (StatsRow F) → ℕ → F → ℕ × F
  count_rows [] wins total_pnl = (wins, total_pnl)
  count_rows (r ∷ rs) wins total_pnl =
      if fl.lt nought (or_zero r.order_price)
      then count_rows rs (if fl.lt nought (row_pnl r) then suc wins else wins)
          (fl.add total_pnl (row_pnl r))
      else count_rows rs wins total_pnl

  abbrev pub stats_of : List (StatsRow F) → Stats F
  stats_of [] = record { total = 0; wins = 0; win_rate = nought; total_pnl = nought }
  stats_of (r ∷ rs) =
      let counted = count_rows (r ∷ rs) 0 nought in
      record {
        total = length (r ∷ rs);
        wins = counted.0;
        win_rate = fl.mul (fl.div (fl.lit counted.0 0) (fl.lit (length (r ∷ rs)) 0)) (fl.lit 100 0);
        total_pnl = counted.1;
      }

  unfoldable pub get_stats : Call → Engine F → Stats F
  get_stats c e = stats_of (
      if c.db_up
      then first_rows 500 (newest_first (join_fills e.db.spot_fills e.db.spot_orders))
      else [])
