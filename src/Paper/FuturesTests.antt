-- ===== src/Paper/FuturesTests.antt =====
-- The witnesses of the futures engine: a long trade that reaches its stop, on decimals.
use botik.Base.{
  ℕ, ◌*◌, ◌+◌, ◌==◌, ◌≡◌, refl, true, none, some, List, [], ◌∷◌, map, keep, length, if◌then◌else◌,
  arith,
}
use botik.Base.Int.{pos}
use botik.Base.Fixed.{Fixed, fixed_float, Fixed-FloatOrder}
use botik.Paper.Sizer.{PositionSizer, IsWithin, untrained, max_qty, calc_qty, calc_qty-IsWithin}
use botik.Paper.Policy.{PositionSide, Policy, on_tick}
use botik.Paper.Rows.{Call}
use botik.Paper.Futures.{TradeRow, FuturesDb, on_price_tick}
use botik.Paper.FuturesStats.{Stats, get_stats, get_stats_lem, is_closed}
use botik.Paper.FuturesTicks.{IsApart, AreDistinct, settled, on_price_tick_trades}
use botik.Paper.FuturesRuns.{FuturesOp, NoHolds, run_futures, run_futures_holds}

abbrev fixed : ℕ → Fixed
fixed n = some (pos (n * 10_000))

abbrev call_at : ℕ → Call
call_at now = record { db_up = true; now_ms = now; uuid = λ k. k + 40 }

abbrev open_trade : TradeRow Fixed
open_trade = record {
  trade_id = 40;
  symbol = 1;
  side = PositionSide.long;
  entry_price = fixed 100;
  qty = fixed 2;
  model_scope = 7;
  opened_at_s = 5;
  closing = none;
}

abbrev db : FuturesDb Fixed
db = record {
  positions = [];
  trades = open_trade ∷ record open_trade { trade_id = 41; symbol = 2 } ∷ [];
  protection = (3, (fixed 90, fixed 120)) ∷ [];
}

abbrev policy : Policy Fixed
policy = on_tick 60_000

db-AreDistinct : AreDistinct db.trades
unfolding AreDistinct IsApart
db-AreDistinct = ((λ (e : 41 ≡ 40). omega (arith, e), tt), (tt, tt))

on_price_tick_trades_example :
    (on_price_tick policy (call_at 9_000) 1 (fixed 80) db).0.trades
    ≡ map (settled policy (call_at 9_000) 1 (fixed 80) db) db.trades
on_price_tick_trades_example =
    on_price_tick_trades policy (call_at 9_000) 1 (fixed 80) db refl db-AreDistinct

abbrev ops : List (FuturesOp Fixed)
ops =
    FuturesOp.opening (call_at 5_000) 7 1 PositionSide.long (fixed 100) (fixed 2)
    ∷ FuturesOp.protecting (call_at 5_000) 1 PositionSide.long (fixed 90) (fixed 120)
    ∷ FuturesOp.moving (call_at 9_000) 1 (fixed 80)
    ∷ []

run_futures_holds_example :
    NoHolds (run_futures policy ops (record { positions = []; trades = []; protection = [] }))
run_futures_holds_example =
    run_futures_holds policy ops (record { positions = []; trades = []; protection = [] }) tt

abbrev closed_db : FuturesDb Fixed
closed_db = (on_price_tick policy (call_at 9_000) 1 (fixed 80) db).0

get_stats_lem_example :
    get_stats (λ _. 0) (λ x _. x) (call_at 9_500) 7 closed_db
    ≡ (if length (keep (is_closed 7) closed_db.trades) == 0 then Stats.zeros else Stats.no_stats)
get_stats_lem_example = get_stats_lem (λ _. 0) (λ x _. x) (call_at 9_500) 7 closed_db refl

abbrev sizer : PositionSizer Fixed
sizer = record {
  risk_pct = some (pos 100);
  atr_sl_mult = some (pos 15_000);
  atr_tp_mult = some (pos 25_000);
  max_position_pct = some (pos 2_000);
}

-- As every caller asks, with no trained model.
calc_qty-IsWithin_example :
    IsWithin
      (λ x _. x)
      (max_qty sizer (fixed 1_000) (fixed 100))
      (calc_qty (λ x _. x) sizer (fixed 1_000) (fixed 100) (fixed 90) untrained)
calc_qty-IsWithin_example =
    calc_qty-IsWithin Fixed-FloatOrder (λ x _. x) (λ x y h. h) sizer (fixed 1_000) (fixed 100)
      (fixed 90) untrained refl (λ _. refl) (λ trained _ _ _. cc)
