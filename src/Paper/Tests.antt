-- ===== src/Paper/Tests.antt =====
-- Runs of the spot engine on decimals, and the witnesses.
use botik.Base.{ℕ, ◌+◌, ◌*◌, insert, lookup, ◌≡◌, refl, true, false, some, List, [], ◌∷◌, arith}
use botik.Base.Float.{nought}
use botik.Base.Fixed.{Fixed, fixed_float}
use botik.Base.Int.{pos}
use botik.Paper.Policy.{Policy, on_tick, stop_reached, target_reached}
use botik.Paper.Rows.{Holding, Engine, Call}
use botik.Paper.Spot.{
  buy, write_buy, sell, write_sell, sell_on, tick_found, mark, update_holding_pnl, position_of,
  load_rows, on_price_tick, new_engine,
}
use botik.Paper.Replay.{
  Op, apply, replay, IsMirrored, of_holding, read_back, empty_db, replay_mirrors, restart_reloads,
}
use botik.Paper.Ticks.{sold, is_due, after_tick, tick_closes}
use botik.Paper.Orders.{AreFresh}

abbrev usdt : ℕ → Fixed
usdt n = some (pos (n * 10_000))

-- A call that draws numbers from the given one on.
abbrev call : ℕ → Call
call n = record { db_up = true; now_ms = n; uuid = λ i. n + i }

-- The default policy.
abbrev policy : Policy Fixed
policy = on_tick 28_800_000

abbrev bought : List (Op Fixed)
bought = Op.buying (call 10) 1 (usdt 2) (usdt 100) (usdt 90) (usdt 120) ∷ []

abbrev bought_and_sold : List (Op Fixed)
bought_and_sold =
    Op.buying (call 10) 1 (usdt 2) (usdt 100) (usdt 90) (usdt 120)
    ∷ Op.ticking (call 20) 1 (usdt 110)
    ∷ Op.ticking (call 30) 1 (usdt 125)
    ∷ []

abbrev start : Engine Fixed
start = new_engine (call 1) (usdt 10_000) empty_db

abbrev holding : Holding Fixed
holding = record {
  trade_id = 10;
  qty = usdt 2;
  avg_entry_price = usdt 100;
  current_price = usdt 100;
  stop_loss = some (usdt 90);
  take_profit = some (usdt 120);
  entry_fee = some (pos 2_000);
  purchase_value_usdt = usdt 200;
  opened_at_ms = 10;
}

bought_lem : lookup 1 (replay policy bought start).holdings ≡ some holding
unfolding replay apply buy new_engine lookup insert load_rows
bought_lem = refl

replay_mirrors_example : IsMirrored (replay policy bought start) 1
replay_mirrors_example = replay_mirrors policy (call 1) (usdt 10_000) bought (refl, tt) 1

restart_reloads_example :
    of_holding
      (lookup 1 (new_engine (call 50) (usdt 10_000) (replay policy bought start).db).holdings)
    ≡ read_back (of_holding (lookup 1 (replay policy bought start).holdings))
restart_reloads_example =
    restart_reloads policy (call 1) (call 50) (usdt 10_000) (usdt 10_000) bought (refl, tt) refl 1

-- Bought at 100 with the levels 90 and 120; the price is 110 on the first tick.
tick_closes_example :
    (let r = on_price_tick policy (call 20) 1 (usdt 110) (replay policy bought start) in
      (lookup 1 r.0.holdings, sold r.1))
    ≡ after_tick (is_due 28_800_000 20 (usdt 90, usdt 120) (usdt 110) 10) (usdt 110) holding
tick_closes_example =
    tick_closes 28_800_000 (call 1) (call 20) (usdt 10_000) bought (refl, tt) 1 (usdt 110) holding
      (usdt 90, usdt 120) bought_lem refl

no_gain : (x q : Fixed) → fixed_float.lt nought (fixed_float.mul (fixed_float.sub x x) q) ≡ false
no_gain x q = ground arith

fresh_lem : AreFresh policy bought_and_sold start
unfolding replay apply buy sell sell_on on_price_tick tick_found mark update_holding_pnl write_buy
    write_sell on_tick stop_reached target_reached position_of new_engine lookup insert load_rows
fresh_lem = ground arith
