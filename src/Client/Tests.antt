-- ===== src/Client/Tests.antt =====
-- The witnesses, on decimals.
use botik.Base.{
  ℕ, ◌+◌, ◌*◌, ◌≤◌, ◌≡◌, refl, true, false, none, some, List, [], ◌∷◌, arith, if◌then◌else◌, ◌==◌,
  lookup, insert,
}
use botik.Base.Int.{pos}
use botik.Base.Fixed.{Fixed, fixed_float}
use botik.Base.Text.{codes}
use botik.Market.State.{TradingState, get_orderbook}
use botik.Client.Orders.{
  ClientSide, PriceText, OrderType, Order, PaperClient, crosses, is_marketable, marketable,
  settle_order, place_order, record_execution,
}
use botik.Client.Account.{resting, executed, fills, IsUnused, place_order_settles}
use botik.Client.Cancel.{ClientOp, apply, run, AreNew, new_client, run_accounts}

abbrev fixed : ℕ → Fixed
fixed n = some (pos (n * 10_000))

abbrev state : TradingState Fixed
state = record {
  orderbooks =
      (
        1,
        record {
          symbol = 1;
          best_bid = fixed 99;
          best_ask = fixed 101;
          mid = fixed 100;
          spread_ticks = pos 2;
          imbalance_top_n = fixed 0;
          best_bid_size = fixed 1;
          best_ask_size = fixed 1;
          ts_ms = 7_000;
        },
      )
      ∷ [];
  orderbook_levels = [];
  symbol_tick_size = [];
  book_snapshot_ready = [];
  last_book_update_ms = [];
  last_trade_update_ms = [];
  spread_bps_history = [];
  mid_history = [];
  public_trades = [];
  pair_gate_state = [];
  paused = false;
  panic_requested = false;
  active_symbols = [];
  update_in_progress = false;
  restart_requested = false;
}

-- An order to buy at the ask.
abbrev crossing : Order Fixed
crossing = record {
  symbol = 1;
  side = ClientSide.buys;
  qty = fixed 1;
  price = PriceText.price_of (fixed 101);
  order_id = 5;
  order_link_id = 50;
  time_in_force = codes "GTC";
  order_type = OrderType.limit;
}

abbrev maker : Order Fixed
maker = record crossing { order_id = 6; time_in_force = codes "PostOnly" }

abbrev start : PaperClient Fixed
start = new_client true

abbrev calls : List (ClientOp Fixed)
calls =
    ClientOp.placing state 100 crossing
    ∷ ClientOp.placing state 101 maker
    ∷ ClientOp.cancelling 1 (some 50) none
    ∷ []

crossing-marketable : marketable state true crossing (some (fixed 101)) ≡ some true
unfolding marketable is_marketable crosses get_orderbook lookup
crossing-marketable = refl

maker-marketable : marketable state true maker (some (fixed 101)) ≡ some true
unfolding marketable is_marketable crosses get_orderbook lookup
maker-marketable = refl

crossing_placed : place_order state 100 crossing start ≡ some (settle_order 100 crossing true start)
unfolding place_order marketable is_marketable crosses get_orderbook lookup
crossing_placed = refl

maker_placed : place_order state 101 maker start ≡ some (settle_order 101 maker true start)
unfolding place_order marketable is_marketable crosses get_orderbook lookup
maker_placed = refl

start-IsUnused : (k : ℕ) → IsUnused k start
unfolding lookup
start-IsUnused k = (refl, refl)

place_order_settles_example :
    (executed 5 (settle_order 100 crossing true start) ≡ (
      if crossing.order_id == 5 then (if fills true crossing then 1 else 0) else executed 5 start))
    × (resting 5 (settle_order 100 crossing true start) ≡ (
        if crossing.order_id == 5 then (if fills true crossing then 0 else 1) else resting 5 start))
place_order_settles_example =
    place_order_settles state 100 crossing start (settle_order 100 crossing true start) true
      (start-IsUnused 5) crossing-marketable crossing_placed 5

calls_new : AreNew calls start
unfolding apply place_order marketable is_marketable crosses get_orderbook lookup settle_order
    record_execution insert
calls_new = ground arith

run_accounts_example :
    executed 5 (run calls (new_client true)) + resting 5 (run calls (new_client true)) ≤ 1
run_accounts_example = run_accounts calls true calls_new 5
