-- ===== src/Market/Tests.antt =====
-- The witnesses on decimals.
use botik.Base.{ℕ, ◌*◌, ◌+◌, ◌≡◌, refl, true, false, ◌&&◌, some, List, [], ◌∷◌, leb, arith, lookup}
use botik.Base.Int.{pos}
use botik.Base.Fixed.{Fixed, fixed_float}
use botik.Market.State.{
  OrderBookAggregate, PublicTradeEvent, TakerSide, TradingState, get_public_trades,
}
use botik.Market.Tape.{IsTape, record_all, record_all_suffix}
use botik.Market.Admission.{StrategyConfig, Measures, decide, hold_ms, all_ok}
use botik.Market.Gate.{is_pass, IsTimed, History, gate_after, run_start, cooled, decide_pass_iff}

abbrev fixed : ℕ → Fixed
fixed n = some (pos (n * 10_000))

abbrev empty_state : TradingState Fixed
empty_state = record {
  orderbooks = [];
  orderbook_levels = [];
  symbol_tick_size = [];
  book_snapshot_ready = [];
  last_book_update_ms = [];
  last_trade_update_ms = [];
  spread_bps_history = [];
  mid_history = [];
  public_trades = [];
  pair_gate_state = [];
  paused = true;
  panic_requested = false;
  active_symbols = [];
  update_in_progress = false;
  restart_requested = false;
}

abbrev trade : ℕ → ℕ → PublicTradeEvent Fixed
trade symbol ts = record {
  symbol = symbol;
  trade_id = ts;
  seq = ts;
  ts_ms = ts;
  taker_side = TakerSide.taker_buy;
  price = fixed 100;
  qty = fixed 1;
}

abbrev trades : List (PublicTradeEvent Fixed)
trades = trade 1 1_000 ∷ trade 2 2_000 ∷ trade 1 2_000_000 ∷ []

no_trades : get_public_trades 1 empty_state ≡ []
unfolding get_public_trades lookup
no_trades = refl

record_all_suffix_example : IsTape trades (record_all trades empty_state) 1
record_all_suffix_example = record_all_suffix trades empty_state 1 no_trades

abbrev book : OrderBookAggregate Fixed
book = record {
  symbol = 1;
  best_bid = fixed 99;
  best_ask = fixed 101;
  mid = fixed 100;
  spread_ticks = pos 2;
  imbalance_top_n = fixed 0;
  best_bid_size = fixed 1;
  best_ask_size = fixed 1;
  ts_ms = 7_000;
}

abbrev config : StrategyConfig Fixed
config = record {
  order_notional_quote = fixed 50;
  min_depth_multiplier = fixed 2;
  min_trades_per_min = fixed 10;
  max_p95_trade_gap_ms = fixed 3_000;
  max_max_gap_ms = fixed 5_000;
  min_spread_bps = fixed 5;
  max_vol_to_spread_ratio = fixed 1;
  min_hold_seconds = pos 10;
  cooldown_seconds = pos 60;
}

abbrev good : Measures Fixed
good = record {
  stale_data = false;
  trades_per_min = fixed 20;
  p95_trade_gap_ms = fixed 1_000;
  max_trade_gap_ms_window = fixed 2_000;
  depth_bid_quote = fixed 500;
  depth_ask_quote = fixed 500;
  total_slippage_bps = fixed 1;
  local_max_total_slippage_bps = fixed 4;
  live_spread_bps = fixed 9;
  median_spread_bps = fixed 9;
  min_required_spread_bps = fixed 8;
  vol_1s_bps = fixed 2;
}

-- Good since 1 s, after a critical evaluation at 0.5 s.
abbrev history : History Fixed
history = (1_000, good) ∷ (500, record good { stale_data = true }) ∷ []

history-IsTimed : IsTimed 70_000 history
history-IsTimed = (omega arith, (omega arith, omega arith))

decide_pass_iff_example : is_pass (decide config good 70_000 (gate_after config history)).1.0 ≡ (
    all_ok config good
    && (cooled config 70_000 history
        && leb (run_start config 70_000 history + hold_ms config) 70_000))
decide_pass_iff_example = decide_pass_iff config 70_000 history good history-IsTimed

abbrev mids : List (ℕ × Fixed)
mids = (1_000, fixed 100) ∷ (1_500, fixed 102) ∷ (2_100, fixed 0) ∷ (3_000, fixed 104) ∷ []
