-- ===== src/Strategy/Tests.antt =====
-- The witnesses of the strategies: a wide spread with a fall, looked at three times.
use botik.Base.{ℕ, ◌*◌, ◌≡◌, refl, true, false, none, some, List, [], ◌∷◌, lookup, insert}
use botik.Base.Int.{pos, negsuc}
use botik.Base.Fixed.{Fixed, fixed_float}
use botik.Market.State.{get_orderbook, get_tick_size}
use botik.Strategy.Quoting.{
  Profile, Market, OrderIntent, run_calls, get_intents, walk, take_outcome, is_cooling,
  chosen_symbols,
}
use botik.Strategy.Scanner.{scan_spread, compute_net_edge}
use botik.Strategy.Terms.{MicroConfig, spread_now, fee_of, profile_of, is_spike}
use botik.Strategy.Micro.{
  micro_intents, evaluate_micro, check_found, check_book, check_prices, quote_symbol, slices,
  scan_at,
}
use botik.Strategy.Spike.{
  SpikeConfig, spike_intents, evaluate_spike, check_spike_found, check_spike, place_spike,
  crosses_book, target_price, ordered_symbols, sort_strong, insert_strong, spike_intent,
}
use botik.Strategy.Spacing.{IsSpaced, times_of, mentions}
use botik.Strategy.Pauses.{micro_intents-IsSpaced, spike_intents-IsSpaced}

abbrev fixed : ℕ → Fixed
fixed n = some (pos (n * 10_000))

abbrev defaults : Profile Fixed
defaults = record {
  entry_tick_offset = 1;
  order_qty_base = fixed 1;
  target_profit = some (pos 1);
  safety_buffer = some (pos 1);
  min_top_book_qty = fixed 0;
  stop_loss_pct = none;
  take_profit_pct = none;
  hold_timeout_sec = none;
}

abbrev market : Market Fixed
market = record {
  state = record {
    orderbooks =
        (
          1,
          record {
            symbol = 1;
            best_bid = fixed 100;
            best_ask = fixed 110;
            mid = fixed 105;
            spread_ticks = pos 10;
            imbalance_top_n = fixed 0;
            best_bid_size = fixed 5;
            best_ask_size = fixed 5;
            ts_ms = 1;
          },
        )
        ∷ [];
    orderbook_levels = [];
    symbol_tick_size = (1, fixed 1) ∷ [];
    book_snapshot_ready = [];
    last_book_update_ms = [];
    last_trade_update_ms = [];
    spread_bps_history = [];
    mid_history = [];
    public_trades = [];
    pair_gate_state = [];
    paused = false;
    panic_requested = false;
    active_symbols = 1 ∷ [];
    update_in_progress = false;
    restart_requested = false;
  };
  spikes = (1, record { direction = negsuc 0; strength_bps = fixed 90 }) ∷ [];
  active_profiles = [];
  scanner_ready = true;
}

abbrev micro : MicroConfig Fixed
micro = record {
  scanner_enabled = true;
  symbols = [];
  replace_interval_ms = 5_000;
  min_spread_ticks = pos 1;
  min_spread_bps = fixed 8;
  default_tick_size = fixed 1;
  profiles = [];
  defaults = defaults;
  spike_burst_enabled = false;
  spike_threshold_bps = fixed 20;
  spike_profile_id = none;
  spike_burst_slices = 3;
  spike_burst_qty_scale = fixed 1;
  spike_burst_tick_step = 1;
  max_order_notional_usdt = fixed 10;
  maker_rate = some (pos 10);
  strict_pair_filter = false;
  bootstrap_fee_entry_bps = fixed 0;
  bootstrap_fee_exit_bps = fixed 0;
}

abbrev spike : SpikeConfig Fixed
spike = record {
  scanner_enabled = true;
  symbols = [];
  max_symbols = 3;
  profiles = [];
  defaults = defaults;
  min_strength_bps = fixed 50;
  spike_threshold_bps = fixed 20;
  reverse = true;
  taker = false;
  qty_scale = fixed 1;
  entry_offset_ticks = 1;
  cooldown = 60_000_000_000;
  default_tick_size = fixed 1;
  order_notional_quote = fixed 50;
}

-- At 100 s, at 101 s, and at 200 s.
abbrev calls : List (ℕ × Market Fixed)
calls = (100_000_000_000, market) ∷ (101_000_000_000, market) ∷ (200_000_000_000, market) ∷ []

abbrev micro_quotes : List (ℕ × List (OrderIntent Fixed))
micro_quotes = run_calls (λ now m last. micro_intents (λ x. x) micro m now last) calls []

abbrev spike_orders : List (ℕ × List (OrderIntent Fixed))
spike_orders = run_calls (λ now m last. spike_intents (λ x. x) spike m now last) calls []

-- The second call is within the pause.
micro_quotes_twice : times_of 1 micro_quotes ≡ 100_000_000_000 ∷ 200_000_000_000 ∷ []
unfolding times_of mentions run_calls micro_intents get_intents walk take_outcome evaluate_micro
    check_found check_book check_prices quote_symbol slices scan_at spread_now fee_of is_spike
    profile_of is_cooling chosen_symbols get_orderbook get_tick_size lookup insert scan_spread
    compute_net_edge
micro_quotes_twice = refl

spike_orders_twice : times_of 1 spike_orders ≡ 100_000_000_000 ∷ 200_000_000_000 ∷ []
unfolding times_of mentions run_calls spike_intents get_intents walk take_outcome evaluate_spike
    check_spike_found check_spike place_spike crosses_book target_price ordered_symbols sort_strong
    insert_strong spike_intent is_cooling chosen_symbols get_orderbook get_tick_size lookup insert
spike_orders_twice = refl

micro_intents-IsSpaced_example : IsSpaced (5_000 * 1_000_000) 0 (times_of 1 micro_quotes)
micro_intents-IsSpaced_example = micro_intents-IsSpaced (λ x. x) micro calls 1

spike_intents-IsSpaced_example : IsSpaced 60_000_000_000 0 (times_of 1 spike_orders)
spike_intents-IsSpaced_example = spike_intents-IsSpaced (λ x. x) spike calls 1
