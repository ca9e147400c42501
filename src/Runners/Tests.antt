-- ===== src/Runners/Tests.antt =====
-- The witnesses of the runners: fifteen candles at 100, then a book at 90 with more buyers.
use botik.Base.{
  ℕ, zero, suc, length, ◌*◌, ◌+◌, ◌≡◌, refl, true, false, Option, some, none, List, [], ◌∷◌, arith,
  lookup, insert,
}
use botik.Base.Int.{pos, negsuc}
use botik.Base.Float.{nought}
use botik.Base.Fixed.{Fixed, fixed_float}
use botik.Paper.Policy.{on_tick}
use botik.Paper.Rows.{Call}
use botik.Paper.Sizer.{
  Candle, calc_atr, true_ranges, sum_of, calc_sl_tp, target_mult, calc_qty, risk_qty,
}
use botik.Paper.Spot.{buy, on_price_tick, tick_found, get_holdings}
use botik.Paper.Futures
use botik.Runners.Signals.{measures, spike_from, imbalance, push_candle, push_buffer}
use botik.Runners.Futures.{
  Settings, FuturesRunner, FeedMessage, handle_all, handle_message, on_kline, on_candle,
  count_closed, on_orderbook, try_enter, entry_signal, enter, open_and_protect, protect_if,
}
use botik.Runners.Once.{HoldsOnce, open_count, handle_all-HoldsOnce}
use botik.Runners.Spot.{
  SpotMessage, SpotRunner, handle_spots, handle_spot, on_book, on_candles, on_spot_candle, try_buy,
  buy_sized,
}
use botik.Runners.Brackets.{SignedLaws, AreBracketed, handle_spots-AreBracketed}

abbrev fixed : ℕ → Fixed
fixed n = some (pos (n * 10_000))

abbrev up : Call
up = record { db_up = true; now_ms = 5_000; uuid = λ k. k + 40 }

abbrev settings : Settings Fixed
settings = record {
  sizer = record {
    risk_pct = some (pos 100);
    atr_sl_mult = some (pos 15_000);
    atr_tp_mult = some (pos 25_000);
    max_position_pct = some (pos 1_500);
  };
  balance = fixed 10_000;
  spike_threshold_bps = fixed 80;
  imbalance_threshold = some (pos 6_500);
  round = λ x _. x;
}

abbrev candle : Candle Fixed
candle = record { high = fixed 101; low = fixed 100; close = fixed 100 }

abbrev times : {A : Type 0} → ℕ → A → List A
times zero x = []
times (suc n) x = x ∷ times n x

abbrev bids : List (Fixed × Fixed)
bids = (fixed 90, fixed 9) ∷ []

abbrev asks : List (Fixed × Fixed)
asks = (fixed 91, fixed 1) ∷ []

abbrev messages : List (FeedMessage Fixed)
messages =
    FeedMessage.kline 1 (times 15 (up, (λ _. false), candle))
    ∷ FeedMessage.orderbook 1 up up up bids asks
    ∷ FeedMessage.orderbook 1 up up up bids asks
    ∷ []

abbrev idle : FuturesRunner Fixed
idle = record {
  price_buf = [];
  last_price = [];
  closed_since_retrain = 0;
  db = record { positions = []; trades = []; protection = [] };
}

-- The first book opens a position and the second does not.
opens_one : open_count 1 (handle_all (on_tick 60_000) settings messages idle).db.trades ≡ 1
unfolding handle_all handle_message on_kline on_candle count_closed on_orderbook try_enter
    entry_signal enter open_and_protect protect_if measures spike_from imbalance push_candle
    push_buffer calc_atr true_ranges sum_of calc_sl_tp target_mult calc_qty risk_qty lookup insert
    Futures.open_position Futures.write_open Futures.save_protection Futures.get_open_positions
    Futures.on_price_tick Futures.tick_rows Futures.load_open_positions Futures.load_rows
opens_one = refl

idle-HoldsOnce : HoldsOnce idle.db.trades
idle-HoldsOnce = record { once = λ symbol. omega arith }

handle_all-HoldsOnce_example :
    HoldsOnce (handle_all (on_tick 60_000) settings messages idle).db.trades
handle_all-HoldsOnce_example =
    handle_all-HoldsOnce (on_tick 60_000) settings messages idle (tt, (refl, (refl, tt)))
      idle-HoldsOnce

abbrev spot_messages : List (SpotMessage Fixed)
spot_messages = SpotMessage.candles 1 (times 15 (up, candle)) ∷ SpotMessage.book 1 up bids asks ∷ []

abbrev no_score : List (Candle Fixed) → Fixed → Option Fixed
no_score cs imb = none

product_sign :
    (x y : Fixed)
    → fixed_float.lt x nought ≡ false
    → fixed_float.lt y nought ≡ false
    → fixed_float.lt (fixed_float.mul x y) nought ≡ false
product_sign none y p q = refl
product_sign (some x) none p q = refl
product_sign (some (pos a)) (some (pos b)) p q = ground arith
product_sign (some (pos a)) (some (negsuc b)) p q = ground arith
product_sign (some (negsuc a)) (some y) p q = ground arith

abbrev spot_idle : SpotRunner Fixed
spot_idle = record {
  price_buf = [];
  last_price = [];
  closed_since_retrain = 0;
  engine = record {
    balance = fixed 10_000;
    holdings = [];
    protection = [];
    db = record { spot_holdings = []; spot_orders = []; spot_fills = [] };
  };
}

exact-SignedLaws : SignedLaws Fixed (λ x _. x)
exact-SignedLaws = record {
  lit_sign = λ m k. ground arith;
  not_lt = λ x y h. ground arith;
  mul_sign = product_sign;
  sub_below = λ x y h. ground arith;
  add_above = λ x y h. ground arith;
  round_keeps = λ x y h. h;
}

-- The messages make the runner buy.
buys_one :
    length
      (handle_spots
        (on_tick 60_000)
        settings
        no_score
        nought
        spot_messages
        spot_idle).engine.holdings
    ≡ 1
unfolding handle_spots handle_spot on_book on_candles on_spot_candle on_price_tick tick_found lookup
    insert get_holdings try_buy buy_sized buy measures spike_from imbalance push_candle push_buffer
    calc_atr true_ranges sum_of calc_sl_tp target_mult calc_qty risk_qty
buys_one = refl

handle_spots-AreBracketed_example :
    AreBracketed settings.round
      (handle_spots (on_tick 60_000) settings no_score nought spot_messages spot_idle).engine
handle_spots-AreBracketed_example =
    handle_spots-AreBracketed (on_tick 60_000) settings no_score nought exact-SignedLaws refl refl
      spot_messages spot_idle tt
