-- ===== src/Strategy/Micro.antt =====
-- `MicroSpreadStrategy` of src/botik/strategy/micro_spread.py: pairs of quotes around the spread.
-- `round` to a whole number is an argument.
use botik.Base.{
  ℕ, zero, suc, ◌*◌, ◌||◌, Bool, true, false, Option, none, some, List, [], ◌∷◌, if◌then◌else◌,
  Dict, lookup,
}
use botik.Base.Float.{Float, nought, fmax}
use botik.Market.State.{OrderBookAggregate, get_orderbook, get_tick_size}
use botik.Strategy.Terms.{
  MicroConfig, ltz, clamp_slices, at_least_one, spike_at, tick_or, profile_or, is_spike,
  profile_id_of, profile_of, order_qty_of, fee_of, spread_now,
}
use botik.Strategy.Scanner.{SpreadScanResult, scan_spread}
use botik.Strategy.Quoting.{
  IntentSide, OrderIntent, Profile, Market, Why, Outcome, rejected, quoted, Walk, is_cooling,
  chosen_symbols, get_intents,
}

-- What the slices of a symbol have in common.
pub record Quote (F : Type 0) : Type 0 where
  pub symbol : ℕ
  pub bid_price : F
  pub ask_price : F
  pub qty : F
  pub tick_size : F
  pub tick_step : ℕ
  pub profile_id : Option ℕ
  pub profile : Option (Profile F)
  pub used : Profile F

module _ {F : Type 0} ⦃fl : Float F⦄ where
  abbrev stop_of : Option (Profile F) → Option F
  stop_of none = none
  stop_of (some p) = p.stop_loss_pct

  abbrev target_of : Option (Profile F) → Option F
  target_of none = none
  target_of (some p) = p.take_profit_pct

  abbrev hold_of : Option (Profile F) → Option ℕ
  hold_of none = none
  hold_of (some p) = p.hold_timeout_sec

  abbrev intent_of : Quote F → IntentSide → F → OrderIntent F
  intent_of q side price = record {
    symbol = q.symbol;
    side = side;
    price = price;
    qty = q.qty;
    profile_id = q.profile_id;
    entry_tick_offset = q.used.entry_tick_offset;
    target_profit = q.used.target_profit;
    safety_buffer = q.used.safety_buffer;
    min_top_book_qty = q.used.min_top_book_qty;
    stop_loss_pct = stop_of q.profile;
    take_profit_pct = target_of q.profile;
    hold_timeout_sec = hold_of q.profile;
    maker_only = true;
  }

  -- A slice whose prices are no prices is left out.
  abbrev pub add_pair :
      Bool → OrderIntent F → OrderIntent F → List (OrderIntent F) → List (OrderIntent F)
  add_pair true bid ask rest = rest
  add_pair false bid ask rest = bid ∷ ask ∷ rest

  -- The slices from number `idx` on, each a bid and an ask further from the spread.
  unfoldable pub slices : Quote F → ℕ → ℕ → List (OrderIntent F)
  slices q idx zero = []
  slices q idx (suc n) =
      let px_shift = fl.mul (fl.lit (idx * q.tick_step) 0) q.tick_size in
      let bid_px = fl.sub q.bid_price px_shift in
      let ask_px = fl.add q.ask_price px_shift in
      let rest = slices q (suc idx) n in
      add_pair (fl.le bid_px nought || fl.le ask_px nought || fl.le ask_px bid_px)
        (intent_of q IntentSide.buying bid_px) (intent_of q IntentSide.selling ask_px) rest

module _ {F : Type 0} ⦃fl : Float F⦄ (round : F → F) (cfg : MicroConfig F) (m : Market F) where
  -- What is scanned at a book.
  unfoldable pub scan_at : OrderBookAggregate F → Profile F → F → SpreadScanResult F
  scan_at ob p tick_size = scan_spread (record {
    best_bid = ob.best_bid;
    best_ask = ob.best_ask;
    best_bid_size = ob.best_bid_size;
    best_ask_size = ob.best_ask_size;
    tick_size = tick_size;
    entry_tick_offset = p.entry_tick_offset;
    buy_fee = fee_of cfg cfg.bootstrap_fee_entry_bps;
    sell_fee = fee_of cfg cfg.bootstrap_fee_exit_bps;
    target_profit = p.target_profit;
    safety_buffer = p.safety_buffer;
    min_top_book_qty = p.min_top_book_qty;
  })

  -- The quotes of a symbol whose prices have been accepted.
  unfoldable pub quote_symbol :
      ℕ → OrderBookAggregate F → Bool → Option (Profile F) → F → F → F → Outcome F
  quote_symbol symbol ob spike profile tick_size bid_price ask_price =
      let used = profile_or profile cfg.defaults in
      let qty = order_qty_of cfg ob used in
      quoted (
        slices
          (record {
            symbol = symbol;
            bid_price = bid_price;
            ask_price = ask_price;
            qty =
                if spike
                then fmax (fl.mul qty (fmax cfg.spike_burst_qty_scale (fl.lit 1 2))) (fl.lit 1 12)
                else qty;
            tick_size = tick_size;
            tick_step = if spike then at_least_one cfg.spike_burst_tick_step else 1;
            profile_id = profile_id_of cfg m spike symbol;
            profile = profile;
            used = used;
          })
          0 (if spike then clamp_slices cfg.spike_burst_slices else 1))

  -- The checks of the prices that the scan proposes.
  unfoldable pub check_prices :
      ℕ → OrderBookAggregate F → Bool → Option (Profile F) → F → SpreadScanResult F → Outcome F
  check_prices symbol ob spike profile tick_size scan =
      let bid_price = fl.mul (round (fl.div scan.entry_price tick_size)) tick_size in
      let ask_price = fl.mul (round (fl.div scan.exit_price tick_size)) tick_size in
      if scan.tradable
      then (if fl.le bid_price nought || fl.le ask_price nought || fl.le ask_price bid_price
          then rejected Why.invalid_quote_reject
          else if fl.le ob.best_ask bid_price || fl.le ask_price ob.best_bid
          then rejected Why.maker_guard_reject
          else quote_symbol symbol ob spike profile tick_size bid_price ask_price)
      else rejected Why.edge_or_liquidity_reject

  unfoldable pub check_book : ℕ → Dict ℕ → ℕ → OrderBookAggregate F → Outcome F
  check_book now last symbol ob =
      let spike = is_spike cfg (spike_at (lookup symbol m.spikes)) in
      let profile = profile_of cfg m spike symbol in
      let tick_size = tick_or (get_tick_size symbol m.state) cfg.default_tick_size in
      if ltz ob.spread_ticks cfg.min_spread_ticks
        || fl.lt (spread_now ob) (fmax cfg.min_spread_bps nought)
      then rejected Why.spread_reject
      else if is_cooling (cfg.replace_interval_ms * 1_000_000) now symbol last
      then rejected Why.cooldown_reject
      else check_prices symbol ob spike profile tick_size
          (scan_at ob (profile_or profile cfg.defaults) tick_size)

  unfoldable pub check_found : ℕ → Dict ℕ → ℕ → Option (OrderBookAggregate F) → Outcome F
  check_found now last symbol none = rejected Why.no_orderbook
  check_found now last symbol (some ob) = check_book now last symbol ob

  -- The body of the loop.
  unfoldable pub evaluate_micro : ℕ → Dict ℕ → ℕ → Outcome F
  evaluate_micro now last symbol = check_found now last symbol (get_orderbook symbol m.state)

  -- `get_intents`
  unfoldable pub micro_intents : ℕ → Dict ℕ → Walk F
  micro_intents now last =
      get_intents (evaluate_micro now) now m.state.paused
        (chosen_symbols cfg.scanner_enabled cfg.symbols m) last
