-- ===== src/Strategy/Spike.antt =====
-- `SpikeReversalStrategy` of src/botik/strategy/spike_reversal.py: one order against, or with, a
-- spike. `round` to a whole number is an argument. The strengths that are sorted are numbers.
use botik.Base.{
  ℕ, zero, suc, ltb, ◌&&◌, ◌||◌, not, Bool, true, false, Option, none, some, List, [], ◌∷◌, map,
  if◌then◌else◌, Dict, lookup,
}
use botik.Base.Int.{ℤ, pos_part}
use botik.Base.Float.{Float, nought, one, fmax, fabs}
use botik.Market.State.{OrderBookAggregate, get_orderbook, get_tick_size}
use botik.Strategy.Quoting.{
  IntentSide, OrderIntent, Profile, Market, Why, Outcome, rejected, quoted, Walk, is_cooling,
  chosen_symbols, first_key, first_some, find_profile, get_intents,
}
use botik.Strategy.Terms.{is_unit, at_least_one, spike_at, tick_or}

-- The configuration that the strategy reads; `cooldown` is in nanoseconds, before its lower bound.
pub record SpikeConfig (F : Type 0) : Type 0 where
  pub scanner_enabled : Bool
  pub symbols : List ℕ
  pub max_symbols : ℕ
  pub profiles : Dict (Profile F)
  pub defaults : Profile F
  pub min_strength_bps : F
  pub spike_threshold_bps : F
  pub reverse : Bool
  pub taker : Bool
  pub qty_scale : F
  pub entry_offset_ticks : ℕ
  pub cooldown : ℕ
  pub default_tick_size : F
  pub order_notional_quote : F

-- 0.1 s
abbrev pub cooldown_of : ℕ → ℕ
cooldown_of n = if ltb n 100_000_000 then 100_000_000 else n

abbrev is_up : ℤ → Bool
is_up d = ltb 0 (pos_part d)

abbrev is_buying : IntentSide → Bool
is_buying IntentSide.buying = true
is_buying IntentSide.selling = false

module _ {F : Type 0} ⦃fl : Float F⦄ where
  -- A symbol is put behind those that are as strong, so that symbols of one strength keep their
  -- order.
  unfoldable pub insert_strong : ℕ × F → List (ℕ × F) → List (ℕ × F)
  insert_strong x [] = x ∷ []
  insert_strong x (y ∷ ys) =
      if fl.lt (fabs y.1) (fabs x.1) then x ∷ y ∷ ys else y ∷ insert_strong x ys

  unfoldable pub sort_strong : List (ℕ × F) → List (ℕ × F) → List (ℕ × F)
  sort_strong sorted [] = sorted
  sort_strong sorted (x ∷ xs) = sort_strong (insert_strong x sorted) xs

  abbrev first_symbols : ℕ → List (ℕ × F) → List ℕ
  first_symbols zero xs = []
  first_symbols (suc n) [] = []
  first_symbols (suc n) (x ∷ xs) = x.0 ∷ first_symbols n xs

  -- The strongest symbols, by their number at most.
  unfoldable pub ordered_symbols : SpikeConfig F → Market F → List ℕ
  ordered_symbols cfg m = first_symbols (at_least_one cfg.max_symbols) (
      sort_strong [] (
        map (λ s. (s, (spike_at (lookup s m.spikes)).strength_bps))
          (chosen_symbols cfg.scanner_enabled cfg.symbols m)))

  abbrev min_strength : SpikeConfig F → F
  min_strength cfg = fmax (fmax cfg.min_strength_bps cfg.spike_threshold_bps) nought

  abbrev side_for : SpikeConfig F → ℤ → IntentSide
  side_for cfg d =
      if cfg.reverse
      then (if is_up d then IntentSide.selling else IntentSide.buying)
      else if is_up d
      then IntentSide.buying
      else IntentSide.selling

  -- The price that is aimed at: inside the spread for a maker, beyond it for a taker.
  unfoldable pub target_price : SpikeConfig F → OrderBookAggregate F → IntentSide → F → F
  target_price cfg ob side tick_size =
      let shift = fl.mul (fl.lit cfg.entry_offset_ticks 0) tick_size in
      if cfg.taker
      then (if is_buying side then fl.add ob.best_ask shift else fl.sub ob.best_bid shift)
      else if is_buying side
      then (if fl.le ob.best_ask (fl.add ob.best_bid shift)
          then ob.best_bid
          else fl.add ob.best_bid shift)
      else if fl.le (fl.sub ob.best_ask shift) ob.best_bid
      then ob.best_ask
      else fl.sub ob.best_ask shift

  -- A maker's price that would be executed at once.
  unfoldable pub crosses_book : OrderBookAggregate F → IntentSide → F → Bool
  crosses_book ob side price =
      if is_buying side then fl.le ob.best_ask price else fl.le price ob.best_bid

  -- The exits of the active profile, or the configured ones.
  abbrev exits_of : SpikeConfig F → Option (Profile F) → Profile F
  exits_of cfg none = cfg.defaults
  exits_of cfg (some p) = p

  unfoldable pub spike_intent : SpikeConfig F → Market F → ℕ → IntentSide → F → OrderIntent F
  spike_intent cfg m symbol side price =
      let id = first_some (lookup symbol m.active_profiles) (first_key cfg.profiles) in
      let exits = exits_of cfg (find_profile id cfg.profiles) in
      let notional = fl.mul (fmax cfg.order_notional_quote one) (fmax cfg.qty_scale (fl.lit 1 2)) in
      record {
        symbol = symbol;
        side = side;
        price = price;
        qty = fmax (fl.div notional price) (fl.lit 1 12);
        profile_id = id;
        entry_tick_offset = cfg.entry_offset_ticks;
        target_profit = cfg.defaults.target_profit;
        safety_buffer = cfg.defaults.safety_buffer;
        min_top_book_qty = cfg.defaults.min_top_book_qty;
        stop_loss_pct = exits.stop_loss_pct;
        take_profit_pct = exits.take_profit_pct;
        hold_timeout_sec = exits.hold_timeout_sec;
        maker_only = not cfg.taker;
      }

module _ {F : Type 0} ⦃fl : Float F⦄ (round : F → F) (cfg : SpikeConfig F) (m : Market F) where
  unfoldable pub place_spike : ℕ → OrderBookAggregate F → IntentSide → F → Outcome F
  place_spike symbol ob side tick_size =
      let price =
        fl.mul (round (fl.div (target_price cfg ob side tick_size) tick_size)) tick_size in
      if fl.le price nought
      then rejected Why.invalid_quote_reject
      else if not cfg.taker && crosses_book ob side price
      then rejected Why.maker_guard_reject
      else quoted (spike_intent cfg m symbol side price ∷ [])

  unfoldable pub check_spike : ℕ → Dict ℕ → ℕ → OrderBookAggregate F → Outcome F
  check_spike now last symbol ob =
      let spike = spike_at (lookup symbol m.spikes) in
      if fl.le ob.best_bid nought || fl.le ob.best_ask nought || fl.le ob.best_ask ob.best_bid
      then rejected Why.invalid_quote_reject
      else if not (is_unit spike.direction) || fl.lt spike.strength_bps (min_strength cfg)
      then rejected Why.below_threshold
      else if is_cooling (cooldown_of cfg.cooldown) now symbol last
      then rejected Why.cooldown_reject
      else place_spike symbol ob (side_for cfg spike.direction) (
          fmax (tick_or (get_tick_size symbol m.state) (fmax cfg.default_tick_size (fl.lit 1 12)))
            (fl.lit 1 12))

  unfoldable pub check_spike_found : ℕ → Dict ℕ → ℕ → Option (OrderBookAggregate F) → Outcome F
  check_spike_found now last symbol none = rejected Why.no_orderbook
  check_spike_found now last symbol (some ob) = check_spike now last symbol ob

  -- The body of the loop.
  unfoldable pub evaluate_spike : ℕ → Dict ℕ → ℕ → Outcome F
  evaluate_spike now last symbol = check_spike_found now last symbol (get_orderbook symbol m.state)

  -- `get_intents`
  unfoldable pub spike_intents : ℕ → Dict ℕ → Walk F
  spike_intents now last =
      get_intents (evaluate_spike now) now m.state.paused (ordered_symbols cfg m) last
