-- ===== src/Runners/Brackets.antt =====
-- What `SpotRunner` of src/botik/runners/spot_runner.py holds: its entries, whose size and levels are
-- of src/botik/position/sizer.py.
use botik.Base.{
  ℕ, ◌==◌, ◌≡◌, refl, false, if_kept, Option, none, some, List, [], ◌∷◌, All, Bool-cases, inl, inr,
  ◌||◌, if◌then◌else◌, take_last, Dict, lookup, insert, erase, arith,
}
use botik.Base.Float.{Float, nought}
use botik.Paper.Policy.{Action, PositionSide, Policy, Reason}
use botik.Paper.Rows.{Call, Engine, Holding}
use botik.Paper.Sizer.{Candle, calc_atr, untrained, target_mult, calc_sl_tp, calc_qty}
use botik.Paper.Spot.{
  buy, sell, sell_on, mark, tick_found, on_price_tick, or_default, position_of, new_holding,
  get_holdings,
}
use botik.Market.State.{Levels}
use botik.Runners.Signals.{none_found, get_buffer, measures, imbalance, spike_from}
use botik.Runners.Futures.{Settings}
use botik.Runners.Spot.{
  SpotRunner, SpotMessage, on_spot_candle, on_candles, passes_model, buy_sized, try_buy, on_book,
  handle_spot, handle_spots,
}

-- What IEEE 754 says of signs and sums, as "not below", which holds of NaN too; and that rounding
-- keeps the order.
pub record SignedLaws (F : Type 0) ⦃fl : Float F⦄ (round : F → ℕ → F) : Type 0 where
  pub lit_sign : (m k : ℕ) → fl.lt (fl.lit m k) nought ≡ false
  pub not_lt : (x y : F) → fl.le x y ≡ false → fl.lt x y ≡ false
  pub mul_sign :
      (x y : F)
      → fl.lt x nought ≡ false
      → fl.lt y nought ≡ false
      → fl.lt (fl.mul x y) nought ≡ false
  pub sub_below : (x y : F) → fl.lt y nought ≡ false → fl.lt x (fl.sub x y) ≡ false
  pub add_above : (x y : F) → fl.lt y nought ≡ false → fl.lt (fl.add x y) x ≡ false
  pub round_keeps : (x y : F) → fl.lt x y ≡ false → fl.lt (round x 8) (round y 8) ≡ false

module _ {F : Type 0} ⦃fl : Float F⦄ (round : F → ℕ → F) where
  -- A holding of something, with a stop that is not above the entry price and a target that is not
  -- below it, all rounded.
  pub record IsBracketed (h : Holding F) : Type 0 where
    pub stop : F
    pub target : F
    pub has_stop : h.stop_loss ≡ some stop
    pub has_target : h.take_profit ≡ some target
    pub stop_below : fl.lt (round h.avg_entry_price 8) stop ≡ false
    pub target_above : fl.lt target (round h.avg_entry_price 8) ≡ false
    pub some_held : fl.le h.qty nought ≡ false

  abbrev pub AreBracketed : Engine F → Type 0
  AreBracketed e = All (λ (r : ℕ × Holding F). IsBracketed r.1) e.holdings

  abbrev Bracketed : Dict (Holding F) → Type 0
  Bracketed d = All (λ (r : ℕ × Holding F). IsBracketed r.1) d

  abbrev IfFound : Option (Holding F) → Type 0
  IfFound none = Unit
  IfFound (some h) = IsBracketed h

  Bracketed-insert :
      (k : ℕ) (h : Holding F) (d : Dict (Holding F))
      → IsBracketed h
      → Bracketed d
      → Bracketed (insert k h d)
  unfolding insert
  Bracketed-insert k h [] p ps = (p, tt)
  Bracketed-insert k h ((j, g) ∷ d) p (q, qs) =
      if_kept Bracketed (k == j) ((k, h) ∷ d) ((j, g) ∷ insert k h d) (p, qs)
        (q, Bracketed-insert k h d p qs)

  Bracketed-erase : (k : ℕ) (d : Dict (Holding F)) → Bracketed d → Bracketed (erase k d)
  unfolding erase
  Bracketed-erase k [] ps = tt
  Bracketed-erase k ((j, g) ∷ d) (q, qs) =
      let rest = Bracketed-erase k d qs in
      if_kept Bracketed (k == j) (erase k d) ((j, g) ∷ erase k d) rest (q, rest)

  lookup-IsBracketed : (k : ℕ) (d : Dict (Holding F)) → Bracketed d → IfFound (lookup k d)
  unfolding lookup
  lookup-IsBracketed k [] ps = tt
  lookup-IsBracketed k ((j, g) ∷ d) (q, qs) =
      if_kept IfFound (k == j) (some g) (lookup k d) q (lookup-IsBracketed k d qs)

  sell-AreBracketed :
      (c : Call) (symbol : ℕ) (price : F) (reason : Reason) (e : Engine F)
      → AreBracketed e
      → AreBracketed (sell c symbol price reason e).0
  unfolding sell
  sell-AreBracketed c symbol price reason e p = found (lookup symbol e.holdings) refl
    where
      found :
          (o : Option (Holding F))
          → lookup symbol e.holdings ≡ o
          → AreBracketed (sell c symbol price reason e).0
      found none h = rw (sell, h) p
      found (some g) h = rw (sell, h) (Bracketed-erase symbol e.holdings p)

  sell_on-AreBracketed :
      (c : Call) (symbol : ℕ) (price : F) (reason : Reason) (a : Action) (e : Engine F)
      → AreBracketed e
      → AreBracketed (sell_on c symbol price reason e a).0
  unfolding sell_on
  sell_on-AreBracketed c symbol price reason Action.close_all e p =
      sell-AreBracketed c symbol price reason e p
  sell_on-AreBracketed c symbol price reason Action.hold e p = p
  sell_on-AreBracketed c symbol price reason Action.close_partial e p = p
  sell_on-AreBracketed c symbol price reason Action.add_more e p = p
  sell_on-AreBracketed c symbol price reason Action.hedge e p = p

  marked-IsBracketed :
      (price : F) (h : Holding F) → IsBracketed h → IsBracketed (record h { current_price = price })
  marked-IsBracketed price h b = record {
    stop = b.stop;
    target = b.target;
    has_stop = b.has_stop;
    has_target = b.has_target;
    stop_below = b.stop_below;
    target_above = b.target_above;
    some_held = b.some_held;
  }

  tick_found-AreBracketed :
      (policy : Policy F) (c : Call) (symbol : ℕ) (price : F) (e : Engine F)
      (o : Option (Holding F))
      → IfFound o
      → AreBracketed e
      → AreBracketed (tick_found policy c symbol price e o).0
  unfolding tick_found mark
  tick_found-AreBracketed policy c symbol price e none b p = p
  tick_found-AreBracketed policy c symbol price e (some h) b p =
      let levels = or_default (nought, nought) (lookup symbol e.protection) in
      let a = policy c.now_ms (position_of symbol price levels h) in
      sell_on-AreBracketed c symbol price a.reason a.action (mark c symbol price h e) (
        Bracketed-insert symbol (record h { current_price = price }) e.holdings
          (marked-IsBracketed price h b) p)

  tick-AreBracketed :
      (policy : Policy F) (c : Call) (symbol : ℕ) (price : F) (e : Engine F)
      → AreBracketed e
      → AreBracketed (on_price_tick policy c symbol price e).0
  unfolding on_price_tick
  tick-AreBracketed policy c symbol price e p =
      tick_found-AreBracketed policy c symbol price e (lookup symbol e.holdings)
        (lookup-IsBracketed symbol e.holdings p) p

  buy-AreBracketed :
      (c : Call) (symbol : ℕ) (qty entry stop target : F) (e : Engine F)
      → IsBracketed (new_holding (c.uuid 0) qty entry stop target c.now_ms)
      → AreBracketed e
      → AreBracketed (buy c symbol qty entry stop target e).0
  unfolding buy
  buy-AreBracketed c symbol qty entry stop target e b p = found (lookup symbol e.holdings) refl
    where
      found :
          (o : Option (Holding F))
          → lookup symbol e.holdings ≡ o
          → AreBracketed (buy c symbol qty entry stop target e).0
      found (some g) h = rw (buy, h) p
      found none h =
          rw (buy, h)
            (if_kept (λ (r : Engine F × Option ℕ). AreBracketed r.0) _ _ _ p
              (Bracketed-insert symbol _ e.holdings b p))

module _ {F : Type 0} ⦃fl : Float F⦄ (policy : Policy F) (cfg : Settings F)
    (score : List (Candle F) → F → Option F) (entry_threshold : F)
    (laws : SignedLaws F cfg.round) where
  target_mult_sign :
      (sm tm : F)
      → fl.lt sm nought ≡ false
      → fl.lt tm nought ≡ false
      → fl.lt (target_mult sm tm) nought ≡ false
  unfolding target_mult
  target_mult_sign sm tm p q =
      if_kept (λ (x : F). fl.lt x nought ≡ false) _ _ _
        (laws.mul_sign sm (fl.lit 15 1) p (laws.lit_sign 15 1)) q

  module _ (stop_sign : fl.lt cfg.sizer.atr_sl_mult nought ≡ false)
      (target_sign : fl.lt cfg.sizer.atr_tp_mult nought ≡ false) where
    abbrev levels : F → F → F × F
    levels entry atr = calc_sl_tp cfg.round cfg.sizer entry atr PositionSide.long none none

    bought-IsBracketed :
        (c : Call) (qty entry atr : F)
        → fl.lt atr nought ≡ false
        → fl.le qty nought ≡ false
        → IsBracketed cfg.round
            (new_holding (c.uuid 0) qty entry (levels entry atr).0 (levels entry atr).1 c.now_ms)
    unfolding calc_sl_tp
    bought-IsBracketed c qty entry atr p held =
        let sm = cfg.sizer.atr_sl_mult in
        let tm = target_mult sm cfg.sizer.atr_tp_mult in
        let tm_sign = target_mult_sign sm cfg.sizer.atr_tp_mult stop_sign target_sign in
        record {
          stop = (levels entry atr).0;
          target = (levels entry atr).1;
          has_stop = refl;
          has_target = refl;
          stop_below =
              laws.round_keeps entry (fl.sub entry (fl.mul sm atr))
                (laws.sub_below entry (fl.mul sm atr) (laws.mul_sign sm atr stop_sign p));
          target_above =
              laws.round_keeps (fl.add entry (fl.mul tm atr)) entry
                (laws.add_above entry (fl.mul tm atr) (laws.mul_sign tm atr tm_sign p));
          some_held = held;
        }

    buy_sized-AreBracketed :
        (c : Call) (symbol : ℕ) (atr entry : F) (e : Engine F)
        → fl.lt atr nought ≡ false
        → AreBracketed cfg.round e
        → AreBracketed cfg.round (buy_sized policy cfg score entry_threshold c symbol atr entry e)
    unfolding buy_sized
    buy_sized-AreBracketed c symbol atr entry e p all =
        let l = levels entry atr in
        let qty = calc_qty cfg.round cfg.sizer cfg.balance entry l.0 untrained in
        elim (Bool-cases (fl.le qty nought)) [
          | inl h ↦ rw h all
          | inr h ↦ rw h (
              buy-AreBracketed cfg.round c symbol qty entry l.0 l.1 e
                (bought-IsBracketed c qty entry atr p h) all)
        ]

    -- The range that a signal is measured with is not below 0.
    abbrev HasRange : Option (F × F) → Type 0
    HasRange none = Unit
    HasRange (some m) = fl.lt m.0 nought ≡ false

    measures-HasRange : (buf : List (Candle F)) → HasRange (measures buf)
    unfolding measures
    measures-HasRange buf = ground (arith, laws.not_lt (calc_atr 14 buf) nought)

    try_buy-AreBracketed :
        (c : Call) (symbol : ℕ) (buf : List (Candle F)) (bids asks : Levels F) (b a : F)
        (m : Option (F × F)) (e : Engine F)
        → HasRange m
        → AreBracketed cfg.round e
        → AreBracketed cfg.round
            (try_buy policy cfg score entry_threshold c symbol buf bids asks b a m e)
    unfolding try_buy
    try_buy-AreBracketed c symbol buf bids asks b a none e p all = all
    try_buy-AreBracketed c symbol buf bids asks b a (some (atr, ref)) e p all =
        let imb = imbalance bids asks in
        let bought = buy_sized policy cfg score entry_threshold c symbol atr a e in
        let ok = passes_model policy cfg score entry_threshold (score (take_last 20 buf) imb) in
        if_kept (AreBracketed cfg.round)
          (fl.le (fl.neg cfg.spike_threshold_bps) (spike_from b a ref)
            || fl.le imb cfg.imbalance_threshold)
          e (if ok then bought else e) all
          (if_kept (AreBracketed cfg.round) ok bought e
            (buy_sized-AreBracketed c symbol atr a e p all) all)

    on_book-AreBracketed :
        (symbol : ℕ) (c : Call) (bids asks : Levels F) (r : SpotRunner F)
        → AreBracketed cfg.round r.engine
        → AreBracketed cfg.round
            (on_book policy cfg score entry_threshold symbol c bids asks r).engine
    unfolding on_book
    on_book-AreBracketed symbol c [] asks r all = all
    on_book-AreBracketed symbol c (b ∷ bids) [] r all = all
    on_book-AreBracketed symbol c (b ∷ bids) (a ∷ asks) r all =
        let buf = get_buffer symbol r.price_buf in
        let tried =
          try_buy-AreBracketed c symbol buf (b ∷ bids) (a ∷ asks) b.0 a.0 (measures buf) r.engine
            (measures-HasRange buf) all in
        elim (Bool-cases (fl.le b.0 nought || fl.le a.0 nought)) [
          | inl h ↦ rw h all
          | inr h ↦ rw h (elim (Bool-cases (none_found (get_holdings (some symbol) r.engine))) [
            | inl k ↦ rw k tried
            | inr k ↦ rw k all
          ])
        ]

    on_candles-AreBracketed :
        (symbol : ℕ) (cs : List (Call × Candle F)) (r : SpotRunner F)
        → AreBracketed cfg.round r.engine
        → AreBracketed cfg.round (on_candles policy cfg score entry_threshold symbol cs r).engine
    unfolding on_candles on_spot_candle
    on_candles-AreBracketed symbol [] r all = all
    on_candles-AreBracketed symbol ((c, candle) ∷ cs) r all =
        on_candles-AreBracketed symbol cs
          (on_spot_candle policy cfg score entry_threshold symbol c candle r)
          (elim (Bool-cases (fl.le candle.close nought)) [
            | inl h ↦ rw h all
            | inr h ↦ rw h (tick-AreBracketed cfg.round policy c symbol candle.close r.engine all)
          ])

    -- The spot runner keeps its holdings bracketed, whatever messages arrive and whether or not the
    -- database answers: each is of something, and has a stop that is not above its entry price and
    -- a target that is not below it, in rounded prices. The multipliers of the sizer are not below
    -- 0, and the signs and sums of floats are as IEEE 754 has them.
    pub handle_spots-AreBracketed :
        (xs : List (SpotMessage F)) (r : SpotRunner F)
        → AreBracketed cfg.round r.engine
        → AreBracketed cfg.round (handle_spots policy cfg score entry_threshold xs r).engine
    unfolding handle_spots handle_spot
    handle_spots-AreBracketed [] r all = all
    handle_spots-AreBracketed (SpotMessage.candles symbol cs ∷ xs) r all =
        handle_spots-AreBracketed xs (on_candles policy cfg score entry_threshold symbol cs r)
          (on_candles-AreBracketed symbol cs r all)
    handle_spots-AreBracketed (SpotMessage.book symbol c bids asks ∷ xs) r all =
        handle_spots-AreBracketed xs (on_book policy cfg score entry_threshold symbol c bids asks r)
          (on_book-AreBracketed symbol c bids asks r all)
