-- ===== src/Strategy/Quoting.antt =====
-- What the strategies MicroSpreadStrategy and SpikeReversalStrategy of src/botik/strategy share: the
-- market they read, their profiles, the intents, and the loop over the symbols with its pause for
-- each symbol. Times of the monotonic clock are in nanoseconds.
use botik.Base.{
  ℕ, suc, ◌+◌, ltb, Bool, Option, none, some, List, [], ◌∷◌, ◌++◌, if◌then◌else◌, Dict, lookup,
  insert,
}
use botik.Base.Int.{ℤ}
use botik.Market.State.{TradingState}

pub data IntentSide : Type 0 where
  buying selling : IntentSide

-- `OrderIntent` without the link id, a random text, and the name of the model. `action_maker_only`
-- is set by every strategy.
pub record OrderIntent (F : Type 0) : Type 0 where
  pub symbol : ℕ
  pub side : IntentSide
  pub price : F
  pub qty : F
  pub profile_id : Option ℕ
  pub entry_tick_offset : ℕ
  pub target_profit : F
  pub safety_buffer : F
  pub min_top_book_qty : F
  pub stop_loss_pct : Option F
  pub take_profit_pct : Option F
  pub hold_timeout_sec : Option ℕ
  pub maker_only : Bool

-- `ActionProfileConfig`. A negative offset, which the code takes for 0, is 0.
pub record Profile (F : Type 0) : Type 0 where
  pub entry_tick_offset : ℕ
  pub order_qty_base : F
  pub target_profit : F
  pub safety_buffer : F
  pub min_top_book_qty : F
  pub stop_loss_pct : Option F
  pub take_profit_pct : Option F
  pub hold_timeout_sec : Option ℕ

-- What the snapshot of the pair filter says of a spike; 0 where it says nothing.
pub record Spike (F : Type 0) : Type 0 where
  pub direction : ℤ
  pub strength_bps : F

-- The trading state with the dictionaries of free form that the strategies read.
pub record Market (F : Type 0) : Type 0 where
  pub state : TradingState F
  pub spikes : Dict (Spike F)
  pub active_profiles : Dict ℕ
  pub scanner_ready : Bool

pub data Why : Type 0 where
  no_orderbook spread_reject cooldown_reject edge_or_liquidity_reject : Why
  invalid_quote_reject maker_guard_reject below_threshold : Why

-- What comes of a symbol.
pub data Outcome (F : Type 0) : Type 0 where
  rejected : Why → Outcome F
  quoted : List (OrderIntent F) → Outcome F

-- The time of the last quotes of each symbol, the intents of the call, and its summary: the reasons
-- whose numbers it shows, and the symbols that were quoted.
pub record Walk (F : Type 0) : Type 0 where
  pub last : Dict ℕ
  pub intents : List (OrderIntent F)
  pub reasons : List Why
  pub symbols_quoted : ℕ

abbrev pub time_or_zero : Option ℕ → ℕ
time_or_zero none = 0
time_or_zero (some t) = t

-- `now - last < pause` on signed numbers.
unfoldable pub is_cooling : ℕ → ℕ → ℕ → Dict ℕ → Bool
is_cooling pause now symbol last = ltb now (time_or_zero (lookup symbol last) + pause)

abbrev pub or_list : {A : Type 0} → List A → List A → List A
or_list [] ys = ys
or_list (x ∷ xs) ys = x ∷ xs

-- The symbols of a call: what the scanner chose, or the configured ones.
unfoldable pub chosen_symbols : {F : Type 0} → Bool → List ℕ → Market F → List ℕ
chosen_symbols scanner_enabled configured m =
    if scanner_enabled
    then (if m.scanner_ready
        then m.state.active_symbols
        else or_list m.state.active_symbols configured)
    else or_list m.state.active_symbols configured

abbrev pub first_key : {A : Type 0} → Dict A → Option ℕ
first_key [] = none
first_key ((k, v) ∷ d) = some k

abbrev pub first_some : {A : Type 0} → Option A → Option A → Option A
first_some none d = d
first_some (some x) d = some x

abbrev pub find_profile : {A : Type 0} → Option ℕ → Dict A → Option A
find_profile none d = none
find_profile (some k) d = lookup k d

module _ {F : Type 0} where
  unfoldable pub take_outcome : ℕ → ℕ → Outcome F → Walk F → Walk F
  take_outcome now symbol (rejected why) w = record w { reasons = w.reasons ++ why ∷ [] }
  take_outcome now symbol (quoted xs) w = record w {
    last = insert symbol now w.last;
    intents = w.intents ++ xs;
    symbols_quoted = suc w.symbols_quoted;
  }

  -- The loop over the symbols.
  unfoldable pub walk : (Dict ℕ → ℕ → Outcome F) → ℕ → List ℕ → Walk F → Walk F
  walk evaluate now [] w = w
  walk evaluate now (symbol ∷ symbols) w =
      walk evaluate now symbols (take_outcome now symbol (evaluate w.last symbol) w)

  abbrev pub first_walk : Dict ℕ → Walk F
  first_walk last = record { last = last; intents = []; reasons = []; symbols_quoted = 0 }

  -- A call of `get_intents`.
  unfoldable pub get_intents : (Dict ℕ → ℕ → Outcome F) → ℕ → Bool → List ℕ → Dict ℕ → Walk F
  get_intents evaluate now paused symbols last =
      if paused then first_walk last else walk evaluate now symbols (first_walk last)

  -- Calls in turn, each with its time and what it reads: the intents of each.
  unfoldable pub run_calls :
      {M : Type 0}
      → (ℕ → M → Dict ℕ → Walk F)
      → List (ℕ × M)
      → Dict ℕ
      → List (ℕ × List (OrderIntent F))
  run_calls call [] last = []
  run_calls call ((now, m) ∷ calls) last =
      let w = call now m last in (now, w.intents) ∷ run_calls call calls w.last
