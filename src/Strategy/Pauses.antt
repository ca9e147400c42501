-- ===== src/Strategy/Pauses.antt =====
-- The strategies of src/botik/strategy keep the pause that the loop over the symbols asks for.
use mathlib.Core.Path.{subst}
use botik.Base.{
  ℕ, zero, suc, ◌*◌, ◌≡◌, refl, Bool, true, false, Option, none, some, List, [], All, if_kept,
  if◌then◌else◌, Dict, lookup-empty,
}
use botik.Base.Float.{Float}
use botik.Market.State.{OrderBookAggregate, get_orderbook}
use botik.Strategy.Quoting.{
  IntentSide, OrderIntent, Profile, Market, Why, Outcome, rejected, quoted, is_cooling, run_calls,
}
use botik.Strategy.Scanner.{SpreadScanResult}
use botik.Strategy.Terms.{MicroConfig}
use botik.Strategy.Micro.{
  Quote, add_pair, slices, quote_symbol, check_prices, check_book, check_found, evaluate_micro,
  micro_intents,
}
use botik.Strategy.Spike.{
  SpikeConfig, cooldown_of, place_spike, check_spike, check_spike_found, evaluate_spike,
  spike_intents, spike_intent,
}
use botik.Strategy.Spacing.{IsGuarded, IsSpaced, times_of, run_calls-IsSpaced, get_intents-Seen}

module _ {F : Type 0} where
  abbrev IsFor : ℕ → OrderIntent F → Type 0
  IsFor s x = x.symbol ≡ s

  -- The outcome quotes for the symbol only, and after the pause if there is one to keep.
  abbrev QuotesAt : Bool → ℕ → Outcome F → Type 0
  QuotesAt cooling s (rejected why) = Unit
  QuotesAt cooling s (quoted xs) = (cooling ≡ false) × All (IsFor s) xs

  record IsLawful (cooling : Bool) (s : ℕ) (o : Outcome F) : Type 0 where
    quotes : QuotesAt cooling s o

  rejected-IsLawful : (cooling : Bool) (s : ℕ) (why : Why) → IsLawful cooling s (rejected why)
  rejected-IsLawful cooling s why = record { quotes = tt }

  -- What follows a test of the pause may rely on its end.
  after_pause :
      (cooling : Bool) (s : ℕ) (why : Why) (o : Outcome F)
      → IsLawful false s o
      → IsLawful cooling s (if cooling then rejected why else o)
  after_pause true s why o h = rejected-IsLawful true s why
  after_pause false s why o h = h

  lawful-IsGuarded :
      (pause now : ℕ) (evaluate : Dict ℕ → ℕ → Outcome F)
      → ((last : Dict ℕ) (s : ℕ) → IsLawful (is_cooling pause now s last) s (evaluate last s))
      → IsGuarded pause now evaluate
  lawful-IsGuarded pause now evaluate h last s xs e =
      subst (λ o. QuotesAt (is_cooling pause now s last) s o) e (h last s).quotes

module _ {F : Type 0} ⦃fl : Float F⦄ where
  pair-IsFor :
      (skip : Bool) (s : ℕ) (bid ask : OrderIntent F) (rest : List (OrderIntent F))
      → bid.symbol ≡ s
      → ask.symbol ≡ s
      → All (IsFor s) rest
      → All (IsFor s) (add_pair skip bid ask rest)
  pair-IsFor true s bid ask rest e f h = h
  pair-IsFor false s bid ask rest e f h = (e, (f, h))

  slices-IsFor : (q : Quote F) (idx n : ℕ) → All (IsFor q.symbol) (slices q idx n)
  unfolding slices
  slices-IsFor q idx zero = tt
  slices-IsFor q idx (suc n) =
      pair-IsFor _ q.symbol _ _ (slices q (suc idx) n) refl refl (slices-IsFor q (suc idx) n)

module _ {F : Type 0} ⦃fl : Float F⦄ (round : F → F) (cfg : MicroConfig F) (m : Market F) where
  quote_symbol-IsLawful :
      (s : ℕ) (ob : OrderBookAggregate F) (spike : Bool) (profile : Option (Profile F))
      (tick bid ask : F)
      → IsLawful false s (quote_symbol round cfg m s ob spike profile tick bid ask)
  unfolding quote_symbol
  quote_symbol-IsLawful s ob spike profile tick bid ask = record {
    quotes = (refl, slices-IsFor _ 0 _);
  }

  check_prices-IsLawful :
      (s : ℕ) (ob : OrderBookAggregate F) (spike : Bool) (profile : Option (Profile F)) (tick : F)
      (scan : SpreadScanResult F)
      → IsLawful false s (check_prices round cfg m s ob spike profile tick scan)
  unfolding check_prices
  check_prices-IsLawful s ob spike profile tick scan =
      if_kept (IsLawful false s) scan.tradable _ (rejected Why.edge_or_liquidity_reject)
        (if_kept (IsLawful false s) _ (rejected Why.invalid_quote_reject) _
          (rejected-IsLawful false s Why.invalid_quote_reject)
          (if_kept (IsLawful false s) _ (rejected Why.maker_guard_reject) _
            (rejected-IsLawful false s Why.maker_guard_reject)
            (quote_symbol-IsLawful s ob spike profile tick _ _)))
        (rejected-IsLawful false s Why.edge_or_liquidity_reject)

  check_book-IsLawful :
      (now : ℕ) (last : Dict ℕ) (s : ℕ) (ob : OrderBookAggregate F)
      → IsLawful
          (is_cooling (cfg.replace_interval_ms * 1_000_000) now s last)
          s
          (check_book round cfg m now last s ob)
  unfolding check_book
  check_book-IsLawful now last s ob =
      let cooling = is_cooling (cfg.replace_interval_ms * 1_000_000) now s last in
      if_kept (IsLawful cooling s) _ (rejected Why.spread_reject) _
        (rejected-IsLawful cooling s Why.spread_reject)
        (after_pause cooling s Why.cooldown_reject _ (check_prices-IsLawful s ob _ _ _ _))

  check_found-IsLawful :
      (now : ℕ) (last : Dict ℕ) (s : ℕ) (o : Option (OrderBookAggregate F))
      → IsLawful
          (is_cooling (cfg.replace_interval_ms * 1_000_000) now s last)
          s
          (check_found round cfg m now last s o)
  unfolding check_found
  check_found-IsLawful now last s none = rejected-IsLawful _ s Why.no_orderbook
  check_found-IsLawful now last s (some ob) = check_book-IsLawful now last s ob

  micro-IsGuarded :
      (now : ℕ)
      → IsGuarded (cfg.replace_interval_ms * 1_000_000) now (evaluate_micro round cfg m now)
  unfolding evaluate_micro
  micro-IsGuarded now =
      lawful-IsGuarded _ now (evaluate_micro round cfg m now)
        λ last s. check_found-IsLawful now last s (get_orderbook s m.state)

module _ {F : Type 0} ⦃fl : Float F⦄ (round : F → F) (cfg : SpikeConfig F) (m : Market F) where
  place_spike-IsLawful :
      (s : ℕ) (ob : OrderBookAggregate F) (side : IntentSide) (tick : F)
      → IsLawful false s (place_spike round cfg m s ob side tick)
  unfolding place_spike spike_intent
  place_spike-IsLawful s ob side tick =
      if_kept (IsLawful false s) _ (rejected Why.invalid_quote_reject) _
        (rejected-IsLawful false s Why.invalid_quote_reject)
        (if_kept (IsLawful false s) _ (rejected Why.maker_guard_reject) (quoted _)
          (rejected-IsLawful false s Why.maker_guard_reject)
          (record { quotes = (refl, (refl, tt)) }))

  check_spike-IsLawful :
      (now : ℕ) (last : Dict ℕ) (s : ℕ) (ob : OrderBookAggregate F)
      → IsLawful
          (is_cooling (cooldown_of cfg.cooldown) now s last)
          s
          (check_spike round cfg m now last s ob)
  unfolding check_spike
  check_spike-IsLawful now last s ob =
      let cooling = is_cooling (cooldown_of cfg.cooldown) now s last in
      if_kept (IsLawful cooling s) _ (rejected Why.invalid_quote_reject) _
        (rejected-IsLawful cooling s Why.invalid_quote_reject)
        (if_kept (IsLawful cooling s) _ (rejected Why.below_threshold) _
          (rejected-IsLawful cooling s Why.below_threshold)
          (after_pause cooling s Why.cooldown_reject _ (place_spike-IsLawful s ob _ _)))

  check_spike_found-IsLawful :
      (now : ℕ) (last : Dict ℕ) (s : ℕ) (o : Option (OrderBookAggregate F))
      → IsLawful
          (is_cooling (cooldown_of cfg.cooldown) now s last)
          s
          (check_spike_found round cfg m now last s o)
  unfolding check_spike_found
  check_spike_found-IsLawful now last s none = rejected-IsLawful _ s Why.no_orderbook
  check_spike_found-IsLawful now last s (some ob) = check_spike-IsLawful now last s ob

  spike-IsGuarded :
      (now : ℕ) → IsGuarded (cooldown_of cfg.cooldown) now (evaluate_spike round cfg m now)
  unfolding evaluate_spike
  spike-IsGuarded now =
      lawful-IsGuarded _ now (evaluate_spike round cfg m now)
        λ last s. check_spike_found-IsLawful now last s (get_orderbook s m.state)

module _ {F : Type 0} ⦃fl : Float F⦄ (round : F → F) where
  -- Over any calls of the spread strategy, whatever market each reads, the calls that quote a symbol
  -- are at least `replace_interval_ms` apart, and the first comes no earlier after time 0.
  pub micro_intents-IsSpaced :
      (cfg : MicroConfig F) (calls : List (ℕ × Market F)) (k : ℕ)
      → IsSpaced
          (cfg.replace_interval_ms * 1_000_000)
          0
          (times_of k (run_calls (λ now m last. micro_intents round cfg m now last) calls []))
  unfolding micro_intents
  micro_intents-IsSpaced cfg calls k = rw (lookup-empty {V = ℕ} k) at (
      run_calls-IsSpaced (cfg.replace_interval_ms * 1_000_000) k
        (λ now m last. micro_intents round cfg m now last)
        (λ now m last.
          get_intents-Seen (cfg.replace_interval_ms * 1_000_000) now k last
            (evaluate_micro round cfg m now) m.state.paused _ (micro-IsGuarded round cfg m now))
        calls [])

  -- Over any calls of the spike strategy, whatever market each reads, the calls that order in a
  -- symbol are at least the cooldown apart, which is 0.1 s at least, and the first comes no earlier
  -- after time 0.
  pub spike_intents-IsSpaced :
      (cfg : SpikeConfig F) (calls : List (ℕ × Market F)) (k : ℕ)
      → IsSpaced
          (cooldown_of cfg.cooldown)
          0
          (times_of k (run_calls (λ now m last. spike_intents round cfg m now last) calls []))
  unfolding spike_intents
  spike_intents-IsSpaced cfg calls k = rw (lookup-empty {V = ℕ} k) at (
      run_calls-IsSpaced (cooldown_of cfg.cooldown) k
        (λ now m last. spike_intents round cfg m now last)
        (λ now m last.
          get_intents-Seen (cooldown_of cfg.cooldown) now k last (evaluate_spike round cfg m now)
            m.state.paused _ (spike-IsGuarded round cfg m now))
        calls [])
