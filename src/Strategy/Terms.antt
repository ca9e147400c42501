-- ===== src/Strategy/Terms.antt =====
-- The configuration of `MicroSpreadStrategy` in src/botik/strategy/micro_spread.py, and what it
-- measures of a symbol before it looks at prices.
use botik.Base.{
  ℕ, zero, suc, ◌+◌, ltb, ◌&&◌, Bool, true, false, Option, none, some, List, if◌then◌else◌, Dict,
  lookup,
}
use botik.Base.Int.{ℤ, pos, negsuc, pos_part, neg_part}
use botik.Base.Float.{Float, nought, one, fmax}
use botik.Market.State.{OrderBookAggregate}
use botik.Strategy.Quoting.{Profile, Spike, Market, first_key, first_some, find_profile}

-- The configuration that the strategy reads. A number of slices or a step below 1 is 1.
pub record MicroConfig (F : Type 0) : Type 0 where
  pub scanner_enabled : Bool
  pub symbols : List ℕ
  pub replace_interval_ms : ℕ
  pub min_spread_ticks : ℤ
  pub min_spread_bps : F
  pub default_tick_size : F
  pub profiles : Dict (Profile F)
  pub defaults : Profile F
  pub spike_burst_enabled : Bool
  pub spike_threshold_bps : F
  pub spike_profile_id : Option ℕ
  pub spike_burst_slices : ℕ
  pub spike_burst_qty_scale : F
  pub spike_burst_tick_step : ℕ
  pub max_order_notional_usdt : F
  pub maker_rate : F
  pub strict_pair_filter : Bool
  pub bootstrap_fee_entry_bps : F
  pub bootstrap_fee_exit_bps : F

abbrev pub is_unit : ℤ → Bool
is_unit (pos (suc zero)) = true
is_unit (negsuc zero) = true
is_unit _ = false

abbrev pub ltz : ℤ → ℤ → Bool
ltz a b = ltb (pos_part a + neg_part b) (pos_part b + neg_part a)

-- `min(max(n, 1), 8)`
abbrev pub clamp_slices : ℕ → ℕ
clamp_slices n = if ltb n 1 then 1 else if ltb 8 n then 8 else n

abbrev pub at_least_one : ℕ → ℕ
at_least_one n = if ltb n 1 then 1 else n

module _ {F : Type 0} ⦃fl : Float F⦄ where
  abbrev pub spike_at : Option (Spike F) → Spike F
  spike_at none = record { direction = pos 0; strength_bps = nought }
  spike_at (some s) = s

  abbrev pub tick_or : Option F → F → F
  tick_or none d = d
  tick_or (some t) d = t

  abbrev pub profile_or : Option (Profile F) → Profile F → Profile F
  profile_or none d = d
  profile_or (some p) d = p

  unfoldable pub is_spike : MicroConfig F → Spike F → Bool
  is_spike cfg s =
      cfg.spike_burst_enabled
      && (is_unit s.direction && fl.le (fmax cfg.spike_threshold_bps nought) s.strength_bps)

  -- The profile id of a symbol: that of the spikes in a spike, if there is one.
  unfoldable pub profile_id_of : MicroConfig F → Market F → Bool → ℕ → Option ℕ
  profile_id_of cfg m spike symbol =
      let usual = first_some (lookup symbol m.active_profiles) (first_key cfg.profiles) in
      if spike then first_some cfg.spike_profile_id usual else usual

  unfoldable pub profile_of : MicroConfig F → Market F → Bool → ℕ → Option (Profile F)
  profile_of cfg m spike symbol =
      let usual =
        find_profile (first_some (lookup symbol m.active_profiles) (first_key cfg.profiles))
          cfg.profiles in
      if spike then first_some (find_profile cfg.spike_profile_id cfg.profiles) usual else usual

  unfoldable pub order_qty_of : MicroConfig F → OrderBookAggregate F → Profile F → F
  order_qty_of cfg ob p =
      let ref = if fl.lt nought ob.mid then ob.mid else ob.best_bid in
      if fl.lt nought ref
      then fmax (fl.div (fmax cfg.max_order_notional_usdt one) ref) (fl.lit 1 12)
      else p.order_qty_base

  -- The fee of a side, not below the one that the pair filter assumes.
  unfoldable pub fee_of : MicroConfig F → F → F
  fee_of cfg bootstrap_bps =
      let bootstrap = fl.div (fmax bootstrap_bps nought) (fl.lit 10_000 0) in
      if cfg.strict_pair_filter
      then (if fl.lt nought bootstrap
          then fmax (fmax cfg.maker_rate nought) bootstrap
          else fmax cfg.maker_rate nought)
      else cfg.maker_rate

  unfoldable pub spread_now : OrderBookAggregate F → F
  spread_now ob =
      if fl.lt nought ob.mid && fl.le ob.best_bid ob.best_ask
      then fl.mul (fl.div (fl.sub ob.best_ask ob.best_bid) ob.mid) (fl.lit 10_000 0)
      else nought
