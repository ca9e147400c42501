-- ===== src/Market/Admission.antt =====
-- The decision of `evaluate_pair_admission` in src/botik/strategy/pair_admission.py on what it has
-- measured, and the state of the gate that it keeps for a symbol. The measures themselves
-- (medians, percentiles, simulated prices and the recommendations of a calibration file) are its
-- input here.
use botik.Base.{
  ℕ, ◌+◌, ◌*◌, ◌==◌, Bool, true, false, not, ◌&&◌, ◌||◌, List, [], ◌∷◌, ◌++◌, if◌then◌else◌, ltb,
}
use botik.Base.Int.{ℤ, pos_part}
use botik.Base.Float.{Float, nought, fmax, fmin}
use botik.Market.State.{GateState, TradingState, get_pair_gate_state, set_pair_gate_state}

-- The part of `config.strategy` that the decision reads.
pub record StrategyConfig (F : Type 0) : Type 0 where
  pub order_notional_quote : F
  pub min_depth_multiplier : F
  pub min_trades_per_min : F
  pub max_p95_trade_gap_ms : F
  pub max_max_gap_ms : F
  pub min_spread_bps : F
  pub max_vol_to_spread_ratio : F
  pub min_hold_seconds : ℤ
  pub cooldown_seconds : ℤ

pub record Measures (F : Type 0) : Type 0 where
  pub stale_data : Bool
  pub trades_per_min : F
  pub p95_trade_gap_ms : F
  pub max_trade_gap_ms_window : F
  pub depth_bid_quote : F
  pub depth_ask_quote : F
  pub total_slippage_bps : F
  pub local_max_total_slippage_bps : F
  pub live_spread_bps : F
  pub median_spread_bps : F
  pub min_required_spread_bps : F
  pub vol_1s_bps : F

pub data Condition : Type 0 where
  trade_rate p95_trade_gap max_trade_gap depth slippage min_spread spread vol : Condition

pub data AdmissionStatus : Type 0 where
  pass watch reject : AdmissionStatus

-- The texts of the reason; an empty list is the text without names.
pub data AdmissionReason : Type 0 where
  ok_reason cooldown_reason hold_reason stale_reason : AdmissionReason
  critical_reason watch_reason : List Condition → AdmissionReason

abbrev pub Verdict : Type 0
Verdict = GateState × (AdmissionStatus × AdmissionReason)

-- `failed[:3]`
abbrev pub first_three : List Condition → List Condition
first_three (a ∷ b ∷ c ∷ cs) = a ∷ b ∷ c ∷ []
first_three cs = cs

abbrev name_if : Bool → Condition → List Condition
name_if false c = c ∷ []
name_if true c = []

module _ {F : Type 0} ⦃fl : Float F⦄ (cfg : StrategyConfig F) where
  abbrev depth_floor : F
  depth_floor = fl.mul cfg.order_notional_quote cfg.min_depth_multiplier

  module _ (m : Measures F) where
    abbrev least_depth : F
    least_depth = fmin m.depth_bid_quote m.depth_ask_quote

    -- The conditions, by their names.
    unfoldable pub holds : Condition → Bool
    holds Condition.trade_rate = fl.le cfg.min_trades_per_min m.trades_per_min
    holds Condition.p95_trade_gap = fl.le m.p95_trade_gap_ms cfg.max_p95_trade_gap_ms
    holds Condition.max_trade_gap = fl.le m.max_trade_gap_ms_window cfg.max_max_gap_ms
    holds Condition.depth = fl.le depth_floor least_depth
    holds Condition.slippage = fl.le m.total_slippage_bps m.local_max_total_slippage_bps
    holds Condition.min_spread = fl.le (fmax cfg.min_spread_bps nought) m.live_spread_bps
    holds Condition.spread = fl.le m.min_required_spread_bps m.median_spread_bps
    holds Condition.vol = fl.le m.vol_1s_bps (
        if fl.lt nought m.median_spread_bps
        then fl.mul m.median_spread_bps cfg.max_vol_to_spread_ratio
        else nought)

    unfoldable pub failed : List Condition
    failed =
        name_if (holds Condition.trade_rate) Condition.trade_rate
        ++ name_if (holds Condition.p95_trade_gap) Condition.p95_trade_gap
        ++ name_if (holds Condition.max_trade_gap) Condition.max_trade_gap
        ++ name_if (holds Condition.depth) Condition.depth
        ++ name_if (holds Condition.slippage) Condition.slippage
        ++ name_if (holds Condition.min_spread) Condition.min_spread
        ++ name_if (holds Condition.spread) Condition.spread
        ++ name_if (holds Condition.vol) Condition.vol

    unfoldable pub critical : Bool
    critical =
        m.stale_data
        || ((not (holds Condition.depth) && fl.lt least_depth (fl.mul depth_floor (fl.lit 5 1)))
            || ((not (holds Condition.max_trade_gap)
                  && fl.lt (fl.mul cfg.max_max_gap_ms (fl.lit 15 1)) m.max_trade_gap_ms_window)
                || (not (holds Condition.slippage)
                    && fl.lt (fl.mul m.local_max_total_slippage_bps (fl.lit 15 1))
                        m.total_slippage_bps)))

    unfoldable pub all_ok : Bool
    all_ok =
        not m.stale_data
        && (holds Condition.trade_rate
            && (holds Condition.p95_trade_gap
                && (holds Condition.max_trade_gap
                    && (holds Condition.depth
                        && (holds Condition.slippage
                            && (holds Condition.min_spread
                                && (holds Condition.spread && holds Condition.vol)))))))

  -- `max(int(seconds), 0) * 1000`
  abbrev pub hold_ms : ℕ
  hold_ms = pos_part cfg.min_hold_seconds * 1_000

  abbrev pub cooldown_ms : ℕ
  cooldown_ms = pos_part cfg.cooldown_seconds * 1_000

  -- `now - pass_since_ms < hold_ms_required` on integers.
  unfoldable pub admit : ℕ → GateState → Verdict
  admit now gate =
      let since = if gate.pass_since_ms == 0 then now else gate.pass_since_ms in
      let kept = record gate { pass_since_ms = since } in
      if ltb now gate.cooldown_until_ms
      then (kept, (AdmissionStatus.watch, AdmissionReason.cooldown_reason))
      else if ltb now (since + hold_ms)
      then (kept, (AdmissionStatus.watch, AdmissionReason.hold_reason))
      else (kept, (AdmissionStatus.pass, AdmissionReason.ok_reason))

  unfoldable pub refuse : Measures F → ℕ → GateState → Verdict
  refuse m now gate =
      if critical m
      then (
        record { cooldown_until_ms = now + cooldown_ms; pass_since_ms = 0 },
        (
          AdmissionStatus.reject,
          if m.stale_data
              then AdmissionReason.stale_reason
              else AdmissionReason.critical_reason (first_three (failed m)),
        ),
      )
      else (
        record gate { pass_since_ms = 0 },
        (AdmissionStatus.watch, AdmissionReason.watch_reason (first_three (failed m))),
      )

  unfoldable pub decide : Measures F → ℕ → GateState → Verdict
  decide m now gate = if all_ok m then admit now gate else refuse m now gate

  -- With the gate of the symbol read from the state and written back.
  unfoldable pub evaluate_pair_admission :
      ℕ → Measures F → ℕ → TradingState F → TradingState F × (AdmissionStatus × AdmissionReason)
  evaluate_pair_admission symbol m now s =
      let verdict = decide m now (get_pair_gate_state symbol s) in
      (set_pair_gate_state symbol verdict.0 s, verdict.1)
