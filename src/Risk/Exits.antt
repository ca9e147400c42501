-- ===== src/Risk/Exits.antt =====
-- What the exit rules promise.
use botik.Base.{
  ◌≡◌, refl, ◌⊎◌, inl, inr, Bool, true, false, ◌&&◌, Option, none, some, List, [], ◌∷◌,
  if◌then◌else◌, arith, Bool-cases,
}
use botik.Base.Float.{Float, FloatOrder, nought, fmax, fabs}
use botik.Risk.ExitRules.{
  ExitReason, ExitInput, pnl_bps, updated_peak, pnl_exit, fallback_exit, or_timeout, reason_on,
  decide_exit_reason,
}

-- A rule: when it holds, and the reason that it gives.
abbrev Rule : Type 0
Rule = Bool × ExitReason

abbrev first_rule : List Rule → Option ExitReason
first_rule [] = none
first_rule ((holds, r) ∷ rules) = if holds then some r else first_rule rules

module _ {F : Type 0} ⦃fl : Float F⦄ (i : ExitInput F) where
  -- A profit of 1 is one of ten thousand basis points.
  abbrev pub in_bps : F → F
  in_bps pnl = fl.mul pnl (fl.lit 10_000 0)

  -- The highest profit so far: the old one or this one, with neither above it.
  abbrev pub IsPeak : Option F → F → Type 0
  IsPeak none peak = peak ≡ i.peak_pnl_bps
  IsPeak (some pnl) peak =
      ((peak ≡ i.peak_pnl_bps) ⊎ (peak ≡ in_bps pnl))
      × (fl.lt peak i.peak_pnl_bps ≡ false)
      × (fl.lt peak (in_bps pnl) ≡ false)

  abbrev timeout_rule : Rule
  timeout_rule = (fl.le i.hold_timeout_sec i.age_sec, ExitReason.hold_timeout)

  -- The rules in the order of their priority, for a position whose profit is known or not, and its
  -- highest profit.
  abbrev pub rules : Option F → F → List Rule
  rules none peak = timeout_rule ∷ []
  rules (some pnl) peak =
      let bps = in_bps pnl in
      (
        i.pnl_exit_enabled && (fl.lt nought i.stop_loss_pct && fl.le pnl (fl.neg i.stop_loss_pct)),
        ExitReason.stop_loss,
      )
      ∷ (
        i.pnl_exit_enabled && (fl.lt nought i.take_profit_pct && fl.le i.take_profit_pct pnl),
        ExitReason.take_profit,
      )
      ∷ (
        fl.lt nought i.fallback_stoploss_bps && fl.le bps (fl.neg (fabs i.fallback_stoploss_bps)),
        ExitReason.fallback_stoploss,
      )
      ∷ (
        fl.lt nought i.fallback_breakeven_bps
            && (fl.le i.fallback_breakeven_bps peak && fl.le bps nought),
        ExitReason.fallback_breakeven,
      )
      ∷ (
        fl.lt nought i.fallback_trailing_bps
            && (fl.le (fmax i.fallback_trailing_activation_bps nought) peak
                && fl.le bps (fl.sub peak (fabs i.fallback_trailing_bps))),
        ExitReason.fallback_trailing,
      )
      ∷ timeout_rule
      ∷ []

  rules-some :
      (pnl : F)
      → or_timeout i (reason_on i (some pnl))
        ≡ first_rule (rules (some pnl) (updated_peak i (some pnl)))
  unfolding pnl_exit fallback_exit pnl_bps
  rules-some pnl = ground arith

  not_both : (laws : FloatOrder F) (x y : F) → fl.lt x y ≡ true → fl.lt y x ≡ false
  not_both laws x y h =
      let n = laws.lt_numbers x y h in
      ground (
        arith,
        laws.lt-eq-not-le x y n.0 n.1,
        laws.lt-eq-not-le y x n.1 n.0,
        laws.le_total x y n.0 n.1,
      )

  not_itself : (laws : FloatOrder F) (x : F) → fl.lt x x ≡ false
  not_itself laws x = elim (Bool-cases (fl.lt x x)) [ inl h ↦ not_both laws x x h | inr h ↦ h ]

  updated_peak-IsPeak : (laws : FloatOrder F) (o : Option F) → IsPeak o (updated_peak i o)
  unfolding updated_peak pnl_bps
  updated_peak-IsPeak laws none = refl
  updated_peak-IsPeak laws (some pnl) =
      let old = i.peak_pnl_bps in
      elim (Bool-cases (fl.lt old (in_bps pnl))) [
        | inl h ↦ rw h (inr refl, not_both laws old (in_bps pnl) h, not_itself laws (in_bps pnl))
        | inr h ↦ rw h (inl refl, not_itself laws old, h)
      ]

  -- The peak that is returned is the higher of the old one and of the profit in basis points, of
  -- which one is 1/10000, and the old one if no profit is known. The reason is that of the first
  -- rule that holds on this peak, in the order stop loss, take profit, fallback stop loss,
  -- break-even, trailing stop, timeout; a position with no known profit has the last rule only.
  pub decide_exit_reason_first :
      (laws : FloatOrder F)
      → IsPeak i.pnl_pct (decide_exit_reason i).1
        × ((decide_exit_reason i).0 ≡ first_rule (rules i.pnl_pct (decide_exit_reason i).1))
  unfolding decide_exit_reason
  decide_exit_reason_first laws = (updated_peak-IsPeak laws i.pnl_pct, at i.pnl_pct)
    where
      at :
          (pnl : Option F)
          → or_timeout i (reason_on i pnl) ≡ first_rule (rules pnl (updated_peak i pnl))
      at none = ground arith
      at (some pnl) = rules-some pnl
