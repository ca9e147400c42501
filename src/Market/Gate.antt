-- ===== src/Market/Gate.antt =====
-- What the gate admits, told from the evaluations that came before.
use botik.Base.{
  ℕ, ◌+◌, ◌≤◌, ◌<◌, ◌≡◌, refl, ◌==◌, Bool, true, false, not, ◌&&◌, List, [], ◌∷◌, if◌then◌else◌,
  ltb, leb, arith,
}
use botik.Base.Float.{Float}
use botik.Market.State.{GateState}
use botik.Market.Admission.{
  StrategyConfig, Measures, AdmissionStatus, AdmissionReason, failed, critical, all_ok, hold_ms,
  cooldown_ms, admit, refuse, decide, first_three,
}

abbrev pub is_pass : AdmissionStatus → Bool
is_pass AdmissionStatus.pass = true
is_pass AdmissionStatus.watch = false
is_pass AdmissionStatus.reject = false

-- Evaluations of a symbol, the newest first: when, and what was measured.
abbrev pub History : Type 0 → Type 0
History F = List (ℕ × Measures F)

-- The times are above 0, and none is later than the one after it or than `now`.
abbrev pub IsTimed : {F : Type 0} → ℕ → History F → Type 0
IsTimed now [] = 0 < now
IsTimed now ((t, m) ∷ h) = (t ≤ now) × IsTimed t h

module _ {F : Type 0} ⦃fl : Float F⦄ (cfg : StrategyConfig F) where
  unfoldable pub gate_after : History F → GateState
  gate_after [] = record { cooldown_until_ms = 0; pass_since_ms = 0 }
  gate_after ((t, m) ∷ h) = (decide cfg m t (gate_after h)).0

  -- When the unbroken run of good evaluations began that leads up to `now`.
  unfoldable pub run_start : ℕ → History F → ℕ
  run_start now [] = now
  run_start now ((t, m) ∷ h) = if all_ok cfg m then run_start t h else now

  -- Every critical evaluation is at least the cooldown old.
  unfoldable pub cooled : ℕ → History F → Bool
  cooled now [] = true
  cooled now ((t, m) ∷ h) =
      if critical cfg m && not (all_ok cfg m)
      then leb (t + cooldown_ms cfg) now && cooled now h
      else cooled now h

  timed_pos : (now : ℕ) (h : History F) → IsTimed now h → 0 < now
  timed_pos now [] p = p
  timed_pos now ((t, m) ∷ h) (p, ps) = omega (arith, timed_pos t h ps)

  run_start_pos : (now : ℕ) (h : History F) → IsTimed now h → 0 < run_start now h
  unfolding run_start
  run_start_pos now [] p = p
  run_start_pos now ((t, m) ∷ h) (p, ps) = ground (arith, run_start_pos t h ps, timed_pos t h ps)

  cooled_older :
      (now t : ℕ) (h : History F) → IsTimed t h → t + cooldown_ms cfg ≤ now → cooled now h ≡ true
  unfolding cooled
  cooled_older now t [] p q = refl
  cooled_older now t ((u, m) ∷ h) (p, ps) q =
      let older : u + cooldown_ms cfg ≤ now = omega arith in
      ground (arith, cooled_older now u h ps older)

  -- The start that the gate keeps, 0 when the last evaluation was not good.
  gate_since :
      (now : ℕ) (h : History F)
      → IsTimed now h
      → (let s = (gate_after h).pass_since_ms in if s == 0 then now else s) ≡ run_start now h
  unfolding gate_after run_start decide admit refuse
  gate_since now [] p = refl
  gate_since now ((t, m) ∷ h) (p, ps) =
      ground (arith, gate_since t h ps, run_start_pos t h ps, timed_pos t h ps)

  IsTimed-later : (now t : ℕ) (h : History F) → t ≤ now → IsTimed t h → IsTimed now h
  IsTimed-later now t [] p q = omega arith
  IsTimed-later now t ((u, m) ∷ h) p (q, qs) = (omega arith, qs)

  gate_cooled :
      (now : ℕ) (h : History F)
      → IsTimed now h
      → ltb now (gate_after h).cooldown_until_ms ≡ not (cooled now h)
  unfolding gate_after cooled decide admit refuse
  gate_cooled now [] p = ground arith
  gate_cooled now ((t, m) ∷ h) (p, ps) =
      ground (arith, gate_cooled now h (IsTimed-later now t h p ps), cooled_older now t h ps)

  -- With times above 0 that never fall, the gate passes a pair exactly when all conditions hold
  -- now, every evaluation so far that was critical is at least the cooldown old, and all conditions
  -- have held at every evaluation for at least the hold time.
  pub decide_pass_iff :
      (now : ℕ) (h : History F) (m : Measures F)
      → IsTimed now h
      → is_pass (decide cfg m now (gate_after h)).1.0
        ≡ (all_ok cfg m && (cooled now h && leb (run_start now h + hold_ms cfg) now))
  unfolding decide admit refuse
  decide_pass_iff now h m p = ground (arith, gate_since now h p, gate_cooled now h p)

  -- The status and the reason when no condition failed.
  abbrev pub verdict_ok : ℕ → GateState → AdmissionStatus × AdmissionReason
  verdict_ok now gate =
      let since = if gate.pass_since_ms == 0 then now else gate.pass_since_ms in
      if ltb now gate.cooldown_until_ms
      then (AdmissionStatus.watch, AdmissionReason.cooldown_reason)
      else if ltb now (since + hold_ms cfg)
      then (AdmissionStatus.watch, AdmissionReason.hold_reason)
      else (AdmissionStatus.pass, AdmissionReason.ok_reason)

  abbrev pub verdict_by_failures : Measures F → ℕ → GateState → AdmissionStatus × AdmissionReason
  verdict_by_failures m now gate =
      if m.stale_data
      then (AdmissionStatus.reject, AdmissionReason.stale_reason)
      else if critical cfg m
      then (AdmissionStatus.reject, AdmissionReason.critical_reason (first_three (failed cfg m)))
      else elim (failed cfg m) [
        | [] ↦ verdict_ok now gate
        | c ∷ cs ↦ (AdmissionStatus.watch, AdmissionReason.watch_reason (first_three (c ∷ cs)))
      ]
