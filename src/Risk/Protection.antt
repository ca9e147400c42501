-- ===== src/Risk/Protection.antt =====
-- What the protection state machine promises: protection is reported only when it was verified,
-- a broken protection blocks new entries, and a worse loss is never a better state.
use botik.Base.{
  ◌≡◌, ◌≢◌, refl, ◌⊎◌, inl, inr, ◌↔◌, Bool, true, false, Option, some, [], ◌∷◌, if◌then◌else◌,
  arith, Bool-cases,
}
use botik.Base.Float.{Float}
use botik.Base.Text.{Text, text_eq, text_eq_iff, normalize}
use botik.Risk.FuturesRules.{
  pending, failed, unprotected, protected, closed, is_entry_blocking, is_blocking_protection_status,
  normalize_protection_status, transition_protection_status, classify_futures_state, after_apply,
  or_pending,
}

or_pending-protected : (s : Text) → (or_pending s ≡ protected) ↔ (s ≡ protected)
or_pending-protected [] = (λ e. ground arith, λ e. ground arith)
or_pending-protected (c ∷ s) = (λ e. e, λ e. e)

failed-ne-protected : failed ≢ protected
failed-ne-protected e = ground arith

closed-ne-protected : closed ≢ protected
closed-ne-protected e = ground arith

unprotected-ne-protected : unprotected ≢ protected
unprotected-ne-protected e = ground arith

after_apply-protected : (c v : Text) → (after_apply c v ≡ protected) ↔ (v ≡ protected)
after_apply-protected c v = elim (Bool-cases (text_eq v protected)) [
  | inl e ↦ rw e (λ _. (text_eq_iff v protected).0 e, λ _. refl)
  | inr e ↦ (λ h. absurd (never (rw e at h)), λ h. ground (arith, text_eq_iff v protected))
]
  where
    never :
        (if text_eq v closed
            then closed
            else if text_eq v failed
            then failed
            else if text_eq v unprotected
            then if text_eq c pending then unprotected else failed
            else failed)
          ≡ protected
        → ⊥
    never h = elim (Bool-cases (text_eq v closed)) [
      | inl e ↦ closed-ne-protected (rw e at h)
      | inr e ↦ elim (Bool-cases (text_eq v failed)) [
        | inl f ↦ failed-ne-protected (rw (e, f) at h)
        | inr f ↦ elim (Bool-cases (text_eq v unprotected)) [
          | inl g ↦ elim (Bool-cases (text_eq c pending)) [
            | inl k ↦ unprotected-ne-protected (rw (e, f, g, k) at h)
            | inr k ↦ failed-ne-protected (rw (e, f, g, k) at h)
          ]
          | inr g ↦ failed-ne-protected (rw (e, f, g) at h)
        ]
      ]
    ]

-- The status after a transition is "protected" exactly when a successful attempt was verified as
-- protected, or nothing was attempted and it was protected already.
pub transition-protected_iff :
    (current verify : Option Text) (attempted success : Bool)
    → (transition_protection_status current attempted success verify ≡ protected) ↔ (
        ((attempted ≡ true) × (success ≡ true) × (normalize verify ≡ protected))
        ⊎ ((attempted ≡ false) × (normalize current ≡ protected)))
unfolding transition_protection_status normalize_protection_status
transition-protected_iff current verify false success =
    let p = or_pending-protected (normalize current) in
    (λ h. inr (refl, p.0 h), λ h. elim h [ inl q ↦ cc | inr q ↦ p.1 q.1 ])
transition-protected_iff current verify true false =
    (λ h. absurd (failed-ne-protected h), λ h. elim h [ inl q ↦ cc | inr q ↦ cc ])
transition-protected_iff current verify true true =
    let p = after_apply-protected (normalize current) (normalize verify) in
    (λ h. inl (refl, refl, p.0 h), λ h. elim h [ inl q ↦ p.1 q.2 | inr q ↦ cc ])

-- A status that blocks new entries is pending, or leads to a risk state that blocks them too,
-- whatever the profit and the distance to liquidation are.
pub blocking-entry_blocking :
    {F : Type 0} ⦃fl : Float F⦄ (status : Text) (pnl distance : Option F)
    → is_blocking_protection_status (some status) ≡ true
    → (normalize (some status) ≡ pending)
      ⊎ (is_entry_blocking (classify_futures_state status pnl distance) ≡ true)
unfolding is_blocking_protection_status classify_futures_state normalize_protection_status
blocking-entry_blocking status pnl distance h =
    ground (arith, text_eq_iff (normalize (some status)) pending)
