-- ===== src/Recon/Failing.antt =====
-- What a run of src/botik/execution/reconciliation_service.py leaves open, wherever it fails.
use botik.Base.{
  if_kept, ℕ, zero, suc, ◌==◌, ◌<◌, ◌≤◌, ◌≡◌, sym, ◌∙◌, Bool, true, false, not, ◌&&◌, List, [], ◌∷◌,
  ◌++◌, All, keep, arith, Bool-cases, inl, inr,
}
use botik.Base.Float.{Float}
use botik.Recon.Issues.{Key, Issue, same_key, has_key, resolve_reconciliation_issue}
use botik.Recon.Service.{Audit, Service, Recon, count, audit}
use botik.Recon.Run.{
  Fault, Answers, is_eligible, eligible_issues, resolve_row, update_issue, resolve_until,
  resolve_stale_entry_lock_issues, start_run, end_run, close_run, finish_run, close_or_fail, steps,
  run,
}
use botik.Recon.Ledger.{
  is_lock_key, IsBelow, IsSound, any_open, has_key_same, same_key_sym, same_key_trans,
}
use botik.Recon.Sound.{InRun, InRun-issue_once, InRun-start_run, InRun-draw}
use botik.Recon.Kept.Steps.{steps_kept}
use botik.Recon.Reports.{any_report, reports-run}
use botik.Recon.Resolve.{resolve_stale_entry_lock_issues_lem, any_open-close, is_eligible_same}

-- The rows of a number have the key of the issue with that number.
abbrev Agrees : Issue → List Issue → Type 0
Agrees i is_ =
    All (λ (x : Issue). (x.issue_id == i.issue_id) ≡ true → same_key x.key i.key ≡ true) is_

abbrev AllAgree : List Issue → List Issue → Type 0
AllAgree rows is_ = All (λ (i : Issue). Agrees i is_) rows

abbrev AllBelow : ℕ → List Issue → Type 0
AllBelow b rows = All (λ (i : Issue). i.issue_id < b) rows

Agrees-below :
    (b : ℕ) (i : Issue) (is_ : List Issue) → IsBelow b is_ → b ≤ i.issue_id → Agrees i is_
unfolding IsBelow
Agrees-below b i [] h l = tt
Agrees-below b i (x ∷ is_) (h, hs) l =
    (λ e. ground (arith, e), Agrees-below x.issue_id i is_ hs (omega arith))

AllAgree-first :
    (x : Issue) (rows is_ : List Issue)
    → AllBelow x.issue_id rows
    → AllAgree rows is_
    → AllAgree rows (x ∷ is_)
AllAgree-first x [] is_ h a = tt
AllAgree-first x (i ∷ rows) is_ (h, hs) (a, as_) =
    ((λ e. ground (arith, e), a), AllAgree-first x rows is_ hs as_)

AllBelow-later : (a b : ℕ) (rows : List Issue) → a ≤ b → AllBelow a rows → AllBelow b rows
AllBelow-later a b [] h p = tt
AllBelow-later a b (i ∷ rows) h (p, ps) = (omega arith, AllBelow-later a b rows h ps)

AllBelow-keep :
    (p : Issue → Bool) (b : ℕ) (is_ : List Issue) → IsBelow b is_ → AllBelow b (keep p is_)
unfolding IsBelow
AllBelow-keep p b [] h = tt
AllBelow-keep p b (x ∷ is_) (h, hs) =
    let rest =
      AllBelow-later x.issue_id b (keep p is_) (omega arith) (AllBelow-keep p x.issue_id is_ hs) in
    if_kept (AllBelow b) (p x) (x ∷ keep p is_) (keep p is_) (h, rest) rest

AllAgree-keep :
    (p : Issue → Bool) (b : ℕ) (is_ : List Issue) → IsBelow b is_ → AllAgree (keep p is_) is_
unfolding IsBelow
AllAgree-keep p b [] h = tt
AllAgree-keep p b (x ∷ is_) (h, hs) =
    let own : Agrees x (x ∷ is_) =
      (λ e. ground arith, Agrees-below x.issue_id x is_ hs (omega arith)) in
    let rest =
      AllAgree-first x (keep p is_) is_ (AllBelow-keep p x.issue_id is_ hs)
        (AllAgree-keep p x.issue_id is_ hs) in
    if_kept (λ (rows : List Issue). AllAgree rows (x ∷ is_)) (p x) (x ∷ keep p is_) (keep p is_)
      (own, rest) rest

Agrees-resolve :
    (i : Issue) (n : ℕ) (is_ : List Issue)
    → Agrees i is_
    → Agrees i (resolve_reconciliation_issue n is_).1
unfolding resolve_reconciliation_issue
Agrees-resolve i n [] a = tt
Agrees-resolve i n (x ∷ is_) (a, as_) =
    let rest = resolve_reconciliation_issue n is_ in
    if_kept (λ (r : Bool × List Issue). Agrees i r.1) _
      (true, record x { is_open = false } ∷ rest.1) (rest.0, x ∷ rest.1)
      (a, Agrees-resolve i n is_ as_) (a, Agrees-resolve i n is_ as_)

-- To resolve an issue leaves the other keys open.
other_stays_open :
    (i : Issue) (k : Key) (is_ : List Issue)
    → Agrees i is_
    → same_key i.key k ≡ false
    → any_open k is_ ≡ true
    → any_open k (resolve_reconciliation_issue i.issue_id is_).1 ≡ true
unfolding resolve_reconciliation_issue any_open
other_stays_open i k [] a other h = h
other_stays_open i k (x ∷ is_) (a, as_) other h = ground (
  arith,
  a,
  other_stays_open i k is_ as_ other,
  same_key_sym x.key i.key,
  same_key_trans i.key x.key k,
)

-- The key was noted in the run, and is open.
abbrev Stays : {F : Type 0} → Key → Recon F → Type 0
Stays k s = (has_key k s.core.active ≡ true) × (any_open k s.core.issues ≡ true)

other_key :
    (j k : Key) (active : List Key)
    → has_key j active ≡ false
    → has_key k active ≡ true
    → same_key j k ≡ false
other_key j k active h g = ground (arith, has_key_same j k active)

module _ {F : Type 0} where
  row-Stays :
      (i : Issue) (k : Key) (u : List ℕ) (s : Recon F)
      → Agrees i s.core.issues
      → Stays k s
      → Stays k (resolve_row i (u, s)).1
  unfolding resolve_row count audit
  row-Stays i k u s a (noted, h) = elim (Bool-cases (has_key i.key s.core.active)) [
    | inl seen ↦ rw seen (noted, h)
    | inr unseen ↦ rw unseen (
        if_kept (λ (r : List ℕ × Recon F). Stays k r.1) _ _ _ (noted, h)
          (
            noted,
            other_stays_open i k s.core.issues a (other_key i.key k s.core.active unseen noted) h,
          ))
  ]

  row-AllAgree :
      (i : Issue) (rows : List Issue) (u : List ℕ) (s : Recon F)
      → AllAgree rows s.core.issues
      → AllAgree rows (resolve_row i (u, s)).1.core.issues
  unfolding resolve_row count audit
  row-AllAgree i [] u s a = tt
  row-AllAgree i (j ∷ rows) u s (a, as_) = (
    if_kept (λ (r : List ℕ × Recon F). Agrees j r.1.core.issues) _ _ _ a
        (Agrees-resolve j i.issue_id s.core.issues a),
    row-AllAgree i rows u s as_,
  )

  update-Stays :
      (i : Issue) (k : Key) (s : Recon F)
      → Agrees i s.core.issues
      → has_key i.key s.core.active ≡ false
      → Stays k s
      → Stays k (update_issue i s)
  unfolding update_issue count
  update-Stays i k s a unseen (noted, h) =
      if_kept (λ (s : Recon F). Stays k s) _ _ s
        (
          noted,
          other_stays_open i k s.core.issues a (other_key i.key k s.core.active unseen noted) h,
        )
        (noted, h)

  until-Stays :
      (n : ℕ) (updates : Bool) (rows : List Issue) (k : Key) (u : List ℕ) (s : Recon F)
      → AllAgree rows s.core.issues
      → Stays k s
      → Stays k (resolve_until n updates rows (u, s)).2
  unfolding resolve_until
  until-Stays n updates [] k u s a h = h
  until-Stays zero updates (i ∷ rows) k u s (a, as_) h =
      elim (Bool-cases (has_key i.key s.core.active)) [
        | inl seen ↦ rw seen (until-Stays zero updates rows k u s as_ h)
        | inr unseen ↦ rw unseen (
            if_kept (λ (t : Recon F). Stays k t) updates (update_issue i s) s
              (update-Stays i k s a unseen h) h)
      ]
  until-Stays (suc n) updates (i ∷ rows) k u s (a, as_) h =
      let next = resolve_row i (u, s) in
      if_kept (λ (r : Bool × List ℕ × Recon F). Stays k r.2) _ _ _
        (until-Stays (suc n) updates rows k u s as_ h)
        (until-Stays n updates rows k next.0 next.1 (row-AllAgree i rows u s as_)
          (row-Stays i k u s a h))

  stale-Stays :
      (v : Service) (k : Key) (s : Recon F)
      → IsBelow s.core.next_id s.core.issues
      → Stays k s
      → any_open k (resolve_stale_entry_lock_issues v s).core.issues ≡ true
  stale-Stays v k s b (noted, h) =
      let e = is_eligible v s.summary in
      rw (resolve_stale_entry_lock_issues_lem v s s.core.next_id b) (
        rw (any_open-close s.core.active e (is_eligible_same v s.summary) k s.core.issues, noted, h)
          (ground arith))

  finish-Stays :
      (v : Service) (f : Fault) (k : Key) (s : Recon F)
      → IsBelow s.core.next_id s.core.issues
      → Stays k s
      → any_open k (finish_run v f s).core.issues ≡ true
  unfolding finish_run close_run end_run audit eligible_issues
  finish-Stays v Fault.no_fault k s b h = stale-Stays v k s b h
  finish-Stays v Fault.at_query k s b h = h.1
  finish-Stays v (Fault.at_row n updates) k s b h =
      let agree =
        AllAgree-keep (λ i. i.is_open && is_eligible v s.summary i.key) s.core.next_id s.core.issues
          b in
      if_kept (λ (t : Recon F). any_open k t.core.issues ≡ true) _ _ _
        (until-Stays n updates (eligible_issues v s.summary s.core.issues) k [] s agree h).1
        (stale-Stays v k s b h)
  finish-Stays v Fault.at_finish k s b h = stale-Stays v k s b h
  finish-Stays v Fault.at_end_audit k s b h = stale-Stays v k s b h

  close_or_fail-Stays :
      (v : Service) (f : Fault) (raised : Bool) (k : Key) (s : Recon F)
      → IsBelow s.core.next_id s.core.issues
      → Stays k s
      → any_open k (close_or_fail v f raised s).core.issues ≡ true
  unfolding close_or_fail end_run audit
  close_or_fail-Stays v f true k s b h = h.1
  close_or_fail-Stays v f false k s b h = finish-Stays v f k s b h

no_closed : (told is_open : Bool) → (told ≡ true → is_open ≡ true) → told && not is_open ≡ false
no_closed told is_open h = ground (arith, h)

module _ {F : Type 0} ⦃fl : Float F⦄ (v : Service) where
  noted-run :
      (f : Fault) (a : Answers F) (s : Recon F) (k : Key)
      → IsSound s.core
      → has_key k (steps v a (start_run s)).1.core.active ≡ true
      → any_open k (run v f a s).core.issues ≡ true
  unfolding run
  noted-run f a s k sound noted =
      let r = steps v a (start_run s) in
      let (below, seen) =
        steps_kept v InRun InRun-issue_once InRun-draw a (start_run s) (InRun-start_run s sound) in
      close_or_fail-Stays v f r.0 k r.1 below (noted, seen k noted)

  -- A run from sound issues adds audit rows, of which none reports a lock that is not open after the
  -- run. This holds however the run ends: if the exchange raises in a step, or the database at the
  -- end, with some of the issues resolved already.
  pub reported-run :
      (f : Fault) (a : Answers F) (s : Recon F) (k : Key)
      → IsSound s.core
      → is_lock_key k ≡ true
      → (new : List Audit) × ((run v f a s).audits ≡ new ++ s.audits)
        × ((any_report k new && not (any_open k (run v f a s).core.issues)) ≡ false)
  reported-run f a s k sound lock =
      let (new, added, told) = reports-run v f a s k lock in
      (
        new,
        added,
        no_closed (any_report k new) (any_open k (run v f a s).core.issues)
            (λ h. noted-run f a s k sound (sym told ∙ h)),
      )
