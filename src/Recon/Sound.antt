-- ===== src/Recon/Sound.antt =====
-- What a run of src/botik/execution/reconciliation_service.py does to the issues: the locks of what
-- it checked are those that it noted, and a key keeps one open row.
use botik.Base.{
  if_kept, ℕ, zero, suc, ◌≤◌, ◌≡◌, refl, sym, ◌∙◌, Bool, true, false, List, [], ◌∷◌, map, arith,
}
use botik.Base.Float.{Float}
use botik.Recon.Issues.{
  Key, Issue, Severity, Core, has_key, issue_once, resolve_reconciliation_issue,
}
use botik.Recon.Service.{RunStatus, Service, Recon, count, audit}
use botik.Recon.Run.{
  Answers, is_eligible, eligible_issues, resolve_row, resolve_rows, resolve_stale_entry_lock_issues,
  start_run, end_run, close_run, steps, run, Fault, update_issue, resolve_until, finish_run,
  close_or_fail,
}
use botik.Recon.Faults.{plain_run}
use botik.Recon.Ledger.{
  IsBelow, IsBelow-later, IsSound, any_open, count_open, IsBelow-issue_once, IsSound-issue_once,
  any_open-issue_once, has_key-issue_once,
}
use botik.Recon.Kept.Steps.{steps_kept}
use botik.Recon.Resolve.{
  close, resolve_stale_entry_lock_issues_lem, is_eligible_same, any_open-close, count_open-close,
  IsBelow-close,
}

-- Every lock that a run has seen is open.
abbrev pub SeenAreOpen : Core → Type 0
SeenAreOpen c = (k : Key) → has_key k c.active ≡ true → any_open k c.issues ≡ true

abbrev pub InRun : Core → Type 0
InRun c = IsBelow c.next_id c.issues × SeenAreOpen c

pub InRun-issue_once :
    (n : ℕ) (k : Key) (severity : Severity) (c : Core)
    → InRun c
    → InRun (issue_once n k severity c).1
InRun-issue_once n k severity c (b, seen) = (
  IsBelow-issue_once n k severity c b,
  λ j h.
      rw (any_open-issue_once n j k severity c)
        (ground (arith, seen j, sym (has_key-issue_once n j k severity c) ∙ h)),
)

IsSound-start_run : {F : Type 0} (s : Recon F) → IsSound s.core → IsSound (start_run s).core
unfolding IsSound start_run audit
IsSound-start_run s (b, one) =
    let n = s.core.next_id in (IsBelow-later n (suc n) s.core.issues (omega arith) b, one)

pub InRun-start_run : {F : Type 0} (s : Recon F) → IsSound s.core → InRun (start_run s).core
unfolding IsSound start_run audit has_key
InRun-start_run s (b, one) =
    let n = s.core.next_id in
    (IsBelow-later n (suc n) s.core.issues (omega arith) b, λ k h. ground (arith, h))

IsSound-resolve_stale :
    {F : Type 0} (v : Service) (s : Recon F)
    → IsSound s.core
    → IsSound (resolve_stale_entry_lock_issues v s).core
unfolding IsSound
IsSound-resolve_stale v s (b, one) =
    let e = is_eligible v s.summary in
    rw (resolve_stale_entry_lock_issues_lem v s s.core.next_id b) (
      IsBelow-close s.core.active e s.core.next_id s.core.issues b,
      λ k. omega (arith, one k, count_open-close s.core.active e k s.core.issues),
    )

IsSound-close_run :
    {F : Type 0} (v : Service) (raised : Bool) (s : Recon F)
    → IsSound s.core
    → IsSound (close_run v raised s).core
unfolding close_run end_run audit
IsSound-close_run v true s h = h
IsSound-close_run v false s h = IsSound-resolve_stale v s h

-- The pairs that are eligible do not change while issues are resolved.
eligible_kept :
    {F : Type 0} (v : Service) (k : Key) (b : Bool) (rows : List Issue) (r : List ℕ × Recon F)
    → is_eligible v r.1.summary k ≡ b
    → is_eligible v (resolve_rows rows r).1.summary k ≡ b
unfolding resolve_rows resolve_row is_eligible count audit
eligible_kept v k b [] r h = h
eligible_kept v k b (i ∷ rows) (u, s) h =
    eligible_kept v k b rows (resolve_row i (u, s))
      (if_kept (λ (r : List ℕ × Recon _). is_eligible v r.1.summary k ≡ b) _ _ _ h h)

eligible-close_run :
    {F : Type 0} (v : Service) (s : Recon F) (k : Key)
    → is_eligible v (close_run v false s).summary k ≡ is_eligible v s.summary k
unfolding close_run end_run audit resolve_stale_entry_lock_issues is_eligible count
eligible-close_run v s k =
    eligible_kept v k (is_eligible v s.summary k) (eligible_issues v s.summary s.core.issues)
      ([], s) refl

core-close_run :
    {F : Type 0} (v : Service) (s : Recon F)
    → IsBelow s.core.next_id s.core.issues
    → (close_run v false s).core
      ≡ record s.core { issues = map (close s.core.active (is_eligible v s.summary)) s.core.issues }
unfolding close_run end_run audit
core-close_run v s b = resolve_stale_entry_lock_issues_lem v s s.core.next_id b

seen-close_run :
    {F : Type 0} (v : Service) (raised : Bool) (s : Recon F) (k : Key)
    → InRun s.core
    → (close_run v raised s).summary.status ≡ RunStatus.success
    → is_eligible v (close_run v raised s).summary k ≡ true
    → any_open k (close_run v raised s).core.issues ≡ has_key k (close_run v raised s).core.active
unfolding close_run end_run audit
seen-close_run v true s k h succeeded eligible = ground (arith, succeeded)
seen-close_run v false s k (b, seen) succeeded eligible =
    let e = is_eligible v s.summary in
    let is_eligible_k : e k ≡ true = sym (eligible-close_run v s k) ∙ eligible in
    let closed = any_open-close s.core.active e (is_eligible_same v s.summary) k s.core.issues in
    rw (core-close_run v s b) (ground (arith, closed, seen k, is_eligible_k))

IsSound-draw : (c : Core) → IsSound c → IsSound (record c { next_id = suc c.next_id })
unfolding IsSound
IsSound-draw c (b, one) = (IsBelow-later c.next_id _ c.issues (omega arith) b, one)

pub InRun-draw : (c : Core) → InRun c → InRun (record c { next_id = suc c.next_id })
InRun-draw c (b, seen) = (IsBelow-later c.next_id _ c.issues (omega arith) b, seen)

IsBelow-resolve :
    (b n : ℕ) (is_ : List Issue) → IsBelow b is_ → IsBelow b (resolve_reconciliation_issue n is_).1
unfolding IsBelow resolve_reconciliation_issue
IsBelow-resolve b n [] h = h
IsBelow-resolve b n (i ∷ is_) (h, hs) =
    let rest = resolve_reconciliation_issue n is_ in
    if_kept (λ (r : Bool × List Issue). IsBelow b r.1) _
      (true, record i { is_open = false } ∷ rest.1) (rest.0, i ∷ rest.1)
      (h, IsBelow-resolve i.issue_id n is_ hs) (h, IsBelow-resolve i.issue_id n is_ hs)

count_open-resolve :
    (k : Key) (n : ℕ) (is_ : List Issue)
    → count_open k (resolve_reconciliation_issue n is_).1 ≤ count_open k is_
unfolding count_open resolve_reconciliation_issue
count_open-resolve k n [] = omega arith
count_open-resolve k n (i ∷ is_) = ground (arith, count_open-resolve k n is_)

IsSound-resolve :
    (n : ℕ) (c : Core)
    → IsSound c
    → IsSound (record c { issues = (resolve_reconciliation_issue n c.issues).1 })
unfolding IsSound
IsSound-resolve n c (b, one) = (
  IsBelow-resolve c.next_id n c.issues b,
  λ k. omega (arith, one k, count_open-resolve k n c.issues),
)

module _ {F : Type 0} where
  IsSound-resolve_row :
      (i : Issue) (r : List ℕ × Recon F) → IsSound r.1.core → IsSound (resolve_row i r).1.core
  unfolding resolve_row count audit
  IsSound-resolve_row i (u, s) h =
      if_kept (λ (r : List ℕ × Recon F). IsSound r.1.core) _ _ _ h
        (IsSound-resolve i.issue_id s.core h)

  IsSound-update_issue :
      (i : Issue) (s : Recon F) → IsSound s.core → IsSound (update_issue i s).core
  unfolding update_issue count
  IsSound-update_issue i s h =
      if_kept (λ (s : Recon F). IsSound s.core) _ _ s (IsSound-resolve i.issue_id s.core h) h

  IsSound-resolve_until :
      (n : ℕ) (updates : Bool) (rows : List Issue) (r : List ℕ × Recon F)
      → IsSound r.1.core
      → IsSound (resolve_until n updates rows r).2.core
  unfolding resolve_until
  IsSound-resolve_until n updates [] r h = h
  IsSound-resolve_until zero updates (i ∷ rows) (u, s) h =
      let stopped =
        if_kept (λ (t : Recon F). IsSound t.core) updates (update_issue i s) s
          (IsSound-update_issue i s h) h in
      if_kept (λ (r : Bool × List ℕ × Recon F). IsSound r.2.core) _ _ _
        (IsSound-resolve_until zero updates rows (u, s) h) stopped
  IsSound-resolve_until (suc n) updates (i ∷ rows) (u, s) h =
      if_kept (λ (r : Bool × List ℕ × Recon F). IsSound r.2.core) _ _ _
        (IsSound-resolve_until (suc n) updates rows (u, s) h)
        (IsSound-resolve_until n updates rows (resolve_row i (u, s))
          (IsSound-resolve_row i (u, s) h))

  IsSound-finish_run :
      (v : Service) (f : Fault) (s : Recon F) → IsSound s.core → IsSound (finish_run v f s).core
  unfolding finish_run end_run audit
  IsSound-finish_run v Fault.no_fault s h = IsSound-close_run v false s h
  IsSound-finish_run v Fault.at_query s h = h
  IsSound-finish_run v (Fault.at_row n updates) s h =
      if_kept (λ (t : Recon F). IsSound t.core) _ _ _
        (IsSound-resolve_until n updates (eligible_issues v s.summary s.core.issues) ([], s) h)
        (IsSound-close_run v false s h)
  IsSound-finish_run v Fault.at_finish s h = IsSound-resolve_stale v s h
  IsSound-finish_run v Fault.at_end_audit s h = IsSound-resolve_stale v s h

  IsSound-close_or_fail :
      (v : Service) (f : Fault) (raised : Bool) (s : Recon F)
      → IsSound s.core
      → IsSound (close_or_fail v f raised s).core
  unfolding close_or_fail end_run audit
  IsSound-close_or_fail v f true s h = h
  IsSound-close_or_fail v f false s h = IsSound-finish_run v f s h

module _ {F : Type 0} ⦃fl : Float F⦄ (v : Service) where
  -- A run keeps the issues sound: their numbers are distinct, and no key has two open issues. This
  -- holds wherever the run fails, be it that the exchange or that the database raises.
  pub IsSound-run :
      (f : Fault) (a : Answers F) (s : Recon F) → IsSound s.core → IsSound (run v f a s).core
  unfolding run
  IsSound-run f a s h =
      IsSound-close_or_fail v f (steps v a (start_run s)).0 (steps v a (start_run s)).1 (
        steps_kept v IsSound IsSound-issue_once IsSound-draw a (start_run s)
          (IsSound-start_run s h))

  -- The open locks of what was checked are those that were noted.
  pub seen-run :
      (a : Answers F) (s : Recon F) (k : Key)
      → IsSound s.core
      → (plain_run v a s).summary.status ≡ RunStatus.success
      → is_eligible v (plain_run v a s).summary k ≡ true
      → any_open k (plain_run v a s).core.issues ≡ has_key k (plain_run v a s).core.active
  unfolding plain_run
  seen-run a s k h =
      seen-close_run v (steps v a (start_run s)).0 (steps v a (start_run s)).1 k
        (steps_kept v InRun InRun-issue_once InRun-draw a (start_run s) (InRun-start_run s h))
