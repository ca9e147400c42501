-- ===== src/Recon/Reports.antt =====
-- What a run of src/botik/execution/reconciliation_service.py reports, as `events_audit` shows it,
-- and the locks that it leaves.
use botik.Base.{
  if_kept, ℕ, zero, suc, ◌==◌, ◌≡◌, refl, Bool, true, false, ◌&&◌, ◌||◌, Option, none, some, List,
  [], ◌∷◌, ◌++◌, leb, arith,
}
use botik.Base.Float.{Float}
use botik.Recon.Issues.{
  Key, Issue, IssueType, Severity, Core, type_code, domain_code, symbol_code, is_lock, has_symbol,
  same_key, has_key, issue_once,
}
use botik.Recon.Service.{AuditType, Audit, RunStatus, Service, Recon, issue_audit, count, audit}
use botik.Recon.Kept.{audited_type, IsAudited}
use botik.Recon.Kept.Steps.{steps_kept_audits}
use botik.Recon.Ledger.{IsSound, any_open, has_key-issue_once, is_lock_key}
use botik.Recon.Run.{
  Fault, Answers, is_eligible, eligible_issues, resolve_row, resolve_rows, update_issue,
  resolve_until, resolve_stale_entry_lock_issues, start_run, end_run, fail_run, close_run,
  finish_run, close_or_fail, steps, run,
}
use botik.Recon.Faults.{plain_run, run_success}
use botik.Recon.Sound.{seen-run}
use botik.Recon.Repeat.{close_run_rest}

abbrev is_of_type : Option IssueType → IssueType → Bool
is_of_type none t = false
is_of_type (some i) t = type_code i == type_code t

-- The row is on a report of an issue with the key.
unfoldable pub is_report : Key → Audit → Bool
is_report k a =
    is_of_type (audited_type a.event_type a.issue_type) k.issue_type
    && ((domain_code a.domain == domain_code k.domain)
        && (symbol_code a.symbol == symbol_code k.symbol))

unfoldable pub any_report : Key → List Audit → Bool
any_report k [] = false
any_report k (a ∷ as_) = is_report k a || any_report k as_

-- The rows of `base` are followed by rows of which some one, or none, reports the key.
abbrev pub Adds : Key → Bool → List Audit → List Audit → Type 0
Adds k b base as_ = (new : List Audit) × (as_ ≡ new ++ base) × (any_report k new ≡ b)

is_report-issue_audit :
    (t : AuditType) (j k : Key) (ref : ℕ)
    → IsAudited t k.issue_type
    → is_report j (issue_audit t k ref) ≡ same_key k j
unfolding is_report
is_report-issue_audit t j k ref e = rw e refl

Adds-other :
    (k : Key) (b : Bool) (base as_ : List Audit) (a : Audit)
    → is_report k a ≡ false
    → Adds k b base as_
    → Adds k b base (a ∷ as_)
unfolding any_report
Adds-other k b base as_ a other (new, e, h) = (a ∷ new, rw e refl, rw (other, h) refl)

is_lock_lem : (t : IssueType) → is_lock t ≡ leb 3 (type_code t) && leb (type_code t) 6
is_lock_lem IssueType.wallet_balance_api_error = ground arith
is_lock_lem IssueType.spot_asset_recovered_from_exchange = ground arith
is_lock_lem IssueType.local_holding_missing_on_exchange = ground arith
is_lock_lem IssueType.orphaned_exchange_order = ground arith
is_lock_lem IssueType.local_order_missing_on_exchange = ground arith
is_lock_lem IssueType.orphaned_exchange_position = ground arith
is_lock_lem IssueType.local_position_missing_on_exchange = ground arith
is_lock_lem IssueType.unprotected_position = ground arith

has_symbol_lem : (o : Option ℕ) → has_symbol o ≡ leb 1 (symbol_code o)
has_symbol_lem none = ground arith
has_symbol_lem (some n) = ground arith

is_lock_key_same : (j k : Key) → same_key k j ≡ true → is_lock_key j ≡ true → is_lock_key k ≡ true
is_lock_key_same j k h lock = ground (
  arith,
  is_lock_lem j.issue_type,
  is_lock_lem k.issue_type,
  has_symbol_lem j.symbol,
  has_symbol_lem k.symbol,
)

-- In a run that began with the rows of `base`, a lock was seen if and only if it was reported.
abbrev pub IsTold : Key → List Audit → Core → List Audit → Type 0
IsTold k base c as_ = Adds k (has_key k c.active) base as_

IsTold-issue_once :
    (j : Key) (base : List Audit)
    → is_lock_key j ≡ true
    → (t : AuditType) (n : ℕ) (k : Key) (severity : Severity) (c : Core) (as_ : List Audit)
    → IsAudited t k.issue_type
    → IsTold j base c as_
    → IsTold j base
        (issue_once n k severity c).1
        (issue_audit t k (issue_once n k severity c).0 ∷ as_)
unfolding any_report
IsTold-issue_once j base lock t n k severity c as_ audited (new, e, h) =
    let a = issue_audit t k (issue_once n k severity c).0 in
    (
      a ∷ new,
      rw e refl,
      rw (has_key-issue_once n j k severity c, is_report-issue_audit t j k a.ref_id audited, h)
          (ground (arith, is_lock_key_same j k)),
    )

IsTold-start_run :
    {F : Type 0} (k : Key) (s : Recon F) → IsTold k s.audits (start_run s).core (start_run s).audits
unfolding start_run audit has_key any_report is_report
IsTold-start_run k s = (_ ∷ [], refl, refl)

resolve_rows_told :
    {F : Type 0} (k : Key) (b : Bool) (base : List Audit) (rows : List Issue) (r : List ℕ × Recon F)
    → Adds k b base r.1.audits
    → Adds k b base (resolve_rows rows r).1.audits
unfolding resolve_rows resolve_row count audit is_report
resolve_rows_told k b base [] r h = h
resolve_rows_told {F} k b base (i ∷ rows) (u, s) h =
    resolve_rows_told k b base rows (resolve_row i (u, s)) (
      if_kept (λ (r : List ℕ × Recon F). Adds k b base r.1.audits) _ _ _ h
        (Adds-other k b base s.audits _ refl h))

close_run_told :
    {F : Type 0} (v : Service) (raised : Bool) (k : Key) (b : Bool) (base : List Audit)
    (s : Recon F)
    → Adds k b base s.audits
    → Adds k b base (close_run v raised s).audits
unfolding close_run end_run audit resolve_stale_entry_lock_issues count is_report
close_run_told v true k b base s h = Adds-other k b base _ _ refl h
close_run_told v false k b base s h =
    Adds-other k b base _ _ refl
      (resolve_rows_told k b base (eligible_issues v s.summary s.core.issues) ([], s) h)

until_told :
    {F : Type 0} (k : Key) (b : Bool) (base : List Audit) (n : ℕ) (updates : Bool)
    (rows : List Issue) (r : List ℕ × Recon F)
    → Adds k b base r.1.audits
    → Adds k b base (resolve_until n updates rows r).2.audits
unfolding resolve_until resolve_row update_issue count audit is_report
until_told k b base n updates [] r h = h
until_told {F} k b base zero updates (i ∷ rows) (u, s) h =
    let stopped =
      if_kept (λ (t : Recon F). Adds k b base t.audits) updates (update_issue i s) s
        (if_kept (λ (t : Recon F). Adds k b base t.audits) _ _ s h h) h in
    if_kept (λ (r : Bool × List ℕ × Recon F). Adds k b base r.2.audits) _ _ _
      (until_told k b base zero updates rows (u, s) h) stopped
until_told {F} k b base (suc n) updates (i ∷ rows) (u, s) h =
    let next =
      if_kept (λ (r : List ℕ × Recon F). Adds k b base r.1.audits) _ _ _ h
        (Adds-other k b base s.audits _ refl h) in
    if_kept (λ (r : Bool × List ℕ × Recon F). Adds k b base r.2.audits) _ _ _
      (until_told k b base (suc n) updates rows (u, s) h)
      (until_told k b base n updates rows (resolve_row i (u, s)) next)

stale_told :
    {F : Type 0} (v : Service) (k : Key) (b : Bool) (base : List Audit) (s : Recon F)
    → Adds k b base s.audits
    → Adds k b base (resolve_stale_entry_lock_issues v s).audits
unfolding resolve_stale_entry_lock_issues count
stale_told v k b base s =
    resolve_rows_told k b base (eligible_issues v s.summary s.core.issues) ([], s)

fail_told :
    {F : Type 0} (k : Key) (b : Bool) (base : List Audit) (s : Recon F)
    → Adds k b base s.audits
    → Adds k b base (fail_run s).audits
unfolding end_run audit is_report
fail_told k b base s h = Adds-other k b base s.audits _ refl h

finish_told :
    {F : Type 0} (v : Service) (f : Fault) (k : Key) (b : Bool) (base : List Audit) (s : Recon F)
    → Adds k b base s.audits
    → Adds k b base (finish_run v f s).audits
unfolding finish_run
finish_told v Fault.no_fault k b base s h = close_run_told v false k b base s h
finish_told v Fault.at_query k b base s h = fail_told k b base s h
finish_told {F} v (Fault.at_row n updates) k b base s h =
    let rows = eligible_issues v s.summary s.core.issues in
    if_kept (λ (t : Recon F). Adds k b base t.audits) _ _ _
      (fail_told k b base (resolve_until n updates rows ([], s)).2
        (until_told k b base n updates rows ([], s) h))
      (close_run_told v false k b base s h)
finish_told v Fault.at_finish k b base s h = fail_told k b base _ (stale_told v k b base s h)
finish_told v Fault.at_end_audit k b base s h = fail_told k b base _ (stale_told v k b base s h)

close_or_fail_told :
    {F : Type 0} (v : Service) (f : Fault) (raised : Bool) (k : Key) (b : Bool) (base : List Audit)
    (s : Recon F)
    → Adds k b base s.audits
    → Adds k b base (close_or_fail v f raised s).audits
unfolding close_or_fail
close_or_fail_told v f true k b base s h = fail_told k b base s h
close_or_fail_told v f false k b base s h = finish_told v f k b base s h

is_eligible-is_lock :
    {F : Type 0} (v : Service) (s : Recon F) (k : Key)
    → is_eligible v s.summary k ≡ true
    → is_lock k.issue_type ≡ true
unfolding is_eligible
is_eligible-is_lock v s k h = ground (arith, is_lock_lem k.issue_type)

module _ {F : Type 0} ⦃fl : Float F⦄ (v : Service) where
  steps-IsTold :
      (a : Answers F) (s : Recon F) (k : Key)
      → is_lock_key k ≡ true
      → IsTold k s.audits (steps v a (start_run s)).1.core (steps v a (start_run s)).1.audits
  steps-IsTold a s k lock =
      steps_kept_audits v (IsTold k s.audits) (IsTold-issue_once k s.audits lock) (λ _ _ h. h) a
        (start_run s) (IsTold-start_run k s)

  -- What a run reports is what its steps noted, however it ends.
  pub reports-run :
      (f : Fault) (a : Answers F) (s : Recon F) (k : Key)
      → is_lock_key k ≡ true
      → Adds k (has_key k (steps v a (start_run s)).1.core.active) s.audits (run v f a s).audits
  unfolding run
  reports-run f a s k lock =
      let r = steps v a (start_run s) in
      close_or_fail_told v f r.0 k (has_key k r.1.core.active) s.audits r.1
        (steps-IsTold a s k lock)

  told-run :
      (a : Answers F) (s : Recon F) (k : Key)
      → is_lock_key k ≡ true
      → Adds k (has_key k (plain_run v a s).core.active) s.audits (plain_run v a s).audits
  unfolding plain_run
  told-run a s k lock =
      let r = steps v a (start_run s) in
      rw ((close_run_rest v r.0 r.1).1)
        (close_run_told v r.0 k (has_key k r.1.core.active) s.audits r.1 (steps-IsTold a s k lock))

  -- After a successful run from sound issues, a key of a pair that the run checked, with a symbol,
  -- has an open issue if and only if an audit row that the run added reports an issue with the key:
  -- one that the run reported is open, also if it was open before, and any other one is resolved.
  pub locks-run :
      (f : Fault) (a : Answers F) (s : Recon F) (k : Key)
      → IsSound s.core
      → (run v f a s).summary.status ≡ RunStatus.success
      → is_eligible v (run v f a s).summary k ≡ true
      → has_symbol k.symbol ≡ true
      → Adds k (any_open k (run v f a s).core.issues) s.audits (run v f a s).audits
  locks-run f a s k sound succeeded eligible symbol =
      let same = run_success v f a s succeeded in
      let lock : is_lock_key k ≡ true =
        rw (is_eligible-is_lock v (run v f a s) k eligible, symbol) refl in
      let plainly : Adds k (any_open k (plain_run v a s).core.issues) s.audits
          (plain_run v a s).audits =
        rw (seen-run v a s k sound (rw⁻¹ same succeeded) (rw⁻¹ same eligible))
          (told-run a s k lock) in
      rw same plainly
