-- ===== src/Recon/Service.antt =====
-- The state of a run of `ExchangeReconciliationService`, what the exchange answers it, and how its
-- steps follow one another.
use botik.Base.{ℕ, suc, Bool, true, Option, none, some, List, ◌∷◌, if◌then◌else◌}
use botik.Base.Float.{Float, nought}
use botik.Base.Text.{Text}
use botik.Recon.Issues.{Key, IssueType, Severity, Domain, Core, issue_once}
use botik.Recon.Tables.{Tables}

-- A number in an answer of the exchange, which writes numbers as texts: none (a null or an empty
-- text), a text that is no number, or one that is.
pub data Num (F : Type 0) : Type 0 where
  no_num wrong_num : Num F
  num : F → Num F

-- What a call of the exchange client comes to: it raises, it answers with an error code, or with a
-- list.
pub data Answer (A : Type 0) : Type 0 where
  raises : Answer A
  refuses : Answer A
  answers : A → Answer A

pub data AuditType : Type 0 where
  reconciliation_start reconciliation_end reconciliation_failed reconciliation_issue
        imported_recovered_holding imported_orphaned_order imported_orphaned_position
        reconciliation_repair_applied protection_failure reconciliation_issue_resolved :
      AuditType

-- A row of `events_audit`.
pub record Audit : Type 0 where
  pub event_type : AuditType
  pub domain : Domain
  pub symbol : Option ℕ
  -- `issue_type` of the payload, if it has one
  pub issue_type : Option IssueType
  pub ref_id : ℕ

-- The payloads that name the type of the issue.
abbrev pub payload_type : AuditType → IssueType → Option IssueType
payload_type AuditType.reconciliation_start i = none
payload_type AuditType.reconciliation_end i = none
payload_type AuditType.reconciliation_failed i = none
payload_type AuditType.reconciliation_issue i = some i
payload_type AuditType.imported_recovered_holding i = none
payload_type AuditType.imported_orphaned_order i = none
payload_type AuditType.imported_orphaned_position i = none
payload_type AuditType.reconciliation_repair_applied i = some i
payload_type AuditType.protection_failure i = none
payload_type AuditType.reconciliation_issue_resolved i = some i

-- The row on an issue with its number.
abbrev pub issue_audit : AuditType → Key → ℕ → Audit
issue_audit t k ref = record {
  event_type = t;
  domain = k.domain;
  symbol = k.symbol;
  issue_type = payload_type t k.issue_type;
  ref_id = ref;
}

pub data RunStatus : Type 0 where
  running success failed_run : RunStatus

pub record Summary : Type 0 where
  pub status : RunStatus
  pub spot_balances_seen : ℕ
  pub spot_holdings_recovered : ℕ
  pub orders_seen : ℕ
  pub orders_orphaned : ℕ
  pub futures_positions_seen : ℕ
  pub futures_positions_orphaned : ℕ
  pub fills_seen : ℕ
  pub funding_events_seen : ℕ
  pub liq_risk_snapshots : ℕ
  pub issues_created : ℕ
  pub issues_resolved : ℕ
  pub locks_released : ℕ
  pub unlocked_symbols : List ℕ
  pub open_orders_checked : Bool
  pub futures_positions_checked : Bool

-- The market that a service is for, the names that it knows, and the symbols that it manages, with
-- `none` for an empty one. `symbols_limit` is at least 1.
pub record Service : Type 0 where
  -- the category is `linear`
  pub linear : Bool
  -- the dollar coins, which are no holdings
  pub is_stable : ℕ → Bool
  -- the symbol of a coin against USDT
  pub usdt_pair : ℕ → ℕ
  pub managed_symbols : List (Option ℕ)
  pub symbols_limit : ℕ
  -- the text of a side
  pub side_text : ℕ → Text

pub record Recon (F : Type 0) : Type 0 where
  pub core : Core
  pub tables : Tables F
  pub audits : List Audit
  pub summary : Summary
  pub run_id : ℕ
  pub runs : List (ℕ × RunStatus)

-- A step, with whether it raised. What it wrote before it raised stays written.
abbrev pub Step : Type 0 → Type 0
Step F = Recon F → Bool × Recon F

infixl 5 ◌>>◌
abbrev pub ◌>>◌ : {F : Type 0} → Step F → Step F → Step F
◌>>◌ m k s = let (raised, s') = m s in if raised then (true, s') else k s'

abbrev pub one_issue : Summary → Summary
one_issue m = record m { issues_created = suc m.issues_created }

module _ {F : Type 0} where
  unfoldable pub count : (Summary → Summary) → Recon F → Recon F
  count f s = record s { summary = f s.summary }

  unfoldable pub write : (Tables F → Tables F) → Recon F → Recon F
  write f s = record s { tables = f s.tables }

  unfoldable pub audit : Audit → Recon F → Recon F
  audit a s = record s { audits = a ∷ s.audits }

  -- An issue is reported: `_issue_once`, `summary["issues_created"] += 1`, and the audit. Nothing
  -- that the code does between these reads or writes what the others write.
  unfoldable pub report : Key → Severity → (Summary → Summary) → AuditType → Recon F → Recon F
  report k severity f t s =
      let made = issue_once s.run_id k severity s.core in
      record s {
        core = made.1;
        summary = one_issue (f s.summary);
        audits = issue_audit t k made.0 ∷ s.audits;
      }

module _ {F : Type 0} ⦃fl : Float F⦄ where
  -- `self._f`
  abbrev pub float_of : Num F → F
  float_of Num.no_num = nought
  float_of Num.wrong_num = nought
  float_of (Num.num x) = x

  -- `a or b` on texts.
  abbrev pub first_of : Num F → Num F → Num F
  first_of Num.no_num b = b
  first_of Num.wrong_num b = Num.wrong_num
  first_of (Num.num x) b = Num.num x

  -- `x if x > 0 else None`
  abbrev pub if_positive : F → Option F
  if_positive x = if fl.lt nought x then some x else none
