-- ===== src/Recon/Kept.antt =====
-- What every step of a run of src/botik/execution/reconciliation_service.py keeps: a property of the
-- issues, the orders and the audits that reporting an issue keeps.
mod Wallet
pub mod Fills
mod Positions
pub mod Steps
use botik.Base.{
  if_kept, ◌==◌, not, ℕ, ◌≡◌, Bool, true, false, Option, none, some, List, ◌∷◌, if◌then◌else◌,
}
use botik.Recon.Issues.{Key, Severity, Core, IssueType, type_code, issue_once}
use botik.Recon.Tables.{Tables, OrderRow}
use botik.Recon.Service.{
  AuditType, Audit, payload_type, issue_audit, Summary, Recon, Step, ◌>>◌, report, count, write,
}

-- Every kind of issue but the one of an order that no table has.
abbrev pub is_other : IssueType → Bool
is_other t = not (type_code t == type_code IssueType.orphaned_exchange_order)

-- What an audited report is about, of the payload too.
abbrev pub audited_type : AuditType → Option IssueType → Option IssueType
audited_type AuditType.reconciliation_start p = none
audited_type AuditType.reconciliation_end p = none
audited_type AuditType.reconciliation_failed p = none
audited_type AuditType.reconciliation_issue p = p
audited_type AuditType.imported_recovered_holding p =
    some IssueType.spot_asset_recovered_from_exchange
audited_type AuditType.imported_orphaned_order p = some IssueType.orphaned_exchange_order
audited_type AuditType.imported_orphaned_position p = some IssueType.orphaned_exchange_position
audited_type AuditType.reconciliation_repair_applied p = p
audited_type AuditType.protection_failure p = some IssueType.unprotected_position
audited_type AuditType.reconciliation_issue_resolved p = none

-- A report of an issue is audited as one of its type.
abbrev pub IsAudited : AuditType → IssueType → Type 0
IsAudited t i = audited_type t (payload_type t i) ≡ some i

-- A property of the issues, of the orders of the market and of the audits.
abbrev pub Holds :
    {F : Type 0} → (Core → List (OrderRow F) → List Audit → Type 0) → Recon F → Type 0
Holds P s = P s.core s.tables.orders s.audits

abbrev pub IsKept :
    {F : Type 0} → (Core → List (OrderRow F) → List Audit → Type 0) → (Recon F → Recon F) → Type 0
IsKept {F} P f = (s : Recon F) → Holds P s → Holds P (f s)

-- The same of a loop that returns what it saw.
abbrev pub IsKeptBy :
    {F A : Type 0}
    → (Core → List (OrderRow F) → List Audit → Type 0)
    → (A × Recon F → A × Recon F)
    → Type 0
IsKeptBy {F} {A} P f = (r : A × Recon F) → Holds P r.1 → Holds P (f r).1

module _ {F : Type 0} (P : Core → List (OrderRow F) → List Audit → Type 0) where
  -- Which branch is taken does not matter.
  abbrev pub core_kept :
      (b : Bool) (s t : Recon F) → Holds P s → Holds P t → Holds P (if b then s else t)
  core_kept = if_kept (λ (s : Recon F). Holds P s)

  pub count-IsKept : (f : Summary → Summary) → IsKept {F = F} P (count f)
  unfolding count
  count-IsKept f s p = p

  -- A statement on another table.
  pub write-IsKept :
      (g : Tables F → Tables F) → ((t : Tables F) → (g t).orders ≡ t.orders) → IsKept P (write g)
  unfolding write
  write-IsKept g e s p = rw (e s.tables) p

  pub keeps_orders :
      (t : Tables F) (s : Recon F)
      → t.orders ≡ s.tables.orders
      → Holds P s
      → Holds P (write (λ _. t) s)
  unfolding write
  keeps_orders t s e p = rw e p

  -- A step after one that may have raised.
  pub then_kept :
      (m k : Step F) (s : Recon F)
      → Holds P (m s).1
      → ((t : Recon F) → Holds P t → Holds P (k t).1)
      → Holds P ((m >> k) s).1
  then_kept m k s p q = if_kept (λ (r : Bool × Recon F). Holds P r.1) (m s).0 _ _ p (q (m s).1 p)

-- Reporting an issue, but one of an order that no table has, keeps a property.
abbrev pub KeepsReport : {F : Type 0} → (Core → List (OrderRow F) → List Audit → Type 0) → Type 0
KeepsReport {F} P =
    (t : AuditType) (n : ℕ) (k : Key) (severity : Severity) (c : Core) (rows : List (OrderRow F))
    (as_ : List Audit)
    → is_other k.issue_type ≡ true
    → IsAudited t k.issue_type
    → P c rows as_
    → P (issue_once n k severity c).1 rows (issue_audit t k (issue_once n k severity c).0 ∷ as_)

module _ {F : Type 0} (P : Core → List (OrderRow F) → List Audit → Type 0)
    (keeps_report : KeepsReport P) where
  pub report-IsKept :
      (k : Key) (severity : Severity) (f : Summary → Summary) (t : AuditType)
      → is_other k.issue_type ≡ true
      → IsAudited t k.issue_type
      → IsKept {F = F} P (report k severity f t)
  unfolding report
  report-IsKept k severity f t o e s p =
      keeps_report t s.run_id k severity s.core s.tables.orders s.audits o e p
