-- ===== src/Recon/Run.antt =====
-- `run` and `_resolve_stale_entry_lock_issues` of
-- src/botik/execution/reconciliation_service.py, with the runs of src/botik/storage/core_store.py.
-- A run is one step here: nothing else writes these tables between its waits. In the four steps the
-- calls of the exchange may raise, in the ending any statement of the database; the statements of
-- the steps and of the failure branch do not raise here.
use botik.Base.{
  ℕ, zero, suc, ◌==◌, Bool, true, false, not, ◌&&◌, ◌||◌, Option, none, some, List, [], ◌∷◌, ◌+◌,
  keep, length, if◌then◌else◌,
}
use botik.Base.Float.{Float}
use botik.Recon.Issues.{
  Key, Issue, IssueType, Domain, type_code, domain_code, has_key, resolve_reconciliation_issue,
}
use botik.Recon.Wallet.{Wallets, reconcile_wallet}
use botik.Recon.Orders.{ExchangeOrder, order_domain, reconcile_open_orders}
use botik.Recon.Fills.{Execution, is_in, reconcile_fills}
use botik.Recon.Positions.{ExchangePosition, reconcile_futures_positions}
use botik.Recon.Service.{
  Answer, AuditType, Audit, issue_audit, Summary, RunStatus, Service, Recon, Step, ◌>>◌, count,
  audit,
}

-- What the exchange answers in a run.
pub record Answers (F : Type 0) : Type 0 where
  pub wallet : Answer (Wallets F)
  pub open_orders : Answer (List (ExchangeOrder F))
  pub executions : ℕ → Answer (List (Execution F))
  pub positions : Answer (List (ExchangePosition F))

-- Where the database raises after the four steps of a run: nowhere, at the query of the rows, at a
-- row of the loop, which is updated or not, at the update of the run, or at the last audit.
pub data Fault : Type 0 where
  no_fault at_query at_finish at_end_audit : Fault
  at_row : ℕ → Bool → Fault

abbrev is_pair : IssueType → Domain → Key → Bool
is_pair t d k = (type_code k.issue_type == type_code t) && (domain_code k.domain == domain_code d)

-- Membership in `eligible_pairs`.
unfoldable pub is_eligible : Service → Summary → Key → Bool
is_eligible v m k =
    (m.open_orders_checked
      && (is_pair IssueType.orphaned_exchange_order (order_domain v) k
          || is_pair IssueType.local_order_missing_on_exchange (order_domain v) k))
    || ((v.linear && m.futures_positions_checked)
        && (is_pair IssueType.orphaned_exchange_position Domain.futures k
            || is_pair IssueType.local_position_missing_on_exchange Domain.futures k))

-- The rows of the query.
unfoldable pub eligible_issues : Service → Summary → List Issue → List Issue
eligible_issues v m issues = keep (λ i. i.is_open && is_eligible v m i.key) issues

-- `unlocked_symbols.add(…)`, if there is a symbol.
abbrev add_unlocked : Option ℕ → List ℕ → List ℕ
add_unlocked none xs = xs
add_unlocked (some a) xs = if is_in a xs then xs else a ∷ xs

-- `set(xs) | unlocked`, which is stored sorted.
unfoldable pub union : List ℕ → List ℕ → List ℕ
union [] ys = ys
union (a ∷ xs) ys = let rest = union xs ys in if is_in a rest then rest else a ∷ rest

abbrev pub zero_summary : Summary
zero_summary = record {
  status = RunStatus.success;
  spot_balances_seen = 0;
  spot_holdings_recovered = 0;
  orders_seen = 0;
  orders_orphaned = 0;
  futures_positions_seen = 0;
  futures_positions_orphaned = 0;
  fills_seen = 0;
  funding_events_seen = 0;
  liq_risk_snapshots = 0;
  issues_created = 0;
  issues_resolved = 0;
  locks_released = 0;
  unlocked_symbols = [];
  open_orders_checked = false;
  futures_positions_checked = false;
}

-- The row on a run.
abbrev run_audit : AuditType → ℕ → Audit
run_audit t n = record {
  event_type = t;
  domain = Domain.shared;
  symbol = none;
  issue_type = none;
  ref_id = n;
}

unfoldable pub finish_reconciliation_run :
    ℕ → RunStatus → List (ℕ × RunStatus) → List (ℕ × RunStatus)
finish_reconciliation_run n status [] = []
finish_reconciliation_run n status (r ∷ runs) =
    (if r.0 == n then (r.0, status) else r) ∷ finish_reconciliation_run n status runs

module _ {F : Type 0} where
  -- A row that this run did not see is resolved.
  unfoldable pub resolve_row : Issue → List ℕ × Recon F → List ℕ × Recon F
  resolve_row i (unlocked, s) =
      let r = resolve_reconciliation_issue i.issue_id s.core.issues in
      if has_key i.key s.core.active || not r.0 then (unlocked, s) else (
        add_unlocked i.key.symbol unlocked,
        audit (issue_audit AuditType.reconciliation_issue_resolved i.key i.issue_id) (
            count (λ m. record m { issues_resolved = suc m.issues_resolved })
              (record s { core = record s.core { issues = r.1 } })),
      )

  unfoldable pub resolve_rows : List Issue → List ℕ × Recon F → List ℕ × Recon F
  resolve_rows [] r = r
  resolve_rows (i ∷ rows) r = resolve_rows rows (resolve_row i r)

  -- `_resolve_stale_entry_lock_issues`
  unfoldable pub resolve_stale_entry_lock_issues : Service → Recon F → Recon F
  resolve_stale_entry_lock_issues v s =
      let (unlocked, s') = resolve_rows (eligible_issues v s.summary s.core.issues) ([], s) in
      count
        (λ m. record m {
          locks_released = m.locks_released + length unlocked;
          unlocked_symbols = union m.unlocked_symbols unlocked;
        })
        s'

  -- The start of a run.
  unfoldable pub start_run : Recon F → Recon F
  start_run s =
      let n = s.core.next_id in
      audit (run_audit AuditType.reconciliation_start n) (record s {
        core = record s.core { active = []; next_id = suc n };
        summary = zero_summary;
        run_id = n;
        runs = (n, RunStatus.running) ∷ s.runs;
      })

  unfoldable pub end_run : RunStatus → AuditType → Recon F → Recon F
  end_run status t s = audit (run_audit t s.run_id) (record s {
    summary = record s.summary { status = status };
    runs = finish_reconciliation_run s.run_id status s.runs;
  })

  abbrev pub fail_run : Recon F → Recon F
  fail_run = end_run RunStatus.failed_run AuditType.reconciliation_failed

  -- The end of a run whose database raises nothing.
  unfoldable pub close_run : Service → Bool → Recon F → Recon F
  close_run v true s = fail_run s
  close_run v false s =
      end_run RunStatus.success AuditType.reconciliation_end (resolve_stale_entry_lock_issues v s)

  -- A row whose update is done when what follows it raises: the commit or the audit.
  unfoldable pub update_issue : Issue → Recon F → Recon F
  update_issue i s =
      let r = resolve_reconciliation_issue i.issue_id s.core.issues in
      if r.0
      then count (λ m. record m { issues_resolved = suc m.issues_resolved })
          (record s { core = record s.core { issues = r.1 } })
      else s

  -- The loop, where the database raises at the row that `n` others were updated before, with
  -- whether it came to that. A row that is skipped has no statement.
  unfoldable pub resolve_until : ℕ → Bool → List Issue → List ℕ × Recon F → Bool × List ℕ × Recon F
  resolve_until n updates [] r = (false, r.0, r.1)
  resolve_until zero updates (i ∷ rows) (unlocked, s) =
      let rest = resolve_until zero updates rows (unlocked, s) in
      if has_key i.key s.core.active
      then rest
      else (true, unlocked, if updates then update_issue i s else s)
  resolve_until (suc n) updates (i ∷ rows) (unlocked, s) =
      let skipped = resolve_until (suc n) updates rows (unlocked, s) in
      let done = resolve_until n updates rows (resolve_row i (unlocked, s)) in
      if has_key i.key s.core.active then skipped else done

  -- What is left to do after the steps, with where the database raises.
  unfoldable pub finish_run : Service → Fault → Recon F → Recon F
  finish_run v no_fault s = close_run v false s
  finish_run v at_query s = fail_run s
  finish_run v (at_row n updates) s =
      if (resolve_until n updates (eligible_issues v s.summary s.core.issues) ([], s)).0
      then fail_run (resolve_until n updates (eligible_issues v s.summary s.core.issues) ([], s)).2
      else close_run v false s
  finish_run v at_finish s = fail_run (resolve_stale_entry_lock_issues v s)
  finish_run v at_end_audit s =
      let s' = resolve_stale_entry_lock_issues v s in
      fail_run (record s' { runs = finish_reconciliation_run s'.run_id RunStatus.success s'.runs })

  unfoldable pub close_or_fail : Service → Fault → Bool → Recon F → Recon F
  close_or_fail v f true s = fail_run s
  close_or_fail v f false s = finish_run v f s

module _ {F : Type 0} ⦃fl : Float F⦄ (v : Service) where
  unfoldable pub positions_if_linear : Bool → Answer (List (ExchangePosition F)) → Step F
  positions_if_linear true a s = reconcile_futures_positions v a s
  positions_if_linear false a s = (false, s)

  unfoldable pub steps : Answers F → Step F
  steps a =
      reconcile_wallet v a.wallet
      >> reconcile_open_orders v a.open_orders
      >> reconcile_fills v a.executions
      >> positions_if_linear v.linear a.positions

  -- `run`
  unfoldable pub run : Fault → Answers F → Recon F → Recon F
  run f a s = let (raised, s') = steps a (start_run s) in close_or_fail v f raised s'
