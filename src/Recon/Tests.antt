-- ===== src/Recon/Tests.antt =====
-- The witnesses: a spot service whose exchange has one open order, on decimals.
use botik.Base.{◌+◌, ◌≡◌, refl, true, false, some, [], ◌∷◌, arith, List, ◌++◌, ◌&&◌, not}
use botik.Base.Int.{pos}
use botik.Base.Fixed.{Fixed, fixed_float}
use botik.Recon.Issues.{
  Severity, IssueType, Key, has_key, note_active, issue_of_row, issue_once, find_open,
  insert_reconciliation_issue, resolve_reconciliation_issue,
}
use botik.Recon.Tables.{OrderStatus, upsert, upsert_order}
use botik.Recon.Service.{Num, Answer, Audit, RunStatus, Service, Recon, count, write, audit, report}
use botik.Recon.Wallet.{reconcile_wallet, wallet_lists, wallet_accounts, stale_holdings}
use botik.Recon.Orders.{
  ExchangeOrder, orphan_key, in_legacy, in_orders, orphan_order, store_order, take_order,
  named_order, open_order, open_orders, has_link, has_id, mark_missing, missing_order,
  missing_orders, order_lists, reconcile_open_orders,
}
use botik.Recon.Fills.{
  is_in, reconcile_fills, symbols_fills, symbol_fills, symbols_of, distinct_symbols, first_n,
}
use botik.Recon.Run.{
  Answers, zero_summary, is_eligible, eligible_issues, resolve_row, resolve_rows,
  resolve_stale_entry_lock_issues, union, start_run, end_run, finish_reconciliation_run, close_run,
  positions_if_linear, steps, run, Fault, close_or_fail, finish_run, resolve_until, update_issue,
}
use botik.Recon.Ledger.{IsBelow, IsSound, any_open, count_open}
use botik.Recon.Sound.{IsSound-run}
use botik.Recon.Reports.{Adds, any_report, locks-run}
use botik.Recon.Failing.{reported-run}
use botik.Recon.Locks.{
  open_lock, names, set_of, get_reconciliation_entry_block_reason, names-block_reason,
}
use botik.Recon.Repeat.{run-run}

abbrev service : Service
service = record {
  linear = false;
  is_stable = λ _. false;
  usdt_pair = λ coin. coin + 100;
  managed_symbols = some 1 ∷ [];
  symbols_limit = 1;
  side_text = λ _. [];
}

abbrev start : Recon Fixed
start = record {
  core = record { issues = []; active = []; next_id = 0 };
  tables = record {
    spot_balances = [];
    spot_holdings = [];
    legacy_orders = [];
    orders = [];
    fills = [];
    funding_events = [];
    positions = [];
    protections = [];
    liq_snapshots = [];
  };
  audits = [];
  summary = zero_summary;
  run_id = 0;
  runs = [];
}

abbrev an_order : ExchangeOrder Fixed
an_order = record {
  symbol = some 1;
  order_link_id = some 5;
  order_id = some 6;
  order_status = OrderStatus.open_status;
  price = Num.num (some (pos 1_000_000));
  qty = Num.num (some (pos 10_000));
}

abbrev one_order : Answers Fixed
one_order = record {
  wallet = Answer.answers [];
  open_orders = Answer.answers (an_order ∷ []);
  executions = λ _. Answer.refuses;
  positions = Answer.refuses;
}

start-IsSound : IsSound start.core
unfolding IsSound IsBelow count_open
start-IsSound = (tt, λ k. omega arith)

abbrev first_run : Recon Fixed
first_run = run service Fault.no_fault one_order start

abbrev second_run : Recon Fixed
second_run = run service Fault.no_fault one_order first_run

abbrev order_lock : Key
order_lock = orphan_key service 1

-- The first run sees the order as orphaned, and locks its symbol; the second takes the lock away.
first_run_facts :
    (first_run.summary.status ≡ RunStatus.success)
    × (is_eligible service first_run.summary order_lock ≡ true)
    × (any_open order_lock first_run.core.issues ≡ true)
unfolding run start_run close_run end_run finish_reconciliation_run resolve_stale_entry_lock_issues
    resolve_rows resolve_row eligible_issues is_eligible union steps positions_if_linear
    reconcile_wallet wallet_lists wallet_accounts stale_holdings reconcile_open_orders order_lists
    open_orders open_order named_order take_order in_legacy in_orders orphan_order store_order
    upsert_order upsert missing_orders missing_order mark_missing has_link has_id reconcile_fills
    symbols_fills symbol_fills symbols_of distinct_symbols first_n is_in report count write audit
    issue_once issue_of_row find_open insert_reconciliation_issue note_active has_key
    resolve_reconciliation_issue any_open close_or_fail finish_run
first_run_facts = (refl, refl, refl)

second_run_facts :
    (second_run.summary.status ≡ RunStatus.success)
    × (is_eligible service second_run.summary order_lock ≡ true)
unfolding run start_run close_run end_run finish_reconciliation_run resolve_stale_entry_lock_issues
    resolve_rows resolve_row eligible_issues is_eligible union steps positions_if_linear
    reconcile_wallet wallet_lists wallet_accounts stale_holdings reconcile_open_orders order_lists
    open_orders open_order named_order take_order in_legacy in_orders orphan_order store_order
    upsert_order upsert missing_orders missing_order mark_missing has_link has_id reconcile_fills
    symbols_fills symbol_fills symbols_of distinct_symbols first_n is_in report count write audit
    issue_once issue_of_row find_open insert_reconciliation_issue note_active has_key
    resolve_reconciliation_issue any_open close_or_fail finish_run
second_run_facts = (refl, refl)

-- The lock is open before the run, which sees the order again.
abbrev locked_start : Recon Fixed
locked_start = record start {
  core = record {
    issues =
        record {
          issue_id = 0;
          run_id = 0;
          key = order_lock;
          severity = Severity.warning;
          is_open = true;
        }
        ∷ [];
    active = [];
    next_id = 1;
  };
}

locked_start-IsSound : IsSound locked_start.core
unfolding IsSound IsBelow count_open
locked_start-IsSound = ((omega arith, tt), λ k. ground arith)

abbrev locked_run : Recon Fixed
locked_run = run service Fault.no_fault one_order locked_start

locked_run_facts :
    (locked_run.summary.status ≡ RunStatus.success)
    × (is_eligible service locked_run.summary order_lock ≡ true)
unfolding run start_run close_run end_run finish_reconciliation_run resolve_stale_entry_lock_issues
    resolve_rows resolve_row eligible_issues is_eligible union steps positions_if_linear
    reconcile_wallet wallet_lists wallet_accounts stale_holdings reconcile_open_orders order_lists
    open_orders open_order named_order take_order in_legacy in_orders orphan_order store_order
    upsert_order upsert missing_orders missing_order mark_missing has_link has_id reconcile_fills
    symbols_fills symbol_fills symbols_of distinct_symbols first_n is_in report count write audit
    issue_once issue_of_row find_open insert_reconciliation_issue note_active has_key
    resolve_reconciliation_issue any_open close_or_fail finish_run
locked_run_facts = (refl, refl)

-- The database raises at the audit of the first row, which is resolved already.
abbrev torn_run : Recon Fixed
torn_run = run service (Fault.at_row 0 true) one_order first_run

torn_run_fact :
    (torn_run.summary.status ≡ RunStatus.failed_run)
    × (any_open order_lock torn_run.core.issues ≡ false)
unfolding run start_run close_run end_run finish_reconciliation_run resolve_stale_entry_lock_issues
    resolve_rows resolve_row eligible_issues is_eligible union steps positions_if_linear
    reconcile_wallet wallet_lists wallet_accounts stale_holdings reconcile_open_orders order_lists
    open_orders open_order named_order take_order in_legacy in_orders orphan_order store_order
    upsert_order upsert missing_orders missing_order mark_missing has_link has_id reconcile_fills
    symbols_fills symbol_fills symbols_of distinct_symbols first_n is_in report count write audit
    issue_once issue_of_row find_open insert_reconciliation_issue note_active has_key
    resolve_reconciliation_issue any_open close_or_fail finish_run resolve_until update_issue
torn_run_fact = (refl, refl)

first_run-IsSound : IsSound first_run.core
first_run-IsSound = IsSound-run service Fault.no_fault one_order start start-IsSound

IsSound-run_example : IsSound torn_run.core
IsSound-run_example =
    IsSound-run service (Fault.at_row 0 true) one_order first_run first_run-IsSound

locks-run_example :
    Adds order_lock
      (any_open order_lock locked_run.core.issues)
      locked_start.audits
      locked_run.audits
locks-run_example =
    locks-run service Fault.no_fault one_order locked_start order_lock locked_start-IsSound
      locked_run_facts.0 locked_run_facts.1 refl

reported-run_example :
    (new : List Audit) × ((run service Fault.at_finish one_order locked_start).audits
      ≡ new ++ locked_start.audits)
    × ((any_report order_lock new
          && not (
              any_open order_lock (run service Fault.at_finish one_order locked_start).core.issues))
        ≡ false)
reported-run_example =
    reported-run service Fault.at_finish one_order locked_start order_lock locked_start-IsSound refl

run-run_example : any_open order_lock second_run.core.issues ≡ false
run-run_example =
    run-run service (an_order ∷ []) Fault.no_fault Fault.no_fault one_order one_order start 1
      start-IsSound refl refl (refl, tt) first_run_facts.0 second_run_facts.0 second_run_facts.1

names-block_reason_example :
    names IssueType.orphaned_exchange_order
      (set_of (get_reconciliation_entry_block_reason (some 1) first_run.core.issues))
    ≡ open_lock IssueType.orphaned_exchange_order 1 first_run.core.issues
names-block_reason_example =
    names-block_reason IssueType.orphaned_exchange_order 1 first_run.core.issues refl
