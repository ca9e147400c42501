-- ===== src/Recon/Issues.antt =====
-- The table `reconciliation_issues`, and how the service reports and resolves its rows:
-- `_issue_once` of src/botik/execution/reconciliation_service.py with the two functions of
-- src/botik/storage/core_store.py that it calls.
-- A symbol is the key of its normal form (stripped, upper case), `none` the empty text. `uuid4`
-- never gives a number twice, so numbers are drawn in turn.
use botik.Base.{
  ℕ, suc, ◌==◌, Bool, true, false, ◌&&◌, ◌||◌, Option, none, some, List, [], ◌∷◌, if◌then◌else◌,
}

pub data IssueType : Type 0 where
  wallet_balance_api_error spot_asset_recovered_from_exchange local_holding_missing_on_exchange
        orphaned_exchange_order local_order_missing_on_exchange orphaned_exchange_position
        local_position_missing_on_exchange unprotected_position :
      IssueType

pub data Domain : Type 0 where
  shared spot futures : Domain

pub data Severity : Type 0 where
  warning error critical : Severity

-- Texts are compared by their numbers.
abbrev pub type_code : IssueType → ℕ
type_code wallet_balance_api_error = 0
type_code spot_asset_recovered_from_exchange = 1
type_code local_holding_missing_on_exchange = 2
type_code orphaned_exchange_order = 3
type_code local_order_missing_on_exchange = 4
type_code orphaned_exchange_position = 5
type_code local_position_missing_on_exchange = 6
type_code unprotected_position = 7

abbrev pub domain_code : Domain → ℕ
domain_code shared = 0
domain_code spot = 1
domain_code futures = 2

abbrev pub symbol_code : Option ℕ → ℕ
symbol_code none = 0
symbol_code (some k) = suc k

-- `ENTRY_LOCK_ISSUE_TYPES`
abbrev pub is_lock : IssueType → Bool
is_lock orphaned_exchange_position = true
is_lock orphaned_exchange_order = true
is_lock local_position_missing_on_exchange = true
is_lock local_order_missing_on_exchange = true
is_lock wallet_balance_api_error = false
is_lock spot_asset_recovered_from_exchange = false
is_lock local_holding_missing_on_exchange = false
is_lock unprotected_position = false

-- What a report and a row are compared by.
pub record Key : Type 0 where
  pub issue_type : IssueType
  pub domain : Domain
  pub symbol : Option ℕ

abbrev pub same_key : Key → Key → Bool
same_key a b =
    (type_code a.issue_type == type_code b.issue_type)
    && ((domain_code a.domain == domain_code b.domain)
        && (symbol_code a.symbol == symbol_code b.symbol))

-- `is_open`: the status is open or active.
pub record Issue : Type 0 where
  pub issue_id : ℕ
  pub run_id : ℕ
  pub key : Key
  pub severity : Severity
  pub is_open : Bool

-- The issues, newest first, the keys of `_active_lock_issue_keys`, and the next number.
pub record Core : Type 0 where
  pub issues : List Issue
  pub active : List Key
  pub next_id : ℕ

-- The newest open row with the key.
unfoldable pub find_open : Key → List Issue → Option ℕ
find_open k [] = none
find_open k (i ∷ is_) = if i.is_open && same_key i.key k then some i.issue_id else find_open k is_

unfoldable pub insert_reconciliation_issue : ℕ → Key → Severity → Core → ℕ × Core
insert_reconciliation_issue run_id k severity c = (
  c.next_id,
  record c {
    issues =
        record {
          issue_id = c.next_id;
          run_id = run_id;
          key = k;
          severity = severity;
          is_open = true;
        }
        ∷ c.issues;
    next_id = suc c.next_id;
  },
)

unfoldable pub has_key : Key → List Key → Bool
has_key k [] = false
has_key k (j ∷ ks) = same_key j k || has_key k ks

abbrev pub has_symbol : Option ℕ → Bool
has_symbol none = false
has_symbol (some k) = true

-- An entry lock on a symbol is noted as seen in this run.
unfoldable pub note_active : Key → Core → Core
note_active k c =
    if is_lock k.issue_type && has_symbol k.symbol
    then record c { active = if has_key k c.active then c.active else k ∷ c.active }
    else c

-- `_issue_once`: the number of the open row, made if there is none.
unfoldable pub issue_of_row : Option ℕ → ℕ → Key → Severity → Core → ℕ × Core
issue_of_row (some n) run_id k severity c = (n, note_active k c)
issue_of_row none run_id k severity c =
    let made = insert_reconciliation_issue run_id k severity c in (made.0, note_active k made.1)

unfoldable pub issue_once : ℕ → Key → Severity → Core → ℕ × Core
issue_once run_id k severity c = issue_of_row (find_open k c.issues) run_id k severity c

-- `resolve_reconciliation_issue`, with whether a row was changed.
unfoldable pub resolve_reconciliation_issue : ℕ → List Issue → Bool × List Issue
resolve_reconciliation_issue n [] = (false, [])
resolve_reconciliation_issue n (i ∷ is_) =
    let rest = resolve_reconciliation_issue n is_ in
    if (i.issue_id == n) && i.is_open
    then (true, record i { is_open = false } ∷ rest.1)
    else (rest.0, i ∷ rest.1)
