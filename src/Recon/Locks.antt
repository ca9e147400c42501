-- ===== src/Recon/Locks.antt =====
-- The entry locks that the trading loop reads from the issues: `load_reconciliation_symbol_locks` and
-- `get_reconciliation_entry_block_reason` of src/botik/main.py.
use botik.Base.{
  ℕ, suc, ltb, ◌==◌, ◌≡◌, refl, ◌∙◌, Bool, true, false, ◌&&◌, ◌||◌, Option, none, some, List, [],
  ◌∷◌, keep, if◌then◌else◌, Dict, lookup, insert, lookup-insert, arith,
}
use botik.Recon.Issues.{
  Key, Issue, IssueType, Domain, type_code, symbol_code, is_lock, has_symbol, same_key,
}
use botik.Recon.Ledger.{any_open}

-- The place of a lock in the order of the names.
unfoldable pub rank : IssueType → ℕ
rank IssueType.local_order_missing_on_exchange = 0
rank IssueType.local_position_missing_on_exchange = 1
rank IssueType.orphaned_exchange_order = 2
rank IssueType.orphaned_exchange_position = 3
rank IssueType.wallet_balance_api_error = 4
rank IssueType.spot_asset_recovered_from_exchange = 5
rank IssueType.local_holding_missing_on_exchange = 6
rank IssueType.unprotected_position = 7

-- A set of names, kept sorted.
unfoldable pub add_type : IssueType → List IssueType → List IssueType
add_type t [] = t ∷ []
add_type t (u ∷ us) =
    let rest = add_type t us in
    if rank t == rank u then u ∷ us else if ltb (rank t) (rank u) then t ∷ u ∷ us else u ∷ rest

unfoldable pub names : IssueType → List IssueType → Bool
names t [] = false
names t (u ∷ us) = (rank t == rank u) || names t us

abbrev pub set_of : Option (List IssueType) → List IssueType
set_of none = []
set_of (some ts) = ts

-- `by_symbol.setdefault(symbol, set()).add(issue)`
unfoldable pub add_lock : Option ℕ → IssueType → Dict (List IssueType) → Dict (List IssueType)
add_lock none t d = d
add_lock (some symbol) t d = insert symbol (add_type t (set_of (lookup symbol d))) d

unfoldable pub add_locks : List Issue → Dict (List IssueType) → Dict (List IssueType)
add_locks [] d = d
add_locks (i ∷ rows) d = add_locks rows (add_lock i.key.symbol i.key.issue_type d)

-- `load_reconciliation_symbol_locks`: the rows of the query, newest first.
unfoldable pub load_reconciliation_symbol_locks : List Issue → Dict (List IssueType)
load_reconciliation_symbol_locks issues =
    add_locks
      (keep (λ (i : Issue). i.is_open && (is_lock i.key.issue_type && has_symbol i.key.symbol))
        issues)
      []

-- `issues = lock_map.get(symbol) or []`, and the names that are joined.
abbrev reason_of : List IssueType → Option (List IssueType)
reason_of [] = none
reason_of (t ∷ ts) = some (t ∷ ts)

unfoldable pub get_reconciliation_entry_block_reason :
    Option ℕ → List Issue → Option (List IssueType)
get_reconciliation_entry_block_reason none issues = none
get_reconciliation_entry_block_reason (some symbol) issues =
    reason_of (set_of (lookup symbol (load_reconciliation_symbol_locks issues)))

names-add_type :
    (t u : IssueType) (ts : List IssueType)
    → names t (add_type u ts) ≡ (rank t == rank u) || names t ts
unfolding names add_type
names-add_type t u [] = refl
names-add_type t u (x ∷ ts) = ground (arith, names-add_type t u ts)

-- The names in the set of a symbol.
abbrev locks_at : ℕ → IssueType → Dict (List IssueType) → Bool
locks_at symbol t d = names t (set_of (lookup symbol d))

locks_at-add_lock :
    (symbol : ℕ) (t : IssueType) (o : Option ℕ) (u : IssueType) (d : Dict (List IssueType))
    → locks_at symbol t (add_lock o u d)
      ≡ ((symbol_code o == suc symbol) && (rank t == rank u)) || locks_at symbol t d
unfolding add_lock
locks_at-add_lock symbol t none u d = ground arith
locks_at-add_lock symbol t (some a) u d =
    rw (lookup-insert symbol a (add_type u (set_of (lookup a d))) d)
      (ground (arith, names-add_type t u (set_of (lookup a d))))

-- A row with the symbol and the name.
unfoldable names_row : ℕ → IssueType → List Issue → Bool
names_row symbol t [] = false
names_row symbol t (i ∷ rows) =
    ((symbol_code i.key.symbol == suc symbol) && (rank t == rank i.key.issue_type))
    || names_row symbol t rows

locks_at-add_locks :
    (symbol : ℕ) (t : IssueType) (rows : List Issue) (d : Dict (List IssueType))
    → locks_at symbol t (add_locks rows d) ≡ names_row symbol t rows || locks_at symbol t d
unfolding add_locks names_row
locks_at-add_locks symbol t [] d = refl
locks_at-add_locks symbol t (i ∷ rows) d =
    locks_at-add_locks symbol t rows (add_lock i.key.symbol i.key.issue_type d)
    ∙ rw (locks_at-add_lock symbol t i.key.symbol i.key.issue_type d) (ground arith)

same_rank : (t u : IssueType) → (rank t == rank u) ≡ (type_code u == type_code t)
unfolding rank
same_rank t u = elim t [
  | IssueType.wallet_balance_api_error ↦ ground arith
  | IssueType.spot_asset_recovered_from_exchange ↦ ground arith
  | IssueType.local_holding_missing_on_exchange ↦ ground arith
  | IssueType.orphaned_exchange_order ↦ ground arith
  | IssueType.local_order_missing_on_exchange ↦ ground arith
  | IssueType.orphaned_exchange_position ↦ ground arith
  | IssueType.local_position_missing_on_exchange ↦ ground arith
  | IssueType.unprotected_position ↦ ground arith
]

lock_of_same : (t u : IssueType) → is_lock t ≡ true → (rank t == rank u) ≡ true → is_lock u ≡ true
unfolding rank
lock_of_same t u h k = ground arith

-- A lock of a kind on a symbol, in a domain.
abbrev pub lock_key : IssueType → Domain → ℕ → Key
lock_key t d symbol = record { issue_type = t; domain = d; symbol = some symbol }

abbrev pub open_lock : IssueType → ℕ → List Issue → Bool
open_lock t symbol issues =
    any_open (lock_key t Domain.shared symbol) issues
    || (any_open (lock_key t Domain.spot symbol) issues
        || any_open (lock_key t Domain.futures symbol) issues)

abbrev is_lock_row : Issue → Bool
is_lock_row i = i.is_open && (is_lock i.key.issue_type && has_symbol i.key.symbol)

open_lock_row :
    (t : IssueType) (symbol : ℕ) (i : Issue)
    → is_lock t ≡ true
    → is_lock_row i
        && ((symbol_code i.key.symbol == suc symbol) && (rank t == rank i.key.issue_type))
      ≡ (i.is_open && same_key i.key (lock_key t Domain.shared symbol))
        || ((i.is_open && same_key i.key (lock_key t Domain.spot symbol))
            || (i.is_open && same_key i.key (lock_key t Domain.futures symbol)))
open_lock_row t symbol i h =
    ground (arith, same_rank t i.key.issue_type, lock_of_same t i.key.issue_type h)

-- Two disjunctions of three, row by row.
three_or_three :
    (a b c x y z l m r n : Bool)
    → (l && m) ≡ a || (b || c)
    → n ≡ x || (y || z)
    → r ≡ (if l then m || n else n)
    → r ≡ (a || x) || ((b || y) || (c || z))
three_or_three a b c x y z l m r n h k e = ground (arith, h, k, e)

names_row_if :
    (symbol : ℕ) (t : IssueType) (i : Issue) (rows : List Issue) (b : Bool)
    → names_row symbol t (if b then i ∷ rows else rows) ≡ (
        if b
        then ((symbol_code i.key.symbol == suc symbol) && (rank t == rank i.key.issue_type))
          || names_row symbol t rows
        else names_row symbol t rows)
unfolding names_row
names_row_if symbol t i rows true = refl
names_row_if symbol t i rows false = refl

names_row-keep :
    (t : IssueType) (symbol : ℕ) (issues : List Issue)
    → is_lock t ≡ true
    → names_row symbol t (keep is_lock_row issues) ≡ open_lock t symbol issues
unfolding names_row any_open
names_row-keep t symbol [] h = refl
names_row-keep t symbol (i ∷ rows) h =
    let here = λ (d : Domain). i.is_open && same_key i.key (lock_key t d symbol) in
    let there = λ (d : Domain). any_open (lock_key t d symbol) rows in
    three_or_three (here Domain.shared) (here Domain.spot) (here Domain.futures)
      (there Domain.shared) (there Domain.spot) (there Domain.futures) (is_lock_row i) _ _ _
      (open_lock_row t symbol i h) (names_row-keep t symbol rows h)
      (names_row_if symbol t i (keep is_lock_row rows) (is_lock_row i))

names-reason_of :
    (t : IssueType) (ts : List IssueType) → names t (set_of (reason_of ts)) ≡ names t ts
names-reason_of t [] = refl
names-reason_of t (u ∷ ts) = refl

locks_at_empty : (symbol : ℕ) (t : IssueType) → locks_at symbol t [] ≡ false
unfolding names lookup
locks_at_empty symbol t = refl

-- The reason that blocks entries on a symbol names a lock if and only if an issue of that kind is
-- open on the symbol, in any domain.
pub names-block_reason :
    (t : IssueType) (symbol : ℕ) (issues : List Issue)
    → is_lock t ≡ true
    → names t (set_of (get_reconciliation_entry_block_reason (some symbol) issues))
      ≡ open_lock t symbol issues
unfolding get_reconciliation_entry_block_reason load_reconciliation_symbol_locks
names-block_reason t symbol issues h =
    names-reason_of t (set_of (lookup symbol (add_locks (keep is_lock_row issues) [])))
    ∙ locks_at-add_locks symbol t (keep is_lock_row issues) []
    ∙ ground (arith, names_row-keep t symbol issues h, locks_at_empty symbol t)
