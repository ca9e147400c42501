-- ===== src/Recon/Positions.antt =====
-- `_reconcile_futures_positions` of src/botik/execution/reconciliation_service.py.
use botik.Base.{
  ℕ, suc, Bool, true, false, not, ◌&&◌, ◌||◌, Option, none, some, List, [], ◌∷◌, keep,
  if◌then◌else◌,
}
use botik.Base.Float.{Float, nought, fabs}
use botik.Risk.FuturesRules.{compute_distance_to_liq_bps}
use botik.Recon.Issues.{Key, IssueType, Domain, Severity}
use botik.Recon.Tables.{
  PositionKey, PositionRow, PositionStatus, Protection, LiqSnapshot, Tables, same_position,
  upsert_futures_position, upsert_futures_protection, insert_liq_snapshot,
}
use botik.Recon.Service.{
  Num, Answer, AuditType, Service, Recon, Step, count, write, report, float_of, first_of,
  if_positive,
}

-- A position of the exchange: `none` for an empty text, the index as `_i` reads it.
pub record ExchangePosition (F : Type 0) : Type 0 where
  pub symbol : Option ℕ
  pub side : Option ℕ
  pub position_idx : ℕ
  pub size : Num F
  pub qty : Num F
  pub avg_price : Num F
  pub entry_price : Num F
  pub mark_price : Num F
  pub liq_price : Num F
  pub stop_loss : Num F
  pub take_profit : Num F
  pub trailing_stop : Num F

abbrev futures_key : IssueType → PositionKey → Key
futures_key t k = record { issue_type = t; domain = Domain.futures; symbol = some k.symbol }

unfoldable pub has_position : PositionKey → List PositionKey → Bool
has_position k [] = false
has_position k (j ∷ ks) = same_position j k || has_position k ks

module _ {F : Type 0} ⦃fl : Float F⦄ where
  -- `abs(qty) > 0`
  abbrev is_held : F → Bool
  is_held q = fl.lt nought (fabs q)

  -- `local_map`. The table has one row for each key.
  unfoldable pub local_positions : List (PositionRow F) → List (PositionRow F)
  local_positions rows = keep (λ (r : PositionRow F). is_held r.qty) rows

  unfoldable pub in_local : PositionKey → List (PositionRow F) → Bool
  in_local k [] = false
  in_local k (r ∷ rows) = same_position r.key k || in_local k rows

  abbrev pub status_of : ExchangePosition F → PositionStatus
  status_of p =
      if fl.lt nought (float_of p.stop_loss) && fl.lt nought (float_of p.take_profit)
      then PositionStatus.is_protected
      else PositionStatus.is_unprotected

  abbrev row_of : PositionKey → Bool → ExchangePosition F → PositionRow F
  row_of k orphaned p = record {
    key = k;
    qty = float_of (first_of p.size p.qty);
    entry_price = float_of (first_of p.avg_price p.entry_price);
    mark_price = float_of p.mark_price;
    liq_price = float_of p.liq_price;
    take_profit = if_positive (float_of p.take_profit);
    stop_loss = if_positive (float_of p.stop_loss);
    trailing_stop = if_positive (float_of p.trailing_stop);
    protection_status = status_of p;
    recovered_from_exchange = orphaned;
  }

  abbrev protection_of : PositionKey → ExchangePosition F → Protection F
  protection_of k p = record {
    key = k;
    status = status_of p;
    stop_loss = if_positive (float_of p.stop_loss);
    take_profit = if_positive (float_of p.take_profit);
    trailing_stop = if_positive (float_of p.trailing_stop);
  }

  abbrev snapshot_of : Service → PositionKey → ExchangePosition F → LiqSnapshot F
  snapshot_of v k p = record {
    key = k;
    mark_price = if_positive (float_of p.mark_price);
    liq_price = if_positive (float_of p.liq_price);
    distance_to_liq_bps =
        compute_distance_to_liq_bps (some (v.side_text k.side)) (some (float_of p.mark_price))
          (some (float_of p.liq_price));
  }

  -- The three statements on the tables.
  unfoldable pub store_position :
      Service → PositionKey → Bool → ExchangePosition F → Tables F → Tables F
  store_position v k orphaned p t = insert_liq_snapshot (snapshot_of v k p) (
      upsert_futures_protection (protection_of k p)
        (upsert_futures_position (row_of k orphaned p) t))

  unfoldable pub orphan_position : PositionKey → Recon F → Recon F
  orphan_position k =
      report (futures_key IssueType.orphaned_exchange_position k) Severity.error
        (λ m. record m { futures_positions_orphaned = suc m.futures_positions_orphaned })
        AuditType.imported_orphaned_position

  unfoldable pub unprotected_position : PositionKey → Recon F → Recon F
  unprotected_position k =
      report (futures_key IssueType.unprotected_position k) Severity.critical (λ m. m)
        AuditType.protection_failure

  -- `if orphaned:` and `if status == "unprotected":`
  unfoldable pub report_orphaned : Bool → PositionKey → Recon F → Recon F
  report_orphaned true k s = orphan_position k s
  report_orphaned false k s = s

  unfoldable pub report_unprotected : PositionStatus → PositionKey → Recon F → Recon F
  report_unprotected PositionStatus.is_protected k s = s
  report_unprotected PositionStatus.is_unprotected k s = unprotected_position k s
  report_unprotected PositionStatus.other_protection k s = s

  unfoldable pub take_position :
      Service → List (PositionRow F) → PositionKey → ExchangePosition F → Recon F → Recon F
  take_position v local k p s =
      let orphaned = not (in_local k local) in
      report_unprotected (status_of p) k (
        report_orphaned orphaned k (
          count
            (λ m. record m {
              futures_positions_seen = suc m.futures_positions_seen;
              liq_risk_snapshots = suc m.liq_risk_snapshots;
            })
            (write (store_position v k orphaned p) s)))

  -- What names a position that counts.
  abbrev key_of : ExchangePosition F → Option PositionKey
  key_of p = elim p.symbol [
    | none ↦ none
    | some symbol ↦ elim p.side [
      | none ↦ none
      | some side ↦
          if is_held (float_of (first_of p.size p.qty))
          then some (record { symbol = symbol; side = side; position_idx = p.position_idx })
          else none
    ]
  ]

  -- A position by its key; the keys of the exchange are returned too.
  unfoldable pub named_position :
      Service
      → List (PositionRow F)
      → Option PositionKey
      → ExchangePosition F
      → List PositionKey × Recon F
      → List PositionKey × Recon F
  named_position v local none p r = r
  named_position v local (some k) p (seen, s) = (k ∷ seen, take_position v local k p s)

  unfoldable pub open_position :
      Service
      → List (PositionRow F)
      → ExchangePosition F
      → List PositionKey × Recon F
      → List PositionKey × Recon F
  open_position v local p r = named_position v local (key_of p) p r

  unfoldable pub open_positions :
      Service
      → List (PositionRow F)
      → List (ExchangePosition F)
      → List PositionKey × Recon F
      → List PositionKey × Recon F
  open_positions v local [] r = r
  open_positions v local (p ∷ ps) r = open_positions v local ps (open_position v local p r)

  unfoldable pub missing_position : PositionKey → Recon F → Recon F
  missing_position k =
      report (futures_key IssueType.local_position_missing_on_exchange k) Severity.warning (λ m. m)
        AuditType.reconciliation_issue

  unfoldable pub missing_positions : List PositionKey → List (PositionRow F) → Recon F → Recon F
  missing_positions seen [] s = s
  missing_positions seen (r ∷ rows) s =
      missing_positions seen rows (if has_position r.key seen then s else missing_position r.key s)

  unfoldable pub position_lists : Service → List (ExchangePosition F) → Recon F → Recon F
  position_lists v ps s =
      let local = local_positions s.tables.positions in
      let (seen, s') =
        open_positions v local ps
          ([], count (λ m. record m { futures_positions_checked = true }) s) in
      missing_positions seen local s'

  unfoldable pub reconcile_futures_positions : Service → Answer (List (ExchangePosition F)) → Step F
  reconcile_futures_positions v Answer.raises s = (true, s)
  reconcile_futures_positions v Answer.refuses s = (false, s)
  reconcile_futures_positions v (Answer.answers ps) s = (false, position_lists v ps s)
