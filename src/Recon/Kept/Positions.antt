-- ===== src/Recon/Kept/Positions.antt =====
-- The positions step of a run.
use botik.Base.{suc, ◌≡◌, refl, Bool, true, false, not, Option, none, some, List, [], ◌∷◌}
use botik.Base.Float.{Float}
use botik.Recon.Issues.{Core}
use botik.Recon.Tables.{
  insert_liq_snapshot, upsert_futures_protection, upsert_futures_position, Tables, OrderRow,
  PositionRow, PositionKey, PositionStatus,
}
use botik.Recon.Service.{Answer, Audit, Service, Recon, count, write}
use botik.Recon.Kept.{
  KeepsReport, Holds, IsKept, IsKeptBy, core_kept, count-IsKept, write-IsKept, report-IsKept,
}
use botik.Recon.Positions.{
  ExchangePosition, in_local, local_positions, status_of, store_position, orphan_position,
  unprotected_position, take_position, report_orphaned, report_unprotected, named_position,
  open_position, open_positions, missing_position, missing_positions, position_lists,
  reconcile_futures_positions,
}

module _ {F : Type 0} ⦃fl : Float F⦄ (v : Service)
    (P : Core → List (OrderRow F) → List Audit → Type 0) (keeps_report : KeepsReport P) where
  report_orphaned-IsKept : (b : Bool) (k : PositionKey) → IsKept {F = F} P (report_orphaned b k)
  unfolding report_orphaned orphan_position
  report_orphaned-IsKept true k s h = report-IsKept P keeps_report _ _ _ _ refl refl s h
  report_orphaned-IsKept false k s h = h

  report_unprotected-IsKept :
      (t : PositionStatus) (k : PositionKey) → IsKept {F = F} P (report_unprotected t k)
  unfolding report_unprotected unprotected_position
  report_unprotected-IsKept PositionStatus.is_protected k s h = h
  report_unprotected-IsKept PositionStatus.is_unprotected k s h =
      report-IsKept P keeps_report _ _ _ _ refl refl s h
  report_unprotected-IsKept PositionStatus.other_protection k s h = h

  store_position_orders :
      (k : PositionKey) (b : Bool) (p : ExchangePosition F) (t : Tables F)
      → (store_position v k b p t).orders ≡ t.orders
  unfolding store_position insert_liq_snapshot upsert_futures_protection upsert_futures_position
  store_position_orders k b p t = refl

  take_position-IsKept :
      (local : List (PositionRow F)) (k : PositionKey) (p : ExchangePosition F)
      → IsKept P (take_position v local k p)
  unfolding take_position
  take_position-IsKept local k p s h =
      let orphaned = not (in_local k local) in
      let stored = write (store_position v k orphaned p) s in
      let seen = count _ stored in
      report_unprotected-IsKept (status_of p) k (report_orphaned orphaned k seen) (
        report_orphaned-IsKept orphaned k seen (
          count-IsKept P
            (λ m. record m {
              futures_positions_seen = suc m.futures_positions_seen;
              liq_risk_snapshots = suc m.liq_risk_snapshots;
            })
            stored (write-IsKept P _ (store_position_orders k orphaned p) s h)))

  named_position_kept :
      (local : List (PositionRow F)) (o : Option PositionKey) (p : ExchangePosition F)
      → IsKeptBy P (named_position v local o p)
  unfolding named_position
  named_position_kept local none p r h = h
  named_position_kept local (some k) p (seen, s) h = take_position-IsKept local k p s h

  open_positions_kept :
      (local : List (PositionRow F)) (ps : List (ExchangePosition F))
      → IsKeptBy P (open_positions v local ps)
  unfolding open_positions open_position
  open_positions_kept local [] r h = h
  open_positions_kept local (p ∷ ps) r h =
      open_positions_kept local ps _ (named_position_kept local _ p r h)

  missing_positions-IsKept :
      (seen : List PositionKey) (rows : List (PositionRow F))
      → IsKept P (missing_positions seen rows)
  unfolding missing_positions missing_position
  missing_positions-IsKept seen [] s p = p
  missing_positions-IsKept seen (r ∷ rows) s p =
      missing_positions-IsKept seen rows _
        (core_kept P _ _ _ p (report-IsKept P keeps_report _ _ _ _ refl refl _ p))

  pub reconcile_futures_positions_kept :
      (a : Answer (List (ExchangePosition F))) (s : Recon F)
      → Holds P s
      → Holds P (reconcile_futures_positions v a s).1
  unfolding reconcile_futures_positions position_lists
  reconcile_futures_positions_kept Answer.raises s p = p
  reconcile_futures_positions_kept Answer.refuses s p = p
  reconcile_futures_positions_kept (Answer.answers ps) s p =
      let local = local_positions s.tables.positions in
      let start = count (λ m. record m { futures_positions_checked = true }) s in
      let r = open_positions v local ps ([], start) in
      missing_positions-IsKept r.0 local r.1
        (open_positions_kept local ps ([], start) (count-IsKept P _ s p))
