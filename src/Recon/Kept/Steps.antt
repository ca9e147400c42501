-- ===== src/Recon/Kept/Steps.antt =====
-- The orders step, and the four steps of a run.
use botik.Base.{
  ℕ, suc, refl, Bool, true, false, not, ◌&&◌, ◌||◌, Option, none, some, List, [], ◌∷◌,
  if◌then◌else◌,
}
use botik.Base.Float.{Float}
use botik.Recon.Issues.{Key, Severity, Core, issue_once}
use botik.Recon.Tables.{Link, OrderRow}
use botik.Recon.Service.{
  Answer, AuditType, Audit, issue_audit, Service, Recon, ◌>>◌, report, count, write,
}
use botik.Recon.Kept.{
  IsAudited, KeepsReport, Holds, IsKept, IsKeptBy, core_kept, count-IsKept, then_kept,
  report-IsKept,
}
use botik.Recon.Orders.{
  ExchangeOrder, Seen, orphan_key, is_open_row, is_known_order, has_link, has_id, mark_missing,
  orphan_order, store_order, take_order, named_order, open_order, open_orders, missing_order,
  missing_orders, order_lists, reconcile_open_orders,
}
use botik.Recon.Run.{Answers, positions_if_linear, steps}
use botik.Recon.Wallet.{reconcile_wallet}
use botik.Recon.Fills.{reconcile_fills, symbols_of}
use botik.Recon.Positions.{ExchangePosition}
use botik.Recon.Kept.Wallet.{reconcile_wallet_kept}
use botik.Recon.Kept.Fills.{symbols_fills_kept}
use botik.Recon.Kept.Positions.{reconcile_futures_positions_kept}

module _ {F : Type 0} ⦃fl : Float F⦄ (v : Service)
    (P : Core → List (OrderRow F) → List Audit → Type 0) (keeps_report : KeepsReport P)
    (keeps_missing : (link : Option Link) (c : Core) (rows : List (OrderRow F)) (as_ : List Audit)
      → P c rows as_
      → P c (mark_missing link rows) as_) where
  missing_order-IsKept : (r : OrderRow F) → IsKept P (missing_order v r)
  unfolding missing_order write
  missing_order-IsKept r s p =
      let link = r.order_link_id in
      let s' = write (λ t. record t { orders = mark_missing link t.orders }) s in
      report-IsKept P keeps_report _ _ _ _ refl refl s'
        (keeps_missing link s.core s.tables.orders s.audits p)

  pub missing_orders-IsKept :
      (seen : Seen) (rows : List (OrderRow F)) → IsKept P (missing_orders v seen rows)
  unfolding missing_orders
  missing_orders-IsKept seen [] s p = p
  missing_orders-IsKept seen (r ∷ rows) s p =
      let missing =
        is_open_row r && not (has_link r.order_link_id seen.links || has_id r.order_id seen.ids) in
      missing_orders-IsKept seen rows (if missing then missing_order v r s else s)
        (core_kept P missing (missing_order v r s) s (missing_order-IsKept r s p) p)

  module _
      (keeps_orphan : (symbol : ℕ) (s : Recon F) → Holds P s → Holds P (orphan_order v symbol s))
      (keeps_store : (symbol : ℕ) (o : ExchangeOrder F) (s : Recon F)
        → Holds P s
        → Holds P (store_order v symbol o s)) where
    take_order-IsKept : (symbol : ℕ) (o : ExchangeOrder F) → IsKept P (take_order v symbol o)
    unfolding take_order
    take_order-IsKept symbol o s p =
        let seen = count (λ m. record m { orders_seen = suc m.orders_seen }) s in
        let h : Holds P seen = count-IsKept P _ s p in
        keeps_store symbol o
          (if is_known_order o seen.tables then seen else orphan_order v symbol seen)
          (core_kept P (is_known_order o seen.tables) seen (orphan_order v symbol seen) h
            (keeps_orphan symbol seen h))

    named_order_kept :
        (symbol : Option ℕ) (o : ExchangeOrder F) → IsKeptBy P (named_order v symbol o)
    unfolding named_order
    named_order_kept none o r p = p
    named_order_kept (some symbol) o (seen, s) p = take_order-IsKept symbol o s p

    pub open_orders_kept : (os : List (ExchangeOrder F)) → IsKeptBy P (open_orders v os)
    unfolding open_orders open_order
    open_orders_kept [] r p = p
    open_orders_kept (o ∷ os) r p =
        open_orders_kept os (open_order v o r) (named_order_kept o.symbol o r p)

    pub reconcile_open_orders_kept :
        (a : Answer (List (ExchangeOrder F))) (s : Recon F)
        → Holds P s
        → Holds P (reconcile_open_orders v a s).1
    unfolding reconcile_open_orders order_lists
    reconcile_open_orders_kept Answer.raises s p = p
    reconcile_open_orders_kept Answer.refuses s p = p
    reconcile_open_orders_kept (Answer.answers os) s p =
        let start = count (λ m. record m { open_orders_checked = true }) s in
        let r = open_orders v os (record { links = []; ids = [] }, start) in
        missing_orders-IsKept r.0 r.1.tables.orders r.1
          (open_orders_kept os (record { links = []; ids = [] }, start) (count-IsKept P _ s p))

module _ {F : Type 0} ⦃fl : Float F⦄ (v : Service)
    (P : Core → List (OrderRow F) → List Audit → Type 0) (keeps_report : KeepsReport P) where
  pub positions_if_linear_kept :
      (b : Bool) (a : Answer (List (ExchangePosition F))) (s : Recon F)
      → Holds P s
      → Holds P (positions_if_linear v b a s).1
  unfolding positions_if_linear
  positions_if_linear_kept true a s p = reconcile_futures_positions_kept v P keeps_report a s p
  positions_if_linear_kept false a s p = p

  -- The steps, when the orders step keeps the property.
  pub steps_if_orders :
      (a : Answers F) (s : Recon F)
      → ((t : Recon F) → Holds P t → Holds P (reconcile_open_orders v a.open_orders t).1)
      → Holds P s
      → Holds P (steps v a s).1
  unfolding steps reconcile_fills
  steps_if_orders a s orders p =
      let k_w = reconcile_wallet v a.wallet in
      let k_o = reconcile_open_orders v a.open_orders in
      let k_f = reconcile_fills v a.executions in
      then_kept P (k_w >> k_o >> k_f) (positions_if_linear v v.linear a.positions) s
        (then_kept P (k_w >> k_o) k_f s
          (then_kept P k_w k_o s (reconcile_wallet_kept v P keeps_report a.wallet s p) orders)
          (symbols_fills_kept P v.linear a.executions (symbols_of v)))
        (positions_if_linear_kept v.linear a.positions)

-- The steps keep what reporting and drawing a number keep.
pub steps_kept_audits :
    {F : Type 0} ⦃fl : Float F⦄ (v : Service) (P : Core → List Audit → Type 0)
    → ((t : AuditType) (n : ℕ) (k : Key) (severity : Severity) (c : Core) (as_ : List Audit)
        → IsAudited t k.issue_type
        → P c as_
        → P (issue_once n k severity c).1 (issue_audit t k (issue_once n k severity c).0 ∷ as_))
    → ((c : Core) (as_ : List Audit) → P c as_ → P (record c { next_id = suc c.next_id }) as_)
    → (a : Answers F) (s : Recon F) → P s.core s.audits
    → P (steps v a s).1.core (steps v a s).1.audits
unfolding store_order orphan_order report
steps_kept_audits v P keeps_report keeps_draw a s p =
    let keeps : KeepsReport (λ c _ as_. P c as_) =
      λ t n k severity c _ as_ _ e. keeps_report t n k severity c as_ e in
    steps_if_orders v (λ c _ as_. P c as_) keeps a s
      (reconcile_open_orders_kept v (λ c _ as_. P c as_) keeps (λ _ _ _ _ h. h)
        (λ symbol t.
          keeps_report AuditType.imported_orphaned_order t.run_id (orphan_key v symbol)
            Severity.warning t.core t.audits refl)
        (λ _ _ t. keeps_draw t.core t.audits) a.open_orders)
      p

-- The same, of the issues alone.
pub steps_kept :
    {F : Type 0} ⦃fl : Float F⦄ (v : Service) (P : Core → Type 0)
    → ((n : ℕ) (k : Key) (severity : Severity) (c : Core) → P c → P (issue_once n k severity c).1)
    → ((c : Core) → P c → P (record c { next_id = suc c.next_id }))
    → (a : Answers F) (s : Recon F) → P s.core
    → P (steps v a s).1.core
steps_kept v P keeps_report keeps_draw a s =
    steps_kept_audits v (λ c _. P c) (λ _ n k severity c _ _. keeps_report n k severity c)
      (λ c _. keeps_draw c) a s
