-- ===== src/Recon/Orders.antt =====
-- `_reconcile_open_orders` of src/botik/execution/reconciliation_service.py.
use botik.Base.{
  ℕ, suc, Bool, true, false, not, ◌&&◌, ◌||◌, Option, none, some, List, [], ◌∷◌, if◌then◌else◌,
}
use botik.Base.Float.{Float}
use botik.Recon.Issues.{Key, IssueType, Domain, Severity}
use botik.Recon.Tables.{
  Link, given, OrderStatus, OrderRow, Tables, eq_texts, eq_links, upsert_order,
}
use botik.Recon.Service.{
  Num, Answer, AuditType, Service, Recon, Step, count, write, report, float_of,
}

-- An order of the exchange; `none` for an empty text.
pub record ExchangeOrder (F : Type 0) : Type 0 where
  pub symbol : Option ℕ
  pub order_link_id : Option ℕ
  pub order_id : Option ℕ
  pub order_status : OrderStatus
  pub price : Num F
  pub qty : Num F

abbrev pub link_of : Option ℕ → Option Link
link_of none = none
link_of (some n) = some (given n)

-- The orders that the exchange has: the links and the numbers.
pub record Seen : Type 0 where
  pub links : List ℕ
  pub ids : List ℕ

abbrev pub add_seen : Option ℕ → List ℕ → List ℕ
add_seen none xs = xs
add_seen (some n) xs = n ∷ xs

unfoldable pub in_legacy : Option Link → Option ℕ → List (Option Link × Option ℕ) → Bool
in_legacy link oid [] = false
in_legacy link oid (r ∷ rows) = (eq_links link r.0 || eq_texts oid r.1) || in_legacy link oid rows

unfoldable pub has_link : Option Link → List ℕ → Bool
has_link link [] = false
has_link link (n ∷ ns) = eq_links link (some (given n)) || has_link link ns

unfoldable pub has_id : Option ℕ → List ℕ → Bool
has_id oid [] = false
has_id oid (n ∷ ns) = eq_texts oid (some n) || has_id oid ns

module _ {F : Type 0} where
  unfoldable pub in_orders : Option Link → Option ℕ → List (OrderRow F) → Bool
  in_orders link oid [] = false
  in_orders link oid (r ∷ rows) =
      (eq_links link r.order_link_id || eq_texts oid r.order_id) || in_orders link oid rows

  abbrev pub is_known_order : ExchangeOrder F → Tables F → Bool
  is_known_order o t =
      in_legacy (link_of o.order_link_id) o.order_id t.legacy_orders
      || in_orders (link_of o.order_link_id) o.order_id t.orders

  -- `UPDATE … SET status='MissingOnExchange' WHERE order_link_id=?`
  unfoldable pub mark_missing : Option Link → List (OrderRow F) → List (OrderRow F)
  mark_missing link [] = []
  mark_missing link (r ∷ rows) =
      (if eq_links r.order_link_id link
        then record r { status = OrderStatus.missing_on_exchange }
        else r)
      ∷ mark_missing link rows

  abbrev pub is_open_row : OrderRow F → Bool
  is_open_row r = elim r.status [
    | OrderStatus.open_status ↦ true
    | OrderStatus.missing_on_exchange ↦ false
    | OrderStatus.other_status ↦ false
  ]

module _ (v : Service) where
  abbrev pub order_domain : Domain
  order_domain = if v.linear then Domain.futures else Domain.spot

  abbrev pub orphan_key : ℕ → Key
  orphan_key symbol = record {
    issue_type = IssueType.orphaned_exchange_order;
    domain = order_domain;
    symbol = some symbol;
  }

module _ {F : Type 0} ⦃fl : Float F⦄ (v : Service) where
  unfoldable pub orphan_order : ℕ → Recon F → Recon F
  orphan_order symbol =
      report (orphan_key v symbol) Severity.warning
        (λ m. record m { orders_orphaned = suc m.orders_orphaned })
        AuditType.imported_orphaned_order

  -- The number that is drawn for the link is used only if the order has none.
  unfoldable pub store_order : ℕ → ExchangeOrder F → Recon F → Recon F
  store_order symbol o s =
      let row : OrderRow F = record {
        symbol = some symbol;
        order_link_id = link_of o.order_link_id;
        order_id = o.order_id;
        status = o.order_status;
        price = float_of o.price;
        qty = float_of o.qty;
      } in
      record s {
        tables = upsert_order v.linear s.core.next_id row s.tables;
        core = record s.core { next_id = suc s.core.next_id };
      }

  unfoldable pub take_order : ℕ → ExchangeOrder F → Recon F → Recon F
  take_order symbol o s =
      let s' = count (λ m. record m { orders_seen = suc m.orders_seen }) s in
      store_order symbol o (if is_known_order o s'.tables then s' else orphan_order symbol s')

  unfoldable pub named_order : Option ℕ → ExchangeOrder F → Seen × Recon F → Seen × Recon F
  named_order none o r = r
  named_order (some symbol) o (seen, s) = (
    record { links = add_seen o.order_link_id seen.links; ids = add_seen o.order_id seen.ids },
    take_order symbol o s,
  )

  unfoldable pub open_order : ExchangeOrder F → Seen × Recon F → Seen × Recon F
  open_order o r = named_order o.symbol o r

  unfoldable pub open_orders : List (ExchangeOrder F) → Seen × Recon F → Seen × Recon F
  open_orders [] r = r
  open_orders (o ∷ os) r = open_orders os (open_order o r)

  unfoldable pub missing_order : OrderRow F → Recon F → Recon F
  missing_order r s =
      report
        record {
          issue_type = IssueType.local_order_missing_on_exchange;
          domain = order_domain v;
          symbol = r.symbol;
        }
        Severity.warning (λ m. m) AuditType.reconciliation_repair_applied
        (write (λ t. record t { orders = mark_missing r.order_link_id t.orders }) s)

  -- The rows are those of the table before the loop.
  unfoldable pub missing_orders : Seen → List (OrderRow F) → Recon F → Recon F
  missing_orders seen [] s = s
  missing_orders seen (r ∷ rows) s = missing_orders seen rows (
      if is_open_row r && not (has_link r.order_link_id seen.links || has_id r.order_id seen.ids)
      then missing_order r s
      else s)

  unfoldable pub order_lists : List (ExchangeOrder F) → Recon F → Recon F
  order_lists os s =
      let (seen, s') =
        open_orders os (
          record { links = []; ids = [] },
          count (λ m. record m { open_orders_checked = true }) s,
        ) in
      missing_orders seen s'.tables.orders s'

  unfoldable pub reconcile_open_orders : Answer (List (ExchangeOrder F)) → Step F
  reconcile_open_orders Answer.raises s = (true, s)
  reconcile_open_orders Answer.refuses s = (false, s)
  reconcile_open_orders (Answer.answers os) s = (false, order_lists os s)
