-- ===== src/Recon/Rows.antt =====
-- The rows that the orders step of src/botik/execution/reconciliation_service.py stores.
use botik.Base.{
  if_kept, ℕ, ◌≡◌, refl, ap, Bool, true, false, ◌&&◌, ◌||◌, Option, none, some, List, [], ◌∷◌, All,
  if◌then◌else◌, is_some, arith,
}
use botik.Base.Float.{Float}
use botik.Recon.Issues.{Core}
use botik.Recon.Tables.{Link, given, drawn, OrderRow, eq_links, coalesce, upsert, upsert_order}
use botik.Recon.Service.{Answer, Audit, Service, Recon, ◌>>◌, count, report}
use botik.Recon.Orders.{
  ExchangeOrder, Seen, link_of, orphan_order, in_orders, store_order, take_order, named_order,
  open_order, open_orders, mark_missing, order_lists, reconcile_open_orders,
}
use botik.Recon.Run.{Answers, positions_if_linear, steps}
use botik.Recon.Wallet.{reconcile_wallet}
use botik.Recon.Fills.{reconcile_fills, symbols_of}
use botik.Recon.Kept.Fills.{symbols_fills_kept}
use botik.Recon.Kept.Steps.{positions_if_linear_kept, missing_orders-IsKept, open_orders_kept}

eq_links_sym : (a b : Option Link) → eq_links a b ≡ true → eq_links b a ≡ true
eq_links_sym a b h = ground arith

eq_links_refl : (a : Link) → eq_links (some a) (some a) ≡ true
eq_links_refl a = ground arith

module _ {F : Type 0} where
  unfoldable pub has_row : Option Link → List (OrderRow F) → Bool
  has_row link [] = false
  has_row link (r ∷ rows) = eq_links link r.order_link_id || has_row link rows

  pub has_row-mark_missing :
      (link m : Option Link) (rows : List (OrderRow F))
      → has_row link rows ≡ true
      → has_row link (mark_missing m rows) ≡ true
  unfolding has_row mark_missing
  has_row-mark_missing link m [] h = h
  has_row-mark_missing link m (r ∷ rows) h = ground (arith, has_row-mark_missing link m rows)

  pub has_row-in_orders :
      (link : Option Link) (oid : Option ℕ) (rows : List (OrderRow F))
      → has_row link rows ≡ true
      → in_orders link oid rows ≡ true
  unfolding has_row in_orders
  has_row-in_orders link oid [] h = h
  has_row-in_orders link oid (r ∷ rows) h = ground (arith, has_row-in_orders link oid rows)

  has_row_later :
      (link : Option Link) (r : OrderRow F) (rows rows' : List (OrderRow F))
      → has_row link (r ∷ rows) ≡ true
      → (has_row link rows ≡ true → has_row link rows' ≡ true)
      → has_row link (r ∷ rows') ≡ true
  unfolding has_row
  has_row_later link r rows rows' h k = ground (arith, h, k)

  -- A change that keeps the link of a row keeps the links, and the new row or the old has its own.
  module _ (new : OrderRow F) (change : OrderRow F → OrderRow F)
      (keeps_link : (r : OrderRow F) → (change r).order_link_id ≡ r.order_link_id) where
    abbrev upserted : List (OrderRow F) → List (OrderRow F)
    upserted = upsert (λ (r : OrderRow F). eq_links r.order_link_id new.order_link_id) new change

    has_row-upsert :
        (link : Option Link) (rows : List (OrderRow F))
        → has_row link rows ≡ true
        → has_row link (upserted rows) ≡ true
    unfolding has_row upsert
    has_row-upsert link [] h = ground (arith, h)
    has_row-upsert link (r ∷ rows) h =
        let same = eq_links r.order_link_id new.order_link_id in
        let kept : eq_links link (change r).order_link_id || has_row link rows ≡ true =
          rw (keeps_link r) h in
        if_kept (λ (xs : List (OrderRow F)). has_row link xs ≡ true) same (change r ∷ rows)
          (r ∷ upserted rows) kept
          (has_row_later link r rows (upserted rows) h (has_row-upsert link rows))

    has_row-new :
        (link : Link) (rows : List (OrderRow F))
        → new.order_link_id ≡ some link
        → has_row (some link) (upserted rows) ≡ true
    unfolding has_row upsert
    has_row-new link [] h = rw h (ground (arith, eq_links_refl link))
    has_row-new link (r ∷ rows) h =
        ground (
          arith,
          keeps_link r,
          h,
          has_row-new link rows h,
          eq_links_sym r.order_link_id (some link),
        )

  -- An order of the exchange has a row with its link.
  abbrev pub HasRow : List (OrderRow F) → ExchangeOrder F → Type 0
  HasRow rows o = has_row (link_of o.order_link_id) rows ≡ true

  abbrev pub HaveRows : List (ExchangeOrder F) → List (OrderRow F) → Type 0
  HaveRows os rows = All (HasRow rows) os

  pub HaveRows-map :
      (os : List (ExchangeOrder F)) (rows rows' : List (OrderRow F))
      → ((link : Option Link) → has_row link rows ≡ true → has_row link rows' ≡ true)
      → HaveRows os rows
      → HaveRows os rows'
  HaveRows-map [] rows rows' f h = h
  HaveRows-map (o ∷ os) rows rows' f (h, hs) =
      (f (link_of o.order_link_id) h, HaveRows-map os rows rows' f hs)

  has_row_of :
      (target : Option Link) (link : Link) (rows : List (OrderRow F))
      → target ≡ some link
      → has_row (some link) rows ≡ true
      → has_row target rows ≡ true
  has_row_of target link rows e h = rw e h

-- An order with a symbol and a link.
abbrev pub IsLinked : {F : Type 0} → ExchangeOrder F → Type 0
IsLinked o = (is_some o.symbol && is_some o.order_link_id) ≡ true

module _ {F : Type 0} ⦃fl : Float F⦄ (v : Service) where
  pub has_row-store_order :
      (symbol : ℕ) (o : ExchangeOrder F) (s : Recon F) (link : Option Link)
      → has_row link s.tables.orders ≡ true
      → has_row link (store_order v symbol o s).tables.orders ≡ true
  unfolding store_order upsert_order
  has_row-store_order symbol o s link h = has_row-upsert _ _ (λ r. refl) link s.tables.orders h

  store_order_row :
      (symbol : ℕ) (o : ExchangeOrder F) (s : Recon F)
      → is_some o.order_link_id ≡ true
      → HasRow (store_order v symbol o s).tables.orders o
  unfolding store_order upsert_order
  store_order_row symbol o s h = stored o.order_link_id refl h
    where
      stored :
          (l : Option ℕ)
          → o.order_link_id ≡ l
          → is_some l ≡ true
          → HasRow (store_order v symbol o s).tables.orders o
      stored none e k = ground (arith, k)
      stored (some n) e k =
          has_row_of (link_of o.order_link_id) (given n) (store_order v symbol o s).tables.orders
            (ap link_of e)
            (has_row-new _ _ (λ r. refl) (given n) s.tables.orders
              (ap (λ l. coalesce (link_of l) (some (drawn s.core.next_id))) e))

  named_order_row :
      (symbol : Option ℕ) (o : ExchangeOrder F) (r : Seen × Recon F)
      → (is_some symbol && is_some o.order_link_id) ≡ true
      → HasRow (named_order v symbol o r).1.tables.orders o
  unfolding named_order take_order
  named_order_row none o r h = ground (arith, h)
  named_order_row (some symbol) o r h = store_order_row symbol o _ h

  -- An order that is read has a row from then on.
  open_orders_rows :
      (os : List (ExchangeOrder F)) (r : Seen × Recon F)
      → All (λ (o : ExchangeOrder F). IsLinked o) os
      → HaveRows os (open_orders v os r).1.tables.orders
  unfolding open_orders open_order orphan_order report
  open_orders_rows [] r h = h
  open_orders_rows (o ∷ os) r (h, hs) = (
    open_orders_kept v (λ _ rows _. HasRow rows o) (λ _ _ _ _ _ _ _ _ _ q. q)
        (λ m _ rows _. has_row-mark_missing (link_of o.order_link_id) m rows) (λ symbol t q. q)
        (λ symbol x t. has_row-store_order symbol x t (link_of o.order_link_id)) os
        (open_order v o r) (named_order_row o.symbol o r h),
    open_orders_rows os (open_order v o r) hs,
  )

  pub missing_keeps_rows :
      (os : List (ExchangeOrder F)) (m : Option Link) (rows : List (OrderRow F))
      → HaveRows os rows
      → HaveRows os (mark_missing m rows)
  missing_keeps_rows os m rows =
      HaveRows-map os rows (mark_missing m rows) (λ link. has_row-mark_missing link m rows)

  orders_step_rows :
      (os : List (ExchangeOrder F)) (s : Recon F)
      → All (λ (o : ExchangeOrder F). IsLinked o) os
      → HaveRows os (reconcile_open_orders v (Answer.answers os) s).1.tables.orders
  unfolding reconcile_open_orders order_lists
  orders_step_rows os s h =
      let start = count (λ m. record m { open_orders_checked = true }) s in
      let r = open_orders v os (record { links = []; ids = [] }, start) in
      missing_orders-IsKept v (λ _ rows _. HaveRows os rows) (λ _ _ _ _ _ _ _ _ _ q. q)
        (λ m _ rows _. missing_keeps_rows os m rows) r.0 r.1.tables.orders r.1
        (open_orders_rows os (record { links = []; ids = [] }, start) h)

-- A step that does not raise comes after one that does not.
not_raised :
    {F : Type 0} (raised : Bool) (s : Recon F) (r : Bool × Recon F)
    → (if raised then (true, s) else r).0 ≡ false
    → (raised ≡ false) × ((if raised then (true, s) else r) ≡ r)
not_raised true s r h = (h, ground (arith, h))
not_raised false s r h = (refl, refl)

module _ {F : Type 0} ⦃fl : Float F⦄ (v : Service) where
  pub steps_rows :
      (os : List (ExchangeOrder F)) (a : Answers F) (s : Recon F)
      → a.open_orders ≡ Answer.answers os
      → All (λ (o : ExchangeOrder F). IsLinked o) os
      → (steps v a s).0 ≡ false
      → HaveRows os (steps v a s).1.tables.orders
  unfolding steps reconcile_fills
  steps_rows os a s asked linked ok =
      let k_w = reconcile_wallet v a.wallet in
      let k_o = reconcile_open_orders v a.open_orders in
      let k_f = reconcile_fills v a.executions in
      let k_p = positions_if_linear v v.linear a.positions in
      let P = λ (_ : Core) (rows : List (OrderRow F)) (_ : List Audit). HaveRows os rows in
      let (ok3, last) = not_raised ((k_w >> k_o >> k_f) s).0 _ (k_p ((k_w >> k_o >> k_f) s).1) ok in
      let (ok2, third) = not_raised ((k_w >> k_o) s).0 _ (k_f ((k_w >> k_o) s).1) ok3 in
      let (ok1, second) = not_raised (k_w s).0 _ (k_o (k_w s).1) ok2 in
      let stored : HaveRows os (k_o (k_w s).1).1.tables.orders =
        rw asked (orders_step_rows v os (k_w s).1 linked) in
      let after_orders : HaveRows os ((k_w >> k_o) s).1.tables.orders = rw second stored in
      let after_fills : HaveRows os (k_f ((k_w >> k_o) s).1).1.tables.orders =
        symbols_fills_kept P v.linear a.executions (symbols_of v) ((k_w >> k_o) s).1 after_orders in
      let after : HaveRows os ((k_w >> k_o >> k_f) s).1.tables.orders = rw third after_fills in
      rw last (positions_if_linear_kept v P (λ _ _ _ _ _ _ _ _ _ q. q) v.linear a.positions _ after)
