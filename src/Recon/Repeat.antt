-- ===== src/Recon/Repeat.antt =====
-- A second run of src/botik/execution/reconciliation_service.py with the same open orders.
use botik.Base.{
  if_kept, ℕ, suc, ◌≡◌, refl, ◌∙◌, Bool, true, false, Option, none, some, List, [], ◌∷◌, All, arith,
}
use botik.Base.Float.{Float}
use botik.Recon.Issues.{Core, Issue, has_key}
use botik.Recon.Tables.{OrderRow}
use botik.Recon.Service.{Answer, Audit, RunStatus, Service, Recon, count, audit}
use botik.Recon.Orders.{
  ExchangeOrder, Seen, link_of, orphan_key, is_known_order, store_order, take_order, named_order,
  open_order, open_orders, order_lists, reconcile_open_orders,
}
use botik.Recon.Run.{
  Answers, is_eligible, eligible_issues, resolve_row, resolve_rows, resolve_stale_entry_lock_issues,
  start_run, close_run, end_run, steps, run, Fault,
}
use botik.Recon.Faults.{plain_run, run_success}
use botik.Recon.Ledger.{IsSound, any_open, has_key-issue_once}
use botik.Recon.Kept.{Holds, KeepsReport, count-IsKept}
use botik.Recon.Kept.Steps.{steps_if_orders, missing_orders-IsKept}
use botik.Recon.Sound.{IsSound-run, seen-run}
use botik.Recon.Rows.{
  HasRow, HaveRows, HaveRows-map, IsLinked, missing_keeps_rows, has_row-store_order,
  has_row-in_orders, steps_rows,
}

module _ {F : Type 0} ⦃fl : Float F⦄ (v : Service) (os : List (ExchangeOrder F)) (symbol : ℕ) where
  -- The orders have rows, and none was seen as orphaned.
  abbrev IsQuiet : Core → List (OrderRow F) → List Audit → Type 0
  IsQuiet c rows as_ = HaveRows os rows × (has_key (orphan_key v symbol) c.active ≡ false)

  IsQuiet-issue_once : KeepsReport IsQuiet
  IsQuiet-issue_once t n k severity c rows as_ o e (h, q) =
      (h, rw (has_key-issue_once n (orphan_key v symbol) k severity c, q) (ground (arith, o)))

  known_order :
      (o : ExchangeOrder F) (t : Recon F)
      → HasRow t.tables.orders o
      → is_known_order o t.tables ≡ true
  known_order o t h =
      let link = link_of o.order_link_id in
      ground (arith, has_row-in_orders link o.order_id t.tables.orders h)

  store_active :
      (a : ℕ) (o : ExchangeOrder F) (t : Recon F)
      → has_key (orphan_key v symbol) t.core.active ≡ false
      → has_key (orphan_key v symbol) (store_order v a o t).core.active ≡ false
  unfolding store_order
  store_active a o t q = q

  store_order-IsQuiet :
      (a : ℕ) (o : ExchangeOrder F) (t : Recon F)
      → Holds IsQuiet t
      → Holds IsQuiet (store_order v a o t)
  store_order-IsQuiet a o t (h, q) = (
    HaveRows-map os t.tables.orders (store_order v a o t).tables.orders
        (has_row-store_order v a o t) h,
    store_active a o t q,
  )

  -- What storing a row keeps, reading an order that has one keeps.
  known_kept :
      (P : Core → List (OrderRow F) → List Audit → Type 0)
      → ((a : ℕ) (o : ExchangeOrder F) (t : Recon F) → Holds P t → Holds P (store_order v a o t))
      → (name : Option ℕ) (o : ExchangeOrder F) (r : Seen × Recon F) → HasRow r.1.tables.orders o
      → Holds P r.1
      → Holds P (named_order v name o r).1
  unfolding named_order take_order count
  known_kept P keeps none o r h p = p
  known_kept P keeps (some a) o (seen, t) h p =
      let t' = count (λ m. record m { orders_seen = suc m.orders_seen }) t in
      rw (known_order o t h) (keeps a o t' p)

  open_known :
      (rest : List (ExchangeOrder F)) (r : Seen × Recon F)
      → HaveRows rest r.1.tables.orders
      → Holds IsQuiet r.1
      → Holds IsQuiet (open_orders v rest r).1
  unfolding open_orders open_order
  open_known [] r h p = p
  open_known (o ∷ rest) r (h, hs) p =
      open_known rest (open_order v o r)
        (known_kept (λ _ rows _. HaveRows rest rows)
          (λ a x t. HaveRows-map rest _ _ (has_row-store_order v a x t)) o.symbol o r h hs)
        (known_kept IsQuiet store_order-IsQuiet o.symbol o r h p)

  reconcile_open_orders-IsQuiet :
      (s : Recon F)
      → Holds IsQuiet s
      → Holds IsQuiet (reconcile_open_orders v (Answer.answers os) s).1
  unfolding reconcile_open_orders order_lists
  reconcile_open_orders-IsQuiet s p =
      let start = count (λ m. record m { open_orders_checked = true }) s in
      let r = open_orders v os (record { links = []; ids = [] }, start) in
      let q : Holds IsQuiet start = count-IsKept IsQuiet _ s p in
      missing_orders-IsKept v IsQuiet IsQuiet-issue_once
        (λ m c rows as_ (x : IsQuiet c rows as_). (missing_keeps_rows v os m rows x.0, x.1)) r.0
        r.1.tables.orders r.1 (open_known os (record { links = []; ids = [] }, start) q.0 q)

  steps-IsQuiet :
      (a : Answers F) (s : Recon F)
      → a.open_orders ≡ Answer.answers os
      → Holds IsQuiet s
      → Holds IsQuiet (steps v a s).1
  steps-IsQuiet a s asked =
      steps_if_orders v IsQuiet IsQuiet-issue_once a s
        (λ t p. rw asked (reconcile_open_orders-IsQuiet t p))

-- The end of a run leaves the tables and what the run has seen.
resolve_rows_rest :
    {F : Type 0} (rows : List Issue) (r : List ℕ × Recon F)
    → ((resolve_rows rows r).1.tables ≡ r.1.tables)
      × ((resolve_rows rows r).1.core.active ≡ r.1.core.active)
unfolding resolve_rows resolve_row count audit
resolve_rows_rest [] r = (refl, refl)
resolve_rows_rest {F} (i ∷ rows) (u, s) =
    let next = resolve_row i (u, s) in
    let rest = resolve_rows_rest rows next in
    let here : (next.1.tables ≡ s.tables) × (next.1.core.active ≡ s.core.active) =
      if_kept
        (λ (r : List ℕ × Recon F). (r.1.tables ≡ s.tables) × (r.1.core.active ≡ s.core.active)) _ _
        _ (refl, refl) (refl, refl) in
    (rest.0 ∙ here.0, rest.1 ∙ here.1)

pub close_run_rest :
    {F : Type 0} (v : Service) (raised : Bool) (s : Recon F)
    → ((close_run v raised s).tables ≡ s.tables)
      × ((close_run v raised s).core.active ≡ s.core.active)
unfolding close_run end_run audit resolve_stale_entry_lock_issues count
close_run_rest v true s = (refl, refl)
close_run_rest v false s = resolve_rows_rest (eligible_issues v s.summary s.core.issues) ([], s)

close_run_success :
    {F : Type 0} (v : Service) (raised : Bool) (s : Recon F)
    → (close_run v raised s).summary.status ≡ RunStatus.success
    → raised ≡ false
unfolding close_run end_run audit
close_run_success v true s h = ground (arith, h)
close_run_success v false s h = refl

module _ {F : Type 0} ⦃fl : Float F⦄ (v : Service) (os : List (ExchangeOrder F)) where
  rows-run :
      (a : Answers F) (s : Recon F)
      → a.open_orders ≡ Answer.answers os
      → All (λ (o : ExchangeOrder F). IsLinked o) os
      → (plain_run v a s).summary.status ≡ RunStatus.success
      → HaveRows os (plain_run v a s).tables.orders
  unfolding plain_run
  rows-run a s asked linked ok =
      let r = steps v a (start_run s) in
      let raised = close_run_success v r.0 r.1 ok in
      rw ((close_run_rest v r.0 r.1).0) (steps_rows v os a (start_run s) asked linked raised)

  start_run-IsQuiet :
      (symbol : ℕ) (s : Recon F)
      → HaveRows os s.tables.orders
      → Holds (IsQuiet v os symbol) (start_run s)
  unfolding start_run audit has_key
  start_run-IsQuiet symbol s h = (h, refl)

  quiet-run :
      (symbol : ℕ) (a : Answers F) (s : Recon F)
      → a.open_orders ≡ Answer.answers os
      → HaveRows os s.tables.orders
      → has_key (orphan_key v symbol) (plain_run v a s).core.active ≡ false
  unfolding plain_run
  quiet-run symbol a s asked h =
      let r = steps v a (start_run s) in
      rw ((close_run_rest v r.0 r.1).1)
        (steps-IsQuiet v os symbol a (start_run s) asked (start_run-IsQuiet symbol s h)).1

  quiet_again :
      (f : Fault) (b : Answers F) (t : Recon F) (symbol : ℕ)
      → IsSound t.core
      → b.open_orders ≡ Answer.answers os
      → HaveRows os t.tables.orders
      → (run v f b t).summary.status ≡ RunStatus.success
      → is_eligible v (run v f b t).summary (orphan_key v symbol) ≡ true
      → any_open (orphan_key v symbol) (run v f b t).core.issues ≡ false
  quiet_again f b t symbol sound again rows ok checked =
      let same = run_success v f b t ok in
      let plainly : any_open (orphan_key v symbol) (plain_run v b t).core.issues ≡ false =
        seen-run v b t (orphan_key v symbol) sound (rw⁻¹ same ok) (rw⁻¹ same checked)
        ∙ quiet-run symbol b t again rows in
      rw same plainly

  -- Two successful runs one after the other get the same open orders, each with a symbol and a link.
  -- After the second run, which checked the orders, no issue of an orphaned order is open in the
  -- market's domain, for any symbol, although the exchange has the orders still.
  pub run-run :
      (f g : Fault) (a b : Answers F) (s : Recon F) (symbol : ℕ)
      → IsSound s.core
      → a.open_orders ≡ Answer.answers os
      → b.open_orders ≡ Answer.answers os
      → All (λ (o : ExchangeOrder F). IsLinked o) os
      → (run v f a s).summary.status ≡ RunStatus.success
      → (run v g b (run v f a s)).summary.status ≡ RunStatus.success
      → is_eligible v (run v g b (run v f a s)).summary (orphan_key v symbol) ≡ true
      → any_open (orphan_key v symbol) (run v g b (run v f a s)).core.issues ≡ false
  run-run f g a b s symbol sound asked again linked first second checked =
      let same = run_success v f a s first in
      let rows : HaveRows os (run v f a s).tables.orders =
        rw same (rows-run a s asked linked (rw⁻¹ same first)) in
      quiet_again g b (run v f a s) symbol (IsSound-run v f a s sound) again rows second checked
