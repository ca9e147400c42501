-- ===== src/Recon/Tables.antt =====
-- The tables that reconciliation reads and writes, and the statements on them, of
-- src/botik/storage/spot_store.py and futures_store.py. A table has the rows of one account. Keys
-- that are texts are numbers, columns that no modelled code reads are left out, as are times.
use botik.Base.{
  ℕ, suc, ◌+◌, ◌==◌, Bool, true, false, ◌&&◌, ◌||◌, Option, none, some, List, [], ◌∷◌,
  if◌then◌else◌, Dict, lookup, insert,
}
use botik.Base.Float.{Float, nought, fmax}

pub record Balance (F : Type 0) : Type 0 where
  pub free_qty : F
  pub locked_qty : F
  pub total_qty : F

pub data HoldReason : Type 0 where
  unknown_recovered_from_exchange stale_hold other_reason : HoldReason

pub record SpotHolding (F : Type 0) : Type 0 where
  pub symbol : ℕ
  pub base_asset : ℕ
  pub free_qty : F
  pub locked_qty : F
  pub avg_entry_price : Option F
  pub hold_reason : HoldReason
  pub recovered_from_exchange : Bool
  pub strategy_owner : Option ℕ
  pub auto_sell_allowed : Bool

-- The statuses that the code tells apart: new or partially filled, gone, or any other.
pub data OrderStatus : Type 0 where
  open_status missing_on_exchange other_status : OrderStatus

-- The client's name of an order: one that the exchange knows, or one that a statement drew.
pub data Link : Type 0 where
  given drawn : ℕ → Link

abbrev pub link_code : Link → ℕ
link_code (given n) = n + n
link_code (drawn n) = suc (n + n)

-- A row of `spot_orders` or `futures_open_orders`; `none` for a null or empty text.
pub record OrderRow (F : Type 0) : Type 0 where
  pub symbol : Option ℕ
  pub order_link_id : Option Link
  pub order_id : Option ℕ
  pub status : OrderStatus
  pub price : F
  pub qty : F

pub record Fill (F : Type 0) : Type 0 where
  pub symbol : ℕ
  pub order_link_id : Option ℕ
  pub order_id : Option ℕ
  pub price : F
  pub qty : F
  pub fee : F
  pub exec_time_ms : ℕ

pub record FundingEvent (F : Type 0) : Type 0 where
  pub symbol : ℕ
  pub side : Option ℕ
  pub position_idx : Option ℕ
  pub funding_rate : Option F
  pub funding_fee : F
  pub funding_time_ms : ℕ

pub data PositionStatus : Type 0 where
  is_protected is_unprotected other_protection : PositionStatus

-- What names a position.
pub record PositionKey : Type 0 where
  pub symbol : ℕ
  pub side : ℕ
  pub position_idx : ℕ

pub record PositionRow (F : Type 0) : Type 0 where
  pub key : PositionKey
  pub qty : F
  pub entry_price : F
  pub mark_price : F
  pub liq_price : F
  pub take_profit : Option F
  pub stop_loss : Option F
  pub trailing_stop : Option F
  pub protection_status : PositionStatus
  pub recovered_from_exchange : Bool

pub record Protection (F : Type 0) : Type 0 where
  pub key : PositionKey
  pub status : PositionStatus
  pub stop_loss : Option F
  pub take_profit : Option F
  pub trailing_stop : Option F

pub record LiqSnapshot (F : Type 0) : Type 0 where
  pub key : PositionKey
  pub mark_price : Option F
  pub liq_price : Option F
  pub distance_to_liq_bps : Option F

pub record Tables (F : Type 0) : Type 0 where
  pub spot_balances : Dict (Balance F)
  pub spot_holdings : List (SpotHolding F)
  -- the table `orders` of the trading loop: links and exchange numbers
  pub legacy_orders : List (Option Link × Option ℕ)
  -- the table of the market's orders
  pub orders : List (OrderRow F)
  pub fills : Dict (Fill F)
  pub funding_events : List (FundingEvent F)
  pub positions : List (PositionRow F)
  pub protections : List (Protection F)
  pub liq_snapshots : List (LiqSnapshot F)

-- `a = b` in SQL, and `COALESCE(a, b)`: a null is equal to nothing.
abbrev pub eq_texts : Option ℕ → Option ℕ → Bool
eq_texts (some a) (some b) = a == b
eq_texts none _ = false
eq_texts (some a) none = false

abbrev pub eq_links : Option Link → Option Link → Bool
eq_links (some a) (some b) = link_code a == link_code b
eq_links none _ = false
eq_links (some a) none = false

abbrev pub coalesce : {A : Type 0} → Option A → Option A → Option A
coalesce none b = b
coalesce (some a) b = some a

abbrev pub same_position : PositionKey → PositionKey → Bool
same_position a b =
    (a.symbol == b.symbol) && ((a.side == b.side) && (a.position_idx == b.position_idx))

-- `INSERT … ON CONFLICT DO UPDATE`: the first row that is the same is changed, else one is added.
unfoldable pub upsert : {A : Type 0} → (A → Bool) → A → (A → A) → List A → List A
upsert same new change [] = new ∷ []
upsert same new change (r ∷ rows) =
    if same r then change r ∷ rows else r ∷ upsert same new change rows

abbrev same_or_null : Option ℕ → Option ℕ → Bool
same_or_null none none = true
same_or_null none (some b) = false
same_or_null (some a) none = false
same_or_null (some a) (some b) = a == b

module _ {F : Type 0} ⦃fl : Float F⦄ where
  unfoldable pub upsert_spot_balance : ℕ → F → F → Tables F → Tables F
  upsert_spot_balance asset free locked t =
      let f = fmax free nought in
      let l = fmax locked nought in
      record t {
        spot_balances =
            insert asset record { free_qty = f; locked_qty = l; total_qty = fl.add f l }
              t.spot_balances;
      }

  abbrev same_holding : SpotHolding F → SpotHolding F → Bool
  same_holding a b = (a.symbol == b.symbol) && (a.base_asset == b.base_asset)

  unfoldable pub upsert_spot_holding : SpotHolding F → Tables F → Tables F
  upsert_spot_holding h t =
      let new = record h {
        free_qty = fmax h.free_qty nought;
        locked_qty = fmax h.locked_qty nought;
      } in
      let change = λ (r : SpotHolding F). record new {
        avg_entry_price = coalesce new.avg_entry_price r.avg_entry_price;
        strategy_owner = coalesce new.strategy_owner r.strategy_owner;
      } in
      record t { spot_holdings = upsert (same_holding h) new change t.spot_holdings }

  -- The conflict is on the link, which is drawn when the order has none. Spot orders have quantities
  -- of at least 0; those of futures are stored as they are.
  unfoldable pub upsert_order : Bool → ℕ → OrderRow F → Tables F → Tables F
  upsert_order linear n o t =
      let new = record o {
        order_link_id = coalesce o.order_link_id (some (drawn n));
        qty = if linear then o.qty else fmax o.qty nought;
      } in
      let change = λ (r : OrderRow F). record r {
        order_id = coalesce new.order_id r.order_id;
        status = new.status;
        price = new.price;
        qty = new.qty;
      } in
      record t {
        orders = upsert (λ r. eq_links r.order_link_id new.order_link_id) new change t.orders;
      }

  -- `ON CONFLICT(exec_id) DO NOTHING`
  unfoldable pub insert_if_new : Option (Fill F) → ℕ → Fill F → Tables F → Tables F
  insert_if_new (some old) exec_id f t = t
  insert_if_new none exec_id f t = record t {
    fills = insert exec_id (record f { qty = fmax f.qty nought }) t.fills;
  }

  unfoldable pub insert_fill : ℕ → Fill F → Tables F → Tables F
  insert_fill exec_id f t = insert_if_new (lookup exec_id t.fills) exec_id f t

  abbrev same_funding : FundingEvent F → FundingEvent F → Bool
  same_funding a b =
      (a.symbol == b.symbol)
      && (same_or_null a.side b.side
          && (same_or_null a.position_idx b.position_idx
              && ((a.funding_time_ms == b.funding_time_ms) && fl.eq a.funding_fee b.funding_fee)))

  unfoldable pub has_funding : FundingEvent F → List (FundingEvent F) → Bool
  has_funding e [] = false
  has_funding e (x ∷ xs) = same_funding x e || has_funding e xs

  -- With whether it is new.
  unfoldable pub insert_futures_funding_event : FundingEvent F → Tables F → Bool × Tables F
  insert_futures_funding_event e t =
      if has_funding e t.funding_events
      then (false, t)
      else (true, record t { funding_events = e ∷ t.funding_events })

  unfoldable pub upsert_futures_position : PositionRow F → Tables F → Tables F
  upsert_futures_position p t = record t {
    positions = upsert (λ r. same_position r.key p.key) p (λ r. p) t.positions;
  }

  unfoldable pub upsert_futures_protection : Protection F → Tables F → Tables F
  upsert_futures_protection p t = record t {
    protections = upsert (λ r. same_position r.key p.key) p (λ r. p) t.protections;
  }

  unfoldable pub insert_liq_snapshot : LiqSnapshot F → Tables F → Tables F
  insert_liq_snapshot l t = record t { liq_snapshots = l ∷ t.liq_snapshots }
