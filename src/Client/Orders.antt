-- ===== src/Client/Orders.antt =====
-- The class `PaperTradingClient` of src/botik/execution/paper.py. Its answers are wrapped for the
-- interface of the exchange client; here they are what is inside. A client that is asked for the
-- balance, the positions or a trading stop answers a constant; these calls are left out.
use botik.Base.{
  ℕ, ◌==◌, Bool, true, false, not, ◌&&◌, ◌||◌, Option, none, some, List, [], ◌∷◌, ◌++◌, keep,
  take_last, if◌then◌else◌, Dict, insert, erase, values,
}
use botik.Base.Float.{Float, nought}
use botik.Base.Text.{Text, codes, text_eq, lower, strip}
use botik.Market.State.{OrderBookAggregate, TradingState, get_orderbook}

-- `side` is a text that is compared with "Buy" only.
pub data ClientSide : Type 0 where
  buys sells : ClientSide

-- The text of a price: empty, a number, or neither, which `float` refuses.
pub data PriceText (F : Type 0) : Type 0 where
  no_price wrong_price : PriceText F
  price_of : F → PriceText F

pub data OrderType : Type 0 where
  limit market : OrderType

pub record Order (F : Type 0) : Type 0 where
  pub symbol : ℕ
  pub side : ClientSide
  pub qty : F
  pub price : PriceText F
  pub order_id : ℕ
  pub order_link_id : ℕ
  pub time_in_force : Text
  pub order_type : OrderType

pub record Execution (F : Type 0) : Type 0 where
  pub symbol : ℕ
  pub side : ClientSide
  pub order_id : ℕ
  pub order_link_id : ℕ
  pub exec_id : ℕ
  pub exec_qty : F
  pub exec_price : PriceText F

-- The trading state that the client reads is an argument of its calls.
pub record PaperClient (F : Type 0) : Type 0 where
  pub fill_on_cross : Bool
  pub open_orders : Dict (Order F)
  pub executions : List (Execution F)

-- `str(order_type or "Limit").strip().title()`, with all but "Market" taken for "Limit".
unfoldable pub order_type_of : Text → OrderType
order_type_of t =
    if text_eq (lower (strip t)) (codes "market") then OrderType.market else OrderType.limit

abbrev pub is_market : OrderType → Bool
is_market OrderType.market = true
is_market OrderType.limit = false

abbrev pub post_only : Text → Bool
post_only t = text_eq t (codes "PostOnly")

abbrev pub keep_if : {A : Type 0} → Option ℕ → (ℕ → A → Bool) → List A → List A
keep_if none p xs = xs
keep_if (some n) p xs = keep (p n) xs

-- `items[-limit:]`, which is all of the list for 0.
abbrev pub last_items : {A : Type 0} → ℕ → List A → List A
last_items n xs = if n == 0 then xs else take_last n xs

module _ {F : Type 0} ⦃fl : Float F⦄ where
  unfoldable pub crosses : ClientSide → F → Option (OrderBookAggregate F) → Bool
  crosses side price none = false
  crosses ClientSide.buys price (some ob) = fl.le ob.best_ask price
  crosses ClientSide.sells price (some ob) = fl.le price ob.best_bid

  unfoldable pub is_marketable : TradingState F → ℕ → ClientSide → F → Bool
  is_marketable s symbol side price = crosses side price (get_orderbook symbol s)

  -- `float(price or 0.0)`; `none` when it raises.
  abbrev pub float_of : PriceText F → Option F
  float_of PriceText.no_price = some nought
  float_of PriceText.wrong_price = none
  float_of (PriceText.price_of p) = some p

  -- Whether an order can be filled at once; the price is read only when it matters.
  unfoldable pub marketable : TradingState F → Bool → Order F → Option F → Option Bool
  marketable s fill_on_cross o p =
      if is_market o.order_type
      then some true
      else if fill_on_cross
      then elim p [ none ↦ none | some x ↦ some (is_marketable s o.symbol o.side x) ]
      else some false

  unfoldable pub record_execution : ℕ → Order F → PaperClient F → PaperClient F
  record_execution exec_id o c = record c {
    executions =
        c.executions
        ++ record {
          symbol = o.symbol;
          side = o.side;
          order_id = o.order_id;
          order_link_id = o.order_link_id;
          exec_id = exec_id;
          exec_qty = o.qty;
          exec_price = o.price;
        }
          ∷ [];
  }

  unfoldable pub settle_order : ℕ → Order F → Bool → PaperClient F → PaperClient F
  settle_order exec_id o can_fill c =
      if can_fill && (not (post_only o.time_in_force) || is_market o.order_type)
      then record_execution exec_id o c
      else record c { open_orders = insert o.order_id o c.open_orders }

  -- `place_order` on the order that it forms; `none` when the price is read and is no number. The
  -- client is then as it was.
  unfoldable pub place_order : TradingState F → ℕ → Order F → PaperClient F → Option (PaperClient F)
  place_order s exec_id o c = elim (marketable s c.fill_on_cross o (float_of o.price)) [
    | none ↦ none
    | some can_fill ↦ some (settle_order exec_id o can_fill c)
  ]

  -- The first open order of the symbol with the link.
  unfoldable pub find_link : ℕ → ℕ → Dict (Order F) → Option ℕ
  find_link symbol link [] = none
  find_link symbol link ((oid, o) ∷ d) =
      if (o.order_link_id == link) && (o.symbol == symbol)
      then some oid
      else find_link symbol link d

  -- The order that a cancellation names, by its id or, without one, by its link.
  unfoldable pub cancel_target : ℕ → Option ℕ → Option ℕ → Dict (Order F) → Option ℕ
  cancel_target symbol link (some oid) d = some oid
  cancel_target symbol none none d = none
  cancel_target symbol (some link) none d = find_link symbol link d

  unfoldable pub remove_order : Option ℕ → Dict (Order F) → Dict (Order F)
  remove_order none d = d
  remove_order (some oid) d = erase oid d

  -- An empty text for the link is no link.
  unfoldable pub cancel_order : ℕ → Option ℕ → Option ℕ → PaperClient F → PaperClient F
  cancel_order symbol link order_id c = record c {
    open_orders = remove_order (cancel_target symbol link order_id c.open_orders) c.open_orders;
  }

  unfoldable pub ids_of : ℕ → Dict (Order F) → List ℕ
  ids_of symbol [] = []
  ids_of symbol ((oid, o) ∷ d) =
      if o.symbol == symbol then oid ∷ ids_of symbol d else ids_of symbol d

  unfoldable pub remove_all : List ℕ → Dict (Order F) → Dict (Order F)
  remove_all [] d = d
  remove_all (oid ∷ oids) d = remove_all oids (erase oid d)

  unfoldable pub cancel_all_orders : Option ℕ → PaperClient F → PaperClient F
  cancel_all_orders none c = record c { open_orders = [] }
  cancel_all_orders (some symbol) c = record c {
    open_orders = remove_all (ids_of symbol c.open_orders) c.open_orders;
  }

  unfoldable pub get_open_orders : Option ℕ → PaperClient F → List (Order F)
  get_open_orders none c = values c.open_orders
  get_open_orders (some symbol) c = keep (λ o. o.symbol == symbol) (values c.open_orders)

  unfoldable pub get_execution_list :
      ℕ → Option ℕ → Option ℕ → ℕ → PaperClient F → List (Execution F)
  get_execution_list symbol order_id link n c =
      let of_symbol = keep (λ e. e.symbol == symbol) c.executions in
      let of_order = keep_if order_id (λ k e. e.order_id == k) of_symbol in
      last_items n (keep_if link (λ k e. e.order_link_id == k) of_order)
