-- ===== src/Recon/Fills.antt =====
-- `_symbols` and `_reconcile_fills` of src/botik/execution/reconciliation_service.py.
use botik.Base.{
  ℕ, zero, suc, ◌==◌, Bool, true, false, ◌||◌, Option, none, some, List, [], ◌∷◌, ◌++◌,
  if◌then◌else◌,
}
use botik.Base.Float.{Float}
use botik.Recon.Tables.{Fill, FundingEvent, insert_fill, insert_futures_funding_event}
use botik.Recon.Service.{Num, Answer, Service, Recon, Step, ◌>>◌, count, write, float_of, first_of}

-- An execution of the exchange: `none` for an empty text, times and indices as `_i` reads them.
pub record Execution (F : Type 0) : Type 0 where
  pub exec_id : Option ℕ
  pub symbol : Option ℕ
  pub side : Option ℕ
  pub order_id : Option ℕ
  pub order_link_id : Option ℕ
  pub exec_price : Num F
  pub price : Num F
  pub exec_qty : Num F
  pub qty : Num F
  pub exec_fee : Num F
  pub exec_time_ms : ℕ
  pub position_idx : Option ℕ
  pub funding_rate : Num F
  -- the lower case of `execType` has `funding` in it
  pub is_funding : Bool

unfoldable pub is_in : ℕ → List ℕ → Bool
is_in a [] = false
is_in a (b ∷ bs) = (a == b) || is_in a bs

unfoldable pub distinct_symbols : List (Option ℕ) → List ℕ → List ℕ
distinct_symbols [] out = out
distinct_symbols (none ∷ raw) out = distinct_symbols raw out
distinct_symbols (some a ∷ raw) out =
    distinct_symbols raw (if is_in a out then out else out ++ (a ∷ []))

-- `out[:limit]`
unfoldable pub first_n : ℕ → List ℕ → List ℕ
first_n zero out = []
first_n (suc n) [] = []
first_n (suc n) (a ∷ out) = a ∷ first_n n out

unfoldable pub symbols_of : Service → List ℕ
symbols_of v = first_n v.symbols_limit (distinct_symbols v.managed_symbols [])

-- `item.get("symbol") or symbol`
abbrev or_symbol : Option ℕ → ℕ → ℕ
or_symbol none b = b
or_symbol (some a) b = a

module _ {F : Type 0} ⦃fl : Float F⦄ where
  abbrev number_or_none : Num F → Option F
  number_or_none Num.no_num = none
  number_or_none Num.wrong_num = some (float_of Num.wrong_num)
  number_or_none (Num.num x) = some x

  abbrev pub funding_of : ℕ → Execution F → FundingEvent F
  funding_of symbol e = record {
    symbol = or_symbol e.symbol symbol;
    side = e.side;
    position_idx = e.position_idx;
    funding_rate = number_or_none e.funding_rate;
    funding_fee = float_of e.exec_fee;
    funding_time_ms = e.exec_time_ms;
  }

  unfoldable pub store_funding : ℕ → Execution F → Recon F → Recon F
  store_funding symbol e s =
      let (inserted, t) = insert_futures_funding_event (funding_of symbol e) s.tables in
      let s' = write (λ _. t) s in
      if inserted
      then count (λ m. record m { funding_events_seen = suc m.funding_events_seen }) s'
      else s'

  abbrev pub fill_of : ℕ → Execution F → Fill F
  fill_of symbol e = record {
    symbol = or_symbol e.symbol symbol;
    order_link_id = e.order_link_id;
    order_id = e.order_id;
    price = float_of (first_of e.exec_price e.price);
    qty = float_of (first_of e.exec_qty e.qty);
    fee = float_of e.exec_fee;
    exec_time_ms = e.exec_time_ms;
  }

  unfoldable pub store_fill : Bool → ℕ → ℕ → Execution F → Recon F → Recon F
  store_fill linear symbol exec_id e s =
      let s' = write (insert_fill exec_id (fill_of symbol e)) s in
      count (λ m. record m { fills_seen = suc m.fills_seen })
        (if linear then (if e.is_funding then store_funding symbol e s' else s') else s')

  unfoldable pub named_fill : Bool → ℕ → Option ℕ → Execution F → Recon F → Recon F
  named_fill linear symbol none e s = s
  named_fill linear symbol (some exec_id) e s = store_fill linear symbol exec_id e s

  unfoldable pub take_fill : Bool → ℕ → Execution F → Recon F → Recon F
  take_fill linear symbol e s = named_fill linear symbol e.exec_id e s

  unfoldable pub take_fills : Bool → ℕ → List (Execution F) → Recon F → Recon F
  take_fills linear symbol [] s = s
  take_fills linear symbol (e ∷ es) s = take_fills linear symbol es (take_fill linear symbol e s)

  unfoldable pub symbol_fills : Bool → ℕ → Answer (List (Execution F)) → Step F
  symbol_fills linear symbol Answer.raises s = (true, s)
  symbol_fills linear symbol Answer.refuses s = (false, s)
  symbol_fills linear symbol (Answer.answers es) s = (false, take_fills linear symbol es s)

  unfoldable pub symbols_fills : Bool → (ℕ → Answer (List (Execution F))) → List ℕ → Step F
  symbols_fills linear ask [] s = (false, s)
  symbols_fills linear ask (a ∷ symbols) s =
      (symbol_fills linear a (ask a) >> symbols_fills linear ask symbols) s

  unfoldable pub reconcile_fills : Service → (ℕ → Answer (List (Execution F))) → Step F
  reconcile_fills v ask = symbols_fills v.linear ask (symbols_of v)
