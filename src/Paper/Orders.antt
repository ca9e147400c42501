-- ===== src/Paper/Orders.antt =====
-- What the orders of the spot engine say of its fills, in every run.
use botik.Base.{
  ℕ, ◌≡◌, refl, sym, ◌≢◌, Option, none, some, List, [], ◌∷◌, All, arith, lookup, ◌⊎◌, inl, inr,
}
use botik.Base.Float.{Float, nought}
use botik.Paper.Policy.{Action, Reason, Policy}
use botik.Paper.Rows.{Holding, OrderSide, OrderRow, FillRow, Db, Engine, Call}
use botik.Paper.Spot.{
  order_row, fill_row, write_buy, buy, write_sell, sell, mark, update_holding_pnl, sell_on,
  tick_found, on_price_tick,
}
use botik.Paper.Replay.{Op, call_of, apply, replay}

module _ {F : Type 0} ⦃fl : Float F⦄ where
  -- The orders with the number of a fill have its price.
  abbrev pub AgreesWith : List (OrderRow F) → FillRow F → Type 0
  AgreesWith os f = All (λ o. o.order_link_id ≡ f.order_link_id → o.price ≡ f.exec_price) os

  abbrev pub Agrees : Db F → Type 0
  Agrees db = All (AgreesWith db.spot_orders) db.spot_fills

  -- Neither an order nor a fill has the number yet.
  abbrev pub IsUnused : ℕ → Db F → Type 0
  IsUnused n db =
      All (λ o. o.order_link_id ≢ n) db.spot_orders × All (λ f. f.order_link_id ≢ n) db.spot_fills

  -- `uuid4` gives numbers that are not in use.
  abbrev pub AreFresh : Policy F → List (Op F) → Engine F → Type 0
  AreFresh policy [] e = Unit
  AreFresh policy (o ∷ os) e =
      IsUnused ((call_of o).uuid 0) e.db
      × IsUnused ((call_of o).uuid 1) e.db
      × AreFresh policy os (apply policy o e)

  add_order_lem :
      (o : OrderRow F) (os : List (OrderRow F)) (fs : List (FillRow F))
      → All (λ f. f.order_link_id ≢ o.order_link_id) fs
      → All (AgreesWith os) fs
      → All (AgreesWith (o ∷ os)) fs
  add_order_lem o os [] new h = tt
  add_order_lem o os (f ∷ fs) (n, new) (a, h) =
      (((λ e. elim (n (sym e)) [ ]), a), add_order_lem o os fs new h)

  unused_agrees_lem :
      (f : FillRow F) (os : List (OrderRow F))
      → All (λ o. o.order_link_id ≢ f.order_link_id) os
      → AgreesWith os f
  unused_agrees_lem f [] new = tt
  unused_agrees_lem f (o ∷ os) (n, new) = ((λ e. elim (n e) [ ]), unused_agrees_lem f os new)

  -- What a call writes.
  buy_db_lem :
      (c : Call) (k : ℕ) (q p s t : F) (e : Engine F)
      → ((buy c k q p s t e).0.db ≡ e.db)
        ⊎ ((buy c k q p s t e).0.db ≡ write_buy k q p (c.uuid 0) e.db)
  unfolding buy
  buy_db_lem c k q p s t e = ground arith

  abbrev held_qty : Option (Holding F) → F
  held_qty none = nought
  held_qty (some h) = h.qty

  sell_db_lem :
      (c : Call) (k : ℕ) (p : F) (r : Reason) (e : Engine F)
      → ((sell c k p r e).0.db ≡ e.db)
        ⊎ ((sell c k p r e).0.db ≡ write_sell c k (held_qty (lookup k e.holdings)) p e.db)
  unfolding sell
  sell_db_lem c k p r e = ground arith

  mark_db_lem :
      (c : Call) (k : ℕ) (p : F) (h : Holding F) (e : Engine F)
      → ((mark c k p h e).db.spot_orders ≡ e.db.spot_orders)
        × ((mark c k p h e).db.spot_fills ≡ e.db.spot_fills)
  unfolding mark update_holding_pnl
  mark_db_lem c k p h e = ground arith

  write_buy-Agrees :
      (k : ℕ) (q p : F) (n : ℕ) (db : Db F)
      → IsUnused n db
      → Agrees db
      → Agrees (write_buy k q p n db)
  unfolding write_buy
  write_buy-Agrees k q p n db unused h =
      add_order_lem (order_row k OrderSide.buy_side q p n) db.spot_orders db.spot_fills unused.1 h

  write_sell-Agrees :
      (c : Call) (k : ℕ) (q p : F) (db : Db F)
      → IsUnused (c.uuid 1) db
      → Agrees db
      → Agrees (write_sell c k q p db)
  unfolding write_sell
  write_sell-Agrees c k q p db unused h = (
    ((λ same. refl), unused_agrees_lem (fill_row c k q p) db.spot_orders unused.0),
    add_order_lem (order_row k OrderSide.sell_side q p (c.uuid 1)) db.spot_orders db.spot_fills
        unused.1 h,
  )

  buy-Agrees :
      (c : Call) (k : ℕ) (q p s t : F) (e : Engine F)
      → IsUnused (c.uuid 0) e.db
      → Agrees e.db
      → Agrees (buy c k q p s t e).0.db
  buy-Agrees c k q p s t e unused h = elim (buy_db_lem c k q p s t e) [
    | inl same ↦ rw same h
    | inr new ↦ rw new (write_buy-Agrees k q p (c.uuid 0) e.db unused h)
  ]

  sell-Agrees :
      (c : Call) (k : ℕ) (p : F) (r : Reason) (e : Engine F)
      → IsUnused (c.uuid 1) e.db
      → Agrees e.db
      → Agrees (sell c k p r e).0.db
  sell-Agrees c k p r e unused h = elim (sell_db_lem c k p r e) [
    | inl same ↦ rw same h
    | inr new ↦ rw new (write_sell-Agrees c k _ p e.db unused h)
  ]

  mark-Agrees :
      (c : Call) (k : ℕ) (p : F) (a : Holding F) (e : Engine F)
      → Agrees e.db
      → Agrees (mark c k p a e).db
  mark-Agrees c k p a e h = let same = mark_db_lem c k p a e in rw same.0 (rw same.1 h)

  mark-IsUnused :
      (c : Call) (k : ℕ) (p : F) (a : Holding F) (n : ℕ) (e : Engine F)
      → IsUnused n e.db
      → IsUnused n (mark c k p a e).db
  mark-IsUnused c k p a n e h = let same = mark_db_lem c k p a e in rw same.0 (rw same.1 h)

  sell_on-Agrees :
      (c : Call) (k : ℕ) (p : F) (r : Reason) (e : Engine F)
      → IsUnused (c.uuid 1) e.db
      → Agrees e.db
      → (a : Action) → Agrees (sell_on c k p r e a).0.db
  unfolding sell_on
  sell_on-Agrees c k p r e unused h Action.close_all = sell-Agrees c k p r e unused h
  sell_on-Agrees c k p r e unused h Action.hold = h
  sell_on-Agrees c k p r e unused h Action.close_partial = h
  sell_on-Agrees c k p r e unused h Action.add_more = h
  sell_on-Agrees c k p r e unused h Action.hedge = h

  found-Agrees :
      (policy : Policy F) (c : Call) (k : ℕ) (p : F) (e : Engine F)
      → IsUnused (c.uuid 1) e.db
      → Agrees e.db
      → (found : Option (Holding F)) → Agrees (tick_found policy c k p e found).0.db
  unfolding tick_found
  found-Agrees policy c k p e unused h none = h
  found-Agrees policy c k p e unused h (some a) =
      sell_on-Agrees c k p _ (mark c k p a e) (mark-IsUnused c k p a (c.uuid 1) e unused)
        (mark-Agrees c k p a e h) _

  apply-Agrees :
      (policy : Policy F) (o : Op F) (e : Engine F)
      → IsUnused ((call_of o).uuid 0) e.db
      → IsUnused ((call_of o).uuid 1) e.db
      → Agrees e.db
      → Agrees (apply policy o e).db
  unfolding apply on_price_tick
  apply-Agrees policy (Op.buying c k q p s t) e u v h = buy-Agrees c k q p s t e u h
  apply-Agrees policy (Op.selling c k p r) e u v h = sell-Agrees c k p r e v h
  apply-Agrees policy (Op.ticking c k p) e u v h =
      found-Agrees policy c k p e v h (lookup k e.holdings)

  pub replay-Agrees :
      (policy : Policy F) (os : List (Op F)) (e : Engine F)
      → AreFresh policy os e
      → Agrees e.db
      → Agrees (replay policy os e).db
  unfolding replay
  replay-Agrees policy [] e fresh h = h
  replay-Agrees policy (o ∷ os) e (u, v, fresh) h =
      replay-Agrees policy os (apply policy o e) fresh (apply-Agrees policy o e u v h)
