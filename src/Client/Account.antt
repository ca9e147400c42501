-- ===== src/Client/Account.antt =====
-- What becomes of an order of the paper client.
use botik.Base.{
  ℕ, ◌+◌, ◌≡◌, refl, Bool, not, ◌&&◌, ◌||◌, Option, none, some, [], ◌∷◌, length, length-append,
  keep, keep-append, if◌then◌else◌, ◌==◌, arith, lookup, lookup-insert, Bool-cases, inl, inr,
}
use botik.Base.Float.{Float}
use botik.Market.State.{TradingState}
use botik.Client.Orders.{
  Order, Execution, PaperClient, is_market, post_only, float_of, marketable, record_execution,
  settle_order, place_order,
}

module _ {F : Type 0} where
  abbrev pub resting_of : Option (Order F) → ℕ
  resting_of none = 0
  resting_of (some o) = 1

  -- How often the order is open, and how often it was executed.
  abbrev pub resting : ℕ → PaperClient F → ℕ
  resting k c = resting_of (lookup k c.open_orders)

  abbrev pub executed : ℕ → PaperClient F → ℕ
  executed k c = length (keep (λ e. e.order_id == k) c.executions)

module _ {F : Type 0} ⦃fl : Float F⦄ where
  -- Whether a placement that can be filled is.
  abbrev pub fills : Bool → Order F → Bool
  fills can_fill o = can_fill && (not (post_only o.time_in_force) || is_market o.order_type)

  executed_record :
      (n k : ℕ) (o : Order F) (c : PaperClient F)
      → executed k (record_execution n o c) ≡ executed k c + (if o.order_id == k then 1 else 0)
  unfolding record_execution
  executed_record n k o c =
      let e : Execution F = record {
        symbol = o.symbol;
        side = o.side;
        order_id = o.order_id;
        order_link_id = o.order_link_id;
        exec_id = n;
        exec_qty = o.qty;
        exec_price = o.price;
      } in
      let p : Execution F → Bool = λ x. x.order_id == k in
      ground (
        arith,
        keep-append p c.executions (e ∷ []),
        length-append (keep p c.executions) (keep p (e ∷ [])),
      )

  pub settled :
      (n k : ℕ) (o : Order F) (b : Bool) (c : PaperClient F)
      → (executed k (settle_order n o b c)
          ≡ executed k c + (if fills b o && (o.order_id == k) then 1 else 0))
        × (resting k (settle_order n o b c)
            ≡ (if not (fills b o) && (o.order_id == k) then 1 else resting k c))
  unfolding settle_order record_execution
  settled n k o b c = elim (Bool-cases (fills b o)) [
    | inl t ↦ rw t (executed_record n k o c, refl)
    | inr t ↦ rw t (omega arith, ground (arith, lookup-insert k o.order_id o c.open_orders))
  ]

  -- A number that is in use neither for an open order nor for an execution.
  abbrev pub IsUnused : ℕ → PaperClient F → Type 0
  IsUnused k c = (resting k c ≡ 0) × (executed k c ≡ 0)

  -- A new order that is placed is executed once, when it is a market order or may take the price
  -- that it crosses, and is open otherwise; nothing changes for any other order.
  pub place_order_settles :
      (s : TradingState F) (n : ℕ) (o : Order F) (c c' : PaperClient F) (b : Bool)
      → IsUnused o.order_id c
      → marketable s c.fill_on_cross o (float_of o.price) ≡ some b
      → place_order s n o c ≡ some c'
      → (k : ℕ)
      → (executed k c' ≡ (if o.order_id == k then (if fills b o then 1 else 0) else executed k c))
        × (resting k c' ≡ (if o.order_id == k then (if fills b o then 0 else 1) else resting k c))
  unfolding place_order
  place_order_settles s n o c c' b unused m placed k =
      let same : settle_order n o b c ≡ c' = ground arith in
      let here = settled n k o b c in
      rw⁻¹ same (elim (Bool-cases (o.order_id == k)) [
        | inl t ↦
            let e : o.order_id ≡ k = ground arith in
            let u : IsUnused k c = rw⁻¹ e unused in ground (arith, t, here, u)
        | inr t ↦ ground (arith, t, here)
      ])
