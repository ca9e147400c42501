-- ===== src/Client/Cancel.antt =====
-- Runs of the paper client: what cancellations do, and that an order that rests is never filled.
use botik.Base.{
  ℕ, ◌+◌, ◌≤◌, ◌≡◌, refl, ◌∙◌, ◌≢◌, ◌⊎◌, Bool, false, Option, none, some, List, [], ◌∷◌, All, ◌==◌,
  arith, Dict, lookup, erase, lookup-erase, lookup-empty, Bool-cases, inl, inr,
}
use botik.Base.Float.{Float}
use botik.Market.State.{TradingState}
use botik.Client.Orders.{
  Order, PaperClient, float_of, marketable, settle_order, place_order, cancel_target, remove_order,
  cancel_order, remove_all, ids_of, cancel_all_orders,
}
use botik.Client.Account.{
  place_order_settles, resting_of, resting, executed, fills, settled, IsUnused,
}

pub data ClientOp (F : Type 0) : Type 0 where
  placing : TradingState F → (exec_id : ℕ) → Order F → ClientOp F
  cancelling : (symbol : ℕ) (order_link_id order_id : Option ℕ) → ClientOp F
  clearing : (symbol : Option ℕ) → ClientOp F

abbrev or_false : Option Bool → Bool
or_false none = false
or_false (some b) = b

module _ {F : Type 0} ⦃fl : Float F⦄ where
  -- A call that raises leaves the client as it was.
  abbrev placed_or : PaperClient F → Option (PaperClient F) → PaperClient F
  placed_or c none = c
  placed_or c (some d) = d

  unfoldable pub apply : ClientOp F → PaperClient F → PaperClient F
  apply (ClientOp.placing s n o) c = placed_or c (place_order s n o c)
  apply (ClientOp.cancelling symbol link oid) c = cancel_order symbol link oid c
  apply (ClientOp.clearing symbol) c = cancel_all_orders symbol c

  unfoldable pub run : List (ClientOp F) → PaperClient F → PaperClient F
  run [] c = c
  run (op ∷ ops) c = run ops (apply op c)

  -- The order number of a placement is not in use.
  abbrev IsNew : ClientOp F → PaperClient F → Type 0
  IsNew (ClientOp.placing s n o) c = IsUnused o.order_id c
  IsNew (ClientOp.cancelling symbol link oid) c = Unit
  IsNew (ClientOp.clearing symbol) c = Unit

  abbrev pub AreNew : List (ClientOp F) → PaperClient F → Type 0
  AreNew [] c = Unit
  AreNew (op ∷ ops) c = IsNew op c × AreNew ops (apply op c)

  removed :
      (k : ℕ) (t : Option ℕ) (d : Dict (Order F))
      → resting_of (lookup k (remove_order t d)) ≤ resting_of (lookup k d)
  unfolding remove_order
  removed k none d = omega arith
  removed k (some j) d = ground (arith, lookup-erase k j d)

  removed_all :
      (k : ℕ) (ks : List ℕ) (d : Dict (Order F))
      → resting_of (lookup k (remove_all ks d)) ≤ resting_of (lookup k d)
  unfolding remove_all
  removed_all k [] d = omega arith
  removed_all k (j ∷ ks) d = ground (arith, removed_all k ks (erase j d), lookup-erase k j d)

  placed_lem :
      (s : TradingState F) (n : ℕ) (o : Order F) (c : PaperClient F)
      → (placed_or c (place_order s n o c) ≡ c)
        ⊎ (placed_or c (place_order s n o c)
            ≡ settle_order n o (or_false (marketable s c.fill_on_cross o (float_of o.price))) c)
  unfolding place_order
  placed_lem s n o c = ground arith

  apply_count :
      (op : ClientOp F) (c : PaperClient F) (k : ℕ)
      → IsNew op c
      → executed k c + resting k c ≤ 1
      → executed k (apply op c) + resting k (apply op c) ≤ 1
  unfolding apply cancel_order cancel_all_orders
  apply_count (ClientOp.placing s n o) c k new h = elim (placed_lem s n o c) [
    | inl e ↦ rw e h
    | inr e ↦
        let b = or_false (marketable s c.fill_on_cross o (float_of o.price)) in
        elim (Bool-cases (o.order_id == k)) [
          | inl t ↦
              let same : o.order_id ≡ k = ground arith in
              let u : IsUnused k c = rw⁻¹ same new in
              rw e (ground (arith, t, settled n k o b c, u, h))
          | inr t ↦ rw e (ground (arith, t, settled n k o b c, h))
        ]
  ]
  apply_count (ClientOp.cancelling symbol link oid) c k new h =
      omega (arith, removed k (cancel_target symbol link oid c.open_orders) c.open_orders)
  apply_count (ClientOp.clearing none) c k new h = ground (arith, lookup-empty {V = Order F} k)
  apply_count (ClientOp.clearing (some symbol)) c k new h =
      omega (arith, removed_all k (ids_of symbol c.open_orders) c.open_orders)

  run_count :
      (ops : List (ClientOp F)) (c : PaperClient F) (k : ℕ)
      → AreNew ops c
      → executed k c + resting k c ≤ 1
      → executed k (run ops c) + resting k (run ops c) ≤ 1
  unfolding run
  run_count [] c k new h = h
  run_count (op ∷ ops) c k (n, new) h = run_count ops (apply op c) k new (apply_count op c k n h)

  abbrev pub new_client : Bool → PaperClient F
  new_client fill_on_cross = record {
    fill_on_cross = fill_on_cross;
    open_orders = [];
    executions = [];
  }

  -- In a run of a new client whose placements have new numbers, no order is executed twice, and
  -- none is both executed and open.
  pub run_accounts :
      (ops : List (ClientOp F)) (b : Bool)
      → AreNew ops (new_client b)
      → (k : ℕ) → executed k (run ops (new_client b)) + resting k (run ops (new_client b)) ≤ 1
  run_accounts ops b new k =
      run_count ops (new_client b) k new (ground (arith, lookup-empty {V = Order F} k))

  -- The call does not place the order.
  abbrev pub IsOther : ℕ → ClientOp F → Type 0
  IsOther k (ClientOp.placing s n o) = o.order_id ≢ k
  IsOther k (ClientOp.cancelling symbol link oid) = Unit
  IsOther k (ClientOp.clearing symbol) = Unit

  apply-executed :
      (op : ClientOp F) (c : PaperClient F) (k : ℕ)
      → IsOther k op
      → executed k (apply op c) ≡ executed k c
  unfolding apply cancel_order cancel_all_orders
  apply-executed (ClientOp.placing s n o) c k other = elim (placed_lem s n o c) [
    | inl e ↦ rw e refl
    | inr e ↦
        let b = or_false (marketable s c.fill_on_cross o (float_of o.price)) in
        rw e (ground (arith, other, settled n k o b c))
  ]
  apply-executed (ClientOp.cancelling symbol link oid) c k other = refl
  apply-executed (ClientOp.clearing none) c k other = refl
  apply-executed (ClientOp.clearing (some symbol)) c k other = refl

  run-executed :
      (ops : List (ClientOp F)) (c : PaperClient F) (k : ℕ)
      → All (IsOther k) ops
      → executed k (run ops c) ≡ executed k c
  unfolding run
  run-executed [] c k others = refl
  run-executed (op ∷ ops) c k (other, others) =
      run-executed ops (apply op c) k others ∙ apply-executed op c k other

  -- An order that is not filled when it is placed never is, whatever is called and wherever the
  -- market goes: after a new placement that does not fill, and calls that do not place it again,
  -- there is no execution of it.
  pub resting_never_fills :
      (s : TradingState F) (n : ℕ) (o : Order F) (c c' : PaperClient F) (b : Bool)
      → IsUnused o.order_id c
      → marketable s c.fill_on_cross o (float_of o.price) ≡ some b
      → place_order s n o c ≡ some c'
      → fills b o ≡ false
      → (ops : List (ClientOp F)) → All (IsOther o.order_id) ops
      → executed o.order_id (run ops c') ≡ 0
  resting_never_fills s n o c c' b unused m placed rests ops others =
      let here = (place_order_settles s n o c c' b unused m placed o.order_id).0 in
      run-executed ops c' o.order_id others ∙ here ∙ ground (arith, rests)
