-- ===== src/Paper/Replay.antt =====
-- Runs of the spot engine: calls in any order, what they keep, and what a restart reads back.
use botik.Base.{
  ℕ, ◌≡◌, refl, ap, ◌∙◌, true, Option, none, some, List, [], ◌∷◌, All, ◌+◌, arith, Dict, lookup,
  lookup-insert, lookup-erase, lookup-empty,
}
use botik.Base.Float.{Float, nought}
use botik.Paper.Policy.{Action, Policy, Reason}
use botik.Paper.Rows.{Holding, HoldingRow, Db, Engine, Call}
use botik.Paper.Spot.{
  fee_rate, or_zero, bought_row, write_buy, buy, write_sell, sell, marked_row, update_holding_pnl,
  position_of, mark, sell_on, tick_found, on_price_tick, loaded, load_rows, new_engine, or_default,
}

-- A call of the engine.
pub data Op (F : Type 0) : Type 0 where
  buying : Call → (symbol : ℕ) (qty entry_price stop_loss take_profit : F) → Op F
  selling : Call → (symbol : ℕ) (exit_price : F) → Reason → Op F
  ticking : Call → (symbol : ℕ) (price : F) → Op F

module _ {F : Type 0} where
  abbrev pub call_of : Op F → Call
  call_of (Op.buying c k q p s t) = c
  call_of (Op.selling c k p r) = c
  call_of (Op.ticking c k p) = c

  -- The database answered.
  abbrev pub IsUp : Op F → Type 0
  IsUp o = (call_of o).db_up ≡ true

module _ {F : Type 0} ⦃fl : Float F⦄ where
  unfoldable pub apply : Policy F → Op F → Engine F → Engine F
  apply policy (Op.buying c k q p s t) e = (buy c k q p s t e).0
  apply policy (Op.selling c k p r) e = (sell c k p r e).0
  apply policy (Op.ticking c k p) e = (on_price_tick policy c k p e).0

  unfoldable pub replay : Policy F → List (Op F) → Engine F → Engine F
  replay policy [] e = e
  replay policy (o ∷ os) e = replay policy os (apply policy o e)

  -- The quantity, the entry price, the value and the fee of a holding, and of a row.
  abbrev pub of_holding : Option (Holding F) → Option (F × F × F × F)
  of_holding none = none
  of_holding (some h) = some (h.qty, h.avg_entry_price, h.purchase_value_usdt, h.entry_fee)

  abbrev pub of_row : Option (HoldingRow F) → Option (F × F × F × F)
  of_row none = none
  of_row (some r) =
      some (
        r.free_qty,
        r.avg_entry_price,
        r.purchase_value_usdt,
        fl.mul r.purchase_value_usdt fee_rate,
      )

  abbrev levels_both : Option F → Option F → Option (F × F)
  levels_both (some s) (some t) = some (s, t)
  levels_both _ _ = none

  abbrev pub levels_of : Option (Holding F) → Option (F × F)
  levels_of none = none
  levels_of (some h) = levels_both h.stop_loss h.take_profit

  -- The row and the protection of a symbol say what its holding says.
  abbrev pub IsMirrored : Engine F → ℕ → Type 0
  IsMirrored e k =
      (of_row (lookup k e.db.spot_holdings) ≡ of_holding (lookup k e.holdings))
      × (lookup k e.protection ≡ levels_of (lookup k e.holdings))

  module _ (e : Engine F) (h : (k : ℕ) → IsMirrored e k) (c : Call) (up : c.db_up ≡ true) where
    buy-IsMirrored : (j : ℕ) (q p s t : F) (k : ℕ) → IsMirrored (buy c j q p s t e).0 k
    unfolding buy write_buy bought_row
    buy-IsMirrored j q p s t k = grind (arith, lookup-insert, h k, h j, up)

    sell-IsMirrored : (j : ℕ) (p : F) (r : Reason) (k : ℕ) → IsMirrored (sell c j p r e).0 k
    unfolding sell write_sell
    sell-IsMirrored j p r k = grind (arith, lookup-erase, h k, up)

    mark-IsMirrored :
        (j : ℕ) (p : F) (a : Holding F)
        → lookup j e.holdings ≡ some a
        → (k : ℕ) → IsMirrored (mark c j p a e) k
    unfolding mark update_holding_pnl marked_row
    mark-IsMirrored j p a ea k = grind (arith, lookup-insert, h k, h j, up)

    sell_on-IsMirrored :
        (j : ℕ) (p : F) (r : Reason) (a : Action) (k : ℕ) → IsMirrored (sell_on c j p r e a).0 k
    unfolding sell_on
    sell_on-IsMirrored j p r Action.close_all k = sell-IsMirrored j p r k
    sell_on-IsMirrored j p r Action.hold k = h k
    sell_on-IsMirrored j p r Action.close_partial k = h k
    sell_on-IsMirrored j p r Action.add_more k = h k
    sell_on-IsMirrored j p r Action.hedge k = h k

  module _ (e : Engine F) (h : (k : ℕ) → IsMirrored e k) (c : Call) (up : c.db_up ≡ true) where
    found-IsMirrored :
        (policy : Policy F) (j : ℕ) (p : F) (found : Option (Holding F))
        → lookup j e.holdings ≡ found
        → (k : ℕ) → IsMirrored (tick_found policy c j p e found).0 k
    unfolding tick_found
    found-IsMirrored policy j p none ef k = h k
    found-IsMirrored policy j p (some a) ef k =
        let d =
          policy c.now_ms
            (position_of j p (or_default (nought, nought) (lookup j e.protection)) a) in
        sell_on-IsMirrored (mark c j p a e) (mark-IsMirrored e h c up j p a ef) c up j p d.reason
          d.action k

    tick-IsMirrored :
        (policy : Policy F) (j : ℕ) (p : F) (k : ℕ) → IsMirrored (on_price_tick policy c j p e).0 k
    unfolding on_price_tick
    tick-IsMirrored policy j p k = found-IsMirrored policy j p (lookup j e.holdings) refl k

  apply-IsMirrored :
      (policy : Policy F) (o : Op F)
      → IsUp o
      → (e : Engine F) → ((k : ℕ) → IsMirrored e k)
      → (k : ℕ) → IsMirrored (apply policy o e) k
  unfolding apply
  apply-IsMirrored policy (Op.buying c j q p s t) up e h k = buy-IsMirrored e h c up j q p s t k
  apply-IsMirrored policy (Op.selling c j p r) up e h k = sell-IsMirrored e h c up j p r k
  apply-IsMirrored policy (Op.ticking c j p) up e h k = tick-IsMirrored e h c up policy j p k

  replay-IsMirrored :
      (policy : Policy F) (os : List (Op F))
      → All IsUp os
      → (e : Engine F) → ((k : ℕ) → IsMirrored e k)
      → (k : ℕ) → IsMirrored (replay policy os e) k
  unfolding replay
  replay-IsMirrored policy [] up e h k = h k
  replay-IsMirrored policy (o ∷ os) (up, ups) e h k =
      replay-IsMirrored policy os ups (apply policy o e) (apply-IsMirrored policy o up e h) k

  abbrev pub empty_db : Db F
  empty_db = record { spot_holdings = []; spot_orders = []; spot_fills = [] }

  new-IsMirrored : (c : Call) (b : F) (k : ℕ) → IsMirrored (new_engine c b empty_db) k
  unfolding new_engine load_rows
  new-IsMirrored c b k = ground (
    arith,
    lookup-empty {V = Holding F} k,
    lookup-empty {V = HoldingRow F} k,
    lookup-empty {V = F × F} k,
  )

  -- An engine that ran on a database with no holdings at first, and could always write to it, has a
  -- row for a symbol exactly when it holds it, with its quantity, entry price, value and fee, and
  -- a protection with the levels that it was bought with.
  pub replay_mirrors :
      (policy : Policy F) (c : Call) (b : F) (os : List (Op F))
      → All IsUp os
      → (k : ℕ) → IsMirrored (replay policy os (new_engine c b empty_db)) k
  replay_mirrors policy c b os up =
      replay-IsMirrored policy os up (new_engine c b empty_db) (new-IsMirrored c b)

  -- What is read back of the numbers of a row.
  abbrev pub read_back : Option (F × F × F × F) → Option (F × F × F × F)
  read_back none = none
  read_back (some (q, a, v, f)) =
      some (or_zero q, or_zero a, or_zero v, fl.mul (or_zero v) fee_rate)

  lookup-load_rows :
      (c : Call) (n k : ℕ) (rows : Dict (HoldingRow F))
      → of_holding (lookup k (load_rows c n rows)) ≡ read_back (of_row (lookup k rows))
  unfolding load_rows loaded lookup
  lookup-load_rows c n k [] = refl
  lookup-load_rows c n k ((j, r) ∷ rows) = ground (arith, lookup-load_rows c (1 + n) k rows)

  lookup-new_engine :
      (c : Call)
      → c.db_up ≡ true
      → (b : F) (db : Db F) (k : ℕ)
      → of_holding (lookup k (new_engine c b db).holdings)
        ≡ read_back (of_row (lookup k db.spot_holdings))
  unfolding new_engine
  lookup-new_engine c up b db k = simp (up, lookup-load_rows c 0 k db.spot_holdings)

  -- A restart after a run whose calls could all write to the database holds the same symbols, with
  -- the quantities, entry prices and values that they had, and the fee of their values (each number
  -- as `x or 0` reads it).
  pub restart_reloads :
      (policy : Policy F) (c c' : Call) (b b' : F) (os : List (Op F))
      → All IsUp os
      → c'.db_up ≡ true
      → (k : ℕ)
      → (let e = replay policy os (new_engine c b empty_db) in
          of_holding (lookup k (new_engine c' b' e.db).holdings)
          ≡ read_back (of_holding (lookup k e.holdings)))
  restart_reloads policy c c' b b' os up up' k =
      let e = replay policy os (new_engine c b empty_db) in
      lookup-new_engine c' up' b' e.db k
      ∙ ap (λ n. read_back n) (replay_mirrors policy c b os up k).0
