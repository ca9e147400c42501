-- ===== src/Paper/Ticks.antt =====
-- What a tick does to the holding of its symbol, in a run and after a restart.
use botik.Base.{
  ℕ, ◌≡◌, refl, ap, ◌∙◌, Bool, true, false, ◌&&◌, ◌||◌, Option, none, some, List, All, ltb, leb,
  ◌-◌, arith, lookup, insert, lookup-insert, lookup-erase, lookup-empty,
}
use botik.Base.Float.{Float, FloatOrder, IsNumber, nought}
use botik.Paper.Policy.{on_tick, stop_reached, target_reached}
use botik.Paper.Rows.{Holding, Db, Engine, Call, Trade}
use botik.Paper.Spot.{
  or_zero, trade_of, sell, position_of, mark, sell_on, tick_found, on_price_tick, new_engine,
  or_default,
}
use botik.Paper.Replay.{
  Op, IsUp, replay, of_holding, levels_of, read_back, empty_db, replay_mirrors, restart_reloads,
}

module _ {F : Type 0} ⦃fl : Float F⦄ where
  -- The quantity that a call sold.
  abbrev pub sold : Option (Trade F) → Option F
  sold none = none
  sold (some t) = some t.qty

  -- The levels or the time of the policy are reached.
  abbrev pub is_due : ℕ → ℕ → F × F → F → ℕ → Bool
  is_due limit now levels price opened =
      fl.le price levels.0 || (fl.le levels.1 price || (ltb 0 limit && leb limit (now - opened)))

  -- What is left of a holding, and what was sold.
  abbrev pub after_tick : Bool → F → Holding F → Option (Holding F) × Option F
  after_tick true price h = (none, some h.qty)
  after_tick false price h = (some (record h { current_price = price }), none)

  abbrev pub all_sold : F → Option (Holding F) × Option F
  all_sold q = (none, some q)

  found_lem :
      (limit : ℕ) (c : Call) (k : ℕ) (price : F) (e : Engine F) (h : Holding F)
      → (let r = tick_found (on_tick limit) c k price e (some h) in
          let levels = or_default (nought, nought) (lookup k e.protection) in
          (lookup k r.0.holdings, sold r.1)
          ≡ after_tick (is_due limit c.now_ms levels price h.opened_at_ms) price h)
  unfolding tick_found on_tick stop_reached target_reached position_of mark sell_on sell trade_of
  found_lem limit c k price e h =
      let levels = or_default (nought, nought) (lookup k e.protection) in
      let kept = record h { current_price = price } in
      ground (arith, lookup-insert k k kept e.holdings, lookup-erase k k (insert k kept e.holdings))

  tick_lem :
      (limit : ℕ) (c : Call) (k : ℕ) (price : F) (e : Engine F) (h : Holding F)
      → lookup k e.holdings ≡ some h
      → (let r = on_price_tick (on_tick limit) c k price e in
          let levels = or_default (nought, nought) (lookup k e.protection) in
          (lookup k r.0.holdings, sold r.1)
          ≡ after_tick (is_due limit c.now_ms levels price h.opened_at_ms) price h)
  unfolding on_price_tick
  tick_lem limit c k price e h eh = rw eh (found_lem limit c k price e h)

  -- In a run on a database with no holdings at first, and that always answered, a tick of a symbol
  -- that is held with the levels (stop, target) sells all of it when the price is at or under the
  -- stop, at or over the target, or the time of the policy is up, and otherwise only marks the
  -- price.
  pub tick_closes :
      (limit : ℕ) (c c' : Call) (b : F) (os : List (Op F))
      → All IsUp os
      → (k : ℕ) (price : F) (h : Holding F) (levels : F × F)
      → (let e = replay (on_tick limit) os (new_engine c b empty_db) in lookup k e.holdings)
        ≡ some h
      → levels_of (some h) ≡ some levels
      → (let e = replay (on_tick limit) os (new_engine c b empty_db) in
          let r = on_price_tick (on_tick limit) c' k price e in (lookup k r.0.holdings, sold r.1))
        ≡ after_tick (is_due limit c'.now_ms levels price h.opened_at_ms) price h
  tick_closes limit c c' b os up k price h levels eh el =
      let e = replay (on_tick limit) os (new_engine c b empty_db) in
      let kept = (replay_mirrors (on_tick limit) c b os up k).1 ∙ ap (λ x. levels_of x) eh ∙ el in
      tick_lem limit c' k price e h eh
      ∙ ap
          (λ l.
            after_tick (is_due limit c'.now_ms (or_default (nought, nought) l) price h.opened_at_ms)
              price h)
          kept

  module _ (laws : FloatOrder F) where
    open laws use {lit_number, le_total}

    due_at_nought :
        (limit now opened : ℕ) (price : F)
        → IsNumber price
        → is_due limit now (nought, nought) price opened ≡ true
    due_at_nought limit now opened price n =
        ground (arith, le_total price nought n (lit_number 0 0))

    first_tick_lem :
        (limit : ℕ) (c' c'' : Call) (b' : F) (db : Db F) (k : ℕ) (price : F)
        → IsNumber price
        → (q : F × F × F × F) (found : Option (Holding F))
        → lookup k (new_engine c' b' db).holdings ≡ found
        → of_holding found ≡ some q
        → (let r = on_price_tick (on_tick limit) c'' k price (new_engine c' b' db) in
            (lookup k r.0.holdings, sold r.1))
          ≡ all_sold q.0
    unfolding new_engine
    first_tick_lem limit c' c'' b' db k price n q none ef same = ground arith
    first_tick_lem limit c' c'' b' db k price n q (some h') ef same =
        let due = due_at_nought limit c''.now_ms h'.opened_at_ms price n in
        tick_lem limit c'' k price (new_engine c' b' db) h' ef
        ∙ ground (arith, due, lookup-empty {V = F × F} k, same)

    -- After a restart the first tick of a symbol sells what was held of it, at any price that is a
    -- number: the levels that it was bought with are not read back, and the policy is asked with
    -- the levels 0 and 0.
    pub restart_sells :
        (limit : ℕ) (c c' c'' : Call) (b b' : F) (os : List (Op F))
        → All IsUp os
        → c'.db_up ≡ true
        → (k : ℕ) (price : F) → IsNumber price
        → (h : Holding F)
        → (let e = replay (on_tick limit) os (new_engine c b empty_db) in lookup k e.holdings)
          ≡ some h
        → (let e = replay (on_tick limit) os (new_engine c b empty_db) in
            let r = on_price_tick (on_tick limit) c'' k price (new_engine c' b' e.db) in
            (lookup k r.0.holdings, sold r.1))
          ≡ all_sold (or_zero h.qty)
    restart_sells limit c c' c'' b b' os up up' k price n h eh =
        let e = replay (on_tick limit) os (new_engine c b empty_db) in
        first_tick_lem limit c' c'' b' e.db k price n _ (lookup k (new_engine c' b' e.db).holdings)
          refl
          (restart_reloads (on_tick limit) c c' b b' os up up' k
            ∙ ap (λ x. read_back (of_holding x)) eh)
