-- ===== src/Paper/FuturesRuns.antt =====
-- Runs of the futures engine of src/botik/execution/futures_paper.py, and what they never record.
use botik.Base.{if_kept, ℕ, ◌==◌, ◌≡◌, refl, Option, none, some, List, [], ◌∷◌, All, All-append}
use botik.Base.Float.{Float}
use botik.Paper.Policy.{Policy, Action, Reason, PositionSide}
use botik.Paper.Rows.{Call}
use botik.Paper.Futures.{
  Closing, TradeRow, FuturesDb, Loaded, close_trade, write_open, open_position, save_protection,
  update_mark_price, closing_of, hold_time, close_position, closing_for, closing_on, close_if,
  tick_row, tick_rows, on_price_tick,
}

-- A call of the engine.
pub data FuturesOp (F : Type 0) : Type 0 where
  opening : Call → (scope symbol : ℕ) → PositionSide → (entry_price qty : F) → FuturesOp F
  protecting : Call → (symbol : ℕ) → PositionSide → (sl tp : F) → FuturesOp F
  moving : Call → (symbol : ℕ) (mark_price : F) → FuturesOp F

module _ {F : Type 0} ⦃fl : Float F⦄ where
  unfoldable pub apply_futures : Policy F → FuturesOp F → FuturesDb F → FuturesDb F
  apply_futures policy (FuturesOp.opening c n k s p q) db = (open_position c n k s p q db).0
  apply_futures policy (FuturesOp.protecting c k s sl tp) db = save_protection c k s sl tp db
  apply_futures policy (FuturesOp.moving c k p) db = (on_price_tick policy c k p db).0

  unfoldable pub run_futures : Policy F → List (FuturesOp F) → FuturesDb F → FuturesDb F
  run_futures policy [] db = db
  run_futures policy (o ∷ os) db = run_futures policy os (apply_futures policy o db)

-- A closed trade has no time of holding.
abbrev pub HasNoHold : {F : Type 0} → TradeRow F → Type 0
HasNoHold t = elim t.closing [ none ↦ Unit | some x ↦ x.hold_time_ms ≡ none ]

abbrev pub NoHolds : {F : Type 0} → FuturesDb F → Type 0
NoHolds {F} db = All (λ (t : TradeRow F). HasNoHold t) db.trades

abbrev IsTimeless : {F : Type 0} → Option (Closing F) → Type 0
IsTimeless o = elim o [ none ↦ Unit | some x ↦ x.hold_time_ms ≡ none ]

module _ {F : Type 0} ⦃fl : Float F⦄ where
  close_trade_holds :
      (n : ℕ) (x : Closing F) (ts : List (TradeRow F))
      → x.hold_time_ms ≡ none
      → All (λ (t : TradeRow F). HasNoHold t) ts
      → All (λ (t : TradeRow F). HasNoHold t) (close_trade n x ts)
  unfolding close_trade
  close_trade_holds n x [] e h = h
  close_trade_holds n x (t ∷ ts) e (h, hs) = (
    if_kept (λ (u : TradeRow F). HasNoHold u) (t.trade_id == n) (record t { closing = some x }) t e
        h,
    close_trade_holds n x ts e hs,
  )

  closing_for_holds :
      (c : Call) (price : F) (t : TradeRow F) (pct : F) (r : Reason) (a : Action)
      → IsTimeless (closing_for c price t pct r a)
  unfolding closing_for closing_of hold_time
  closing_for_holds c price t pct r Action.close_all = refl
  closing_for_holds c price t pct r Action.close_partial = refl
  closing_for_holds c price t pct r Action.hold = tt
  closing_for_holds c price t pct r Action.add_more = tt
  closing_for_holds c price t pct r Action.hedge = tt

  close_if_holds :
      (c : Call) (symbol : ℕ) (t : TradeRow F) (o : Option (Closing F))
      (r : FuturesDb F × List (ℕ × Closing F))
      → IsTimeless o
      → NoHolds r.0
      → NoHolds (close_if c symbol t o r).0
  unfolding close_if close_position
  close_if_holds c symbol t none r e h = h
  close_if_holds c symbol t (some x) (db, closed) e h =
      if_kept (λ (d : FuturesDb F). NoHolds d) c.db_up _ db
        (close_trade_holds t.trade_id x db.trades e h) h

  tick_rows_holds :
      (policy : Policy F) (c : Call) (symbol : ℕ) (price : F) (ls : List (Loaded F))
      (r : FuturesDb F × List (ℕ × Closing F))
      → NoHolds r.0
      → NoHolds (tick_rows policy c symbol price ls r).0
  unfolding tick_rows tick_row update_mark_price closing_on
  tick_rows_holds policy c symbol price [] r h = h
  tick_rows_holds policy c symbol price (l ∷ ls) (db, closed) h =
      tick_rows_holds policy c symbol price ls (tick_row policy c symbol price l (db, closed)) (
        close_if_holds c symbol l.trade _ _ (closing_for_holds c price l.trade _ _ _)
          (if_kept (λ (d : FuturesDb F). NoHolds d) c.db_up _ db h h))

  apply_holds :
      (policy : Policy F) (o : FuturesOp F) (db : FuturesDb F)
      → NoHolds db
      → NoHolds (apply_futures policy o db)
  unfolding apply_futures open_position write_open save_protection on_price_tick
  apply_holds policy (FuturesOp.opening c n k s p q) db h =
      if_kept (λ (r : FuturesDb F × Option ℕ). NoHolds r.0) c.db_up _ (db, none)
        (All-append (λ (t : TradeRow F). HasNoHold t) db.trades _ h (tt, tt)) h
  apply_holds policy (FuturesOp.protecting c k s sl tp) db h =
      if_kept (λ (d : FuturesDb F). NoHolds d) c.db_up _ db h h
  apply_holds policy (FuturesOp.moving c k p) db h = tick_rows_holds policy c k p _ (db, []) h

  -- Whatever the runs of an engine and its policy, no trade is stored with the time that it was held.
  pub run_futures_holds :
      (policy : Policy F) (os : List (FuturesOp F)) (db : FuturesDb F)
      → NoHolds db
      → NoHolds (run_futures policy os db)
  unfolding run_futures
  run_futures_holds policy [] db h = h
  run_futures_holds policy (o ∷ os) db h =
      run_futures_holds policy os (apply_futures policy o db) (apply_holds policy o db h)
