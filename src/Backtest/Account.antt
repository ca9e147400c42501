-- ===== src/Backtest/Account.antt =====
-- What a run of src/botik/backtest/backtest_runner.py books: the profits of the trades and the curve
-- of the equity, over either engine.
use botik.Base.{
  ℕ, suc, ◌≡◌, ◌∙◌, ap, sym, refl, Option, none, some, List, [], ◌∷◌, ◌++◌, map, length, if_kept,
}
use mathlib.Core.List.{map-append}
use botik.Base.Float.{Float}
use botik.Paper.Policy.{PositionSide}
use botik.Backtest.Metrics.{Maths, Scope, TradeItem, build_result, calc_max_drawdown}
use botik.Backtest.Engines.{Closed, SimEngine}
use botik.Backtest.Runner.{
  PriceRow, Params, RunState, book_closed, open_side, open_signal, try_open, check_exits, on_row,
  run_rows, first_state, run,
}

module _ {F : Type 0} ⦃fl : Float F⦄ where
  -- A balance after profits in turn, and all balances on the way.
  unfoldable pub total : F → List F → F
  total b [] = b
  total b (p ∷ ps) = total (fl.add b p) ps

  unfoldable pub balances : F → List F → List F
  balances b [] = b ∷ []
  balances b (p ∷ ps) = b ∷ balances (fl.add b p) ps

  total-append : (b : F) (ps : List F) (p : F) → total b (ps ++ p ∷ []) ≡ fl.add (total b ps) p
  unfolding total
  total-append b [] p = refl
  total-append b (q ∷ ps) p = total-append (fl.add b q) ps p

  balances-append :
      (b : F) (ps : List F) (p : F)
      → balances b (ps ++ p ∷ []) ≡ balances b ps ++ fl.add (total b ps) p ∷ []
  unfolding balances total
  balances-append b [] p = refl
  balances-append b (q ∷ ps) p = ap (λ xs. b ∷ xs) (balances-append (fl.add b q) ps p)

  abbrev pub pnl_of : TradeItem F → F
  pnl_of t = t.pnl

  length-map : {A : Type 0} (f : A → F) (xs : List A) → length (map f xs) ≡ length xs
  length-map f [] = refl
  length-map f (x ∷ xs) = ap suc (length-map f xs)

  -- Lists with one image have one length.
  count_of :
      (ts : List (TradeItem F)) (ps : List F) (f : F → F)
      → map pnl_of ts ≡ map f ps
      → length ts ≡ length ps
  count_of ts ps f h = sym (length-map pnl_of ts) ∙ ap length h ∙ length-map f ps

module _ {F S : Type 0} ⦃fl : Float F⦄ (py : Maths F) (e : SimEngine F S) (p : Params F) where
  -- The state books these profits, and nothing else.
  record Booked (ps : List F) (s : RunState F S) : Type 0 where
    rounded : map pnl_of s.closed_trades ≡ map (λ x. py.round x 4) ps
    curve : s.equity_curve ≡ balances p.balance ps
    last : s.equity ≡ total p.balance ps

  abbrev IsBooked : RunState F S → Type 0
  IsBooked s = (ps : List F) × Booked ps s

  book_closed-IsBooked :
      (now : ℕ) (cs : List (Closed F)) (s : RunState F S)
      → IsBooked s
      → IsBooked (book_closed py e p now cs s)
  unfolding book_closed
  book_closed-IsBooked now [] s b = b
  book_closed-IsBooked now (c ∷ cs) s (ps, b) = book_closed-IsBooked now cs _ (
    ps ++ c.net_pnl ∷ [],
    record {
      rounded = simp (map-append, b.rounded);
      curve = simp (balances-append, b.curve, b.last);
      last = simp (total-append, b.last);
    },
  )

  open_side-IsBooked :
      (row : PriceRow F) (atr : F) (side : PositionSide) (s : RunState F S)
      → IsBooked s
      → IsBooked (open_side py e p row atr side s)
  unfolding open_side
  open_side-IsBooked row atr side s (ps, b) =
      if_kept IsBooked _ s _ (ps, b)
        (ps, record { rounded = b.rounded; curve = b.curve; last = b.last })

  open_signal-IsBooked :
      (row : PriceRow F) (atr : F) (side : Option PositionSide) (s : RunState F S)
      → IsBooked s
      → IsBooked (open_signal py e p row atr side s)
  unfolding open_signal
  open_signal-IsBooked row atr none s b = b
  open_signal-IsBooked row atr (some side) s b = open_side-IsBooked row atr side s b

  try_open-IsBooked :
      (row : PriceRow F) (s : RunState F S) → IsBooked s → IsBooked (try_open py e p row s)
  unfolding try_open
  try_open-IsBooked row s b =
      if_kept IsBooked _ s _ b (if_kept IsBooked _ s _ b (open_signal-IsBooked row _ _ s b))

  run_rows-IsBooked :
      (clock : ℕ → ℕ) (rows : List (PriceRow F)) (s : RunState F S)
      → IsBooked s
      → IsBooked (run_rows py e p clock rows s)
  unfolding run_rows on_row check_exits
  run_rows-IsBooked clock [] s b = b
  run_rows-IsBooked clock (row ∷ rows) s (ps, b) = run_rows-IsBooked clock rows _ (
      try_open-IsBooked row _ (
        book_closed-IsBooked _ _ _
          (ps, record { rounded = b.rounded; curve = b.curve; last = b.last })))

  -- A simulation over at least one candle books a list of profits: its trades show them rounded, it
  -- counts as many, and its drawdown is that of the balances which they lead to one after the
  -- other, unrounded, from the balance at the start.
  pub run_books :
      (scope : Scope) (clock : ℕ → ℕ) (row : PriceRow F) (rows : List (PriceRow F))
      → let r = run py e p scope clock (row ∷ rows) in
        let dd = λ (ps : List F). calc_max_drawdown (balances p.balance ps) in
        (ps : List F) × (map pnl_of r.trades_list ≡ map (λ x. py.round x 4) ps)
        × (r.trades ≡ length ps)
        × (r.max_drawdown ≡ py.round (dd ps).0 4)
        × (r.max_drawdown_pct ≡ py.round (dd ps).1 4)
  unfolding run build_result balances total
  run_books scope clock row rows =
      let (ps, b) =
        run_rows-IsBooked clock (row ∷ rows) (first_state py e p)
          ([], record { rounded = refl; curve = refl; last = refl }) in
      (
        ps,
        b.rounded,
        count_of _ ps _ b.rounded,
        ap (λ c. py.round (calc_max_drawdown c).0 4) b.curve,
        ap (λ c. py.round (calc_max_drawdown c).1 4) b.curve,
      )
