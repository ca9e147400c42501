-- ===== src/Paper/FuturesStats.antt =====
-- `get_stats` of src/botik/execution/futures_paper.py: the query, and what the code reads of its row.
use botik.Base.{
  ℕ, zero, suc, ◌+◌, ◌==◌, ◌≡◌, refl, Bool, true, false, ◌&&◌, Option, none, some, List, [], ◌∷◌,
  keep, length, if◌then◌else◌, is_some, arith,
}
use botik.Base.Float.{Float, nought}
use botik.Paper.Rows.{Call}
use botik.Paper.Futures.{TradeRow, FuturesDb}

-- A column of a row: a count, or an amount, `none` for a null.
pub data Column (F : Type 0) : Type 0 where
  count : ℕ → Column F
  amount : Option F → Column F

-- The dictionary: the counts with a share and two amounts, the zeros, or the empty one.
pub data Stats (F : Type 0) : Type 0 where
  stats : (total wins : ℕ) (win_rate total_pnl avg_pnl : F) → Stats F
  zeros no_stats : Stats F

module _ {F : Type 0} where
  -- `row[n]`, or an `IndexError`
  unfoldable pub column : ℕ → List (Column F) → Option (Column F)
  column n [] = none
  column zero (x ∷ xs) = some x
  column (suc n) (x ∷ xs) = column n xs

  abbrev pub is_closed : ℕ → TradeRow F → Bool
  is_closed scope t = is_some t.closing && (t.model_scope == scope)

module _ {F : Type 0} ⦃fl : Float F⦄ where
  unfoldable pub wins_of : List (TradeRow F) → ℕ
  wins_of [] = 0
  wins_of (t ∷ ts) = elim t.closing [
    | none ↦ wins_of ts
    | some x ↦ (if x.was_profitable then 1 else 0) + wins_of ts
  ]

  unfoldable pub sum_pnl : F → List (TradeRow F) → F
  sum_pnl acc [] = acc
  sum_pnl acc (t ∷ ts) = elim t.closing [
    | none ↦ sum_pnl acc ts
    | some x ↦ sum_pnl (fl.add acc x.net_pnl) ts
  ]

  -- `SELECT COUNT(*), SUM(…), SUM(net_pnl), AVG(net_pnl)`: the sums of no rows are null.
  unfoldable pub stats_row : List (TradeRow F) → List (Column F)
  stats_row [] = count 0 ∷ amount none ∷ amount none ∷ amount none ∷ []
  stats_row (t ∷ ts) =
      let sum = sum_pnl nought (t ∷ ts) in
      count (length (t ∷ ts))
      ∷ count (wins_of (t ∷ ts))
      ∷ amount (some sum)
      ∷ amount (some (fl.div sum (fl.lit (length (t ∷ ts)) 0)))
      ∷ []

  -- `int(x or 0)` and `float(x or 0)`
  abbrev to_int : (F → ℕ) → Column F → ℕ
  to_int truncate (count n) = n
  to_int truncate (amount none) = 0
  to_int truncate (amount (some x)) = truncate x

  abbrev to_float : Column F → F
  to_float (count n) = fl.lit n 0
  to_float (amount none) = nought
  to_float (amount (some x)) = x

  -- `int` and `round` on floats are arguments.
  module _ (truncate : F → ℕ) (round : F → ℕ → F) where
    -- The dictionary that is returned, of the columns 0, 1, 3 and 4.
    unfoldable pub stats_of :
        Option (Column F) → Option (Column F) → Option (Column F) → Option (Column F) → Stats F
    stats_of (some a) (some b) (some c) (some d) =
        let total = to_int truncate a in
        let wins = to_int truncate b in
        stats total wins (round (fl.mul (fl.div (fl.lit wins 0) (fl.lit total 0)) (fl.lit 100 0)) 1)
          (round (to_float c) 4) (round (to_float d) 4)
    stats_of none _ _ _ = no_stats
    stats_of (some a) none _ _ = no_stats
    stats_of (some a) (some b) none _ = no_stats
    stats_of (some a) (some b) (some c) none = no_stats

    abbrev is_zero : Option (Column F) → Bool
    is_zero none = false
    is_zero (some x) = to_int truncate x == 0

    unfoldable pub read_stats : List (Column F) → Stats F
    read_stats row =
        if is_zero (column 0 row)
        then zeros
        else stats_of (column 0 row) (column 1 row) (column 3 row) (column 4 row)

    unfoldable pub get_stats : Call → ℕ → FuturesDb F → Stats F
    get_stats c scope db =
        if c.db_up then read_stats (stats_row (keep (is_closed scope) db.trades)) else no_stats

    -- The statistics are the empty dictionary as soon as there is one closed trade: the row of the
    -- query has no fifth column. With no closed trade they are the zeros, if the database answers.
    pub get_stats_lem :
        (c : Call) (scope : ℕ) (db : FuturesDb F)
        → c.db_up ≡ true
        → get_stats c scope db
          ≡ (if length (keep (is_closed scope) db.trades) == 0 then zeros else no_stats)
    unfolding get_stats read_stats stats_row column stats_of
    get_stats_lem c scope db up = rw up (by_rows (keep (is_closed scope) db.trades))
      where
        by_rows :
            (ts : List (TradeRow F))
            → read_stats (stats_row ts) ≡ (if length ts == 0 then zeros else no_stats)
        by_rows [] = refl
        by_rows (t ∷ ts) = ground arith
