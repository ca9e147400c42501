-- ===== src/Feeds/Ohlcv.antt =====
-- `OHLCVWorker` of src/botik/marketdata/ohlcv_worker.py. What the exchange answers to a request, and
-- whether the database takes a batch, are arguments. A field of a candle is missing where it does
-- not parse as a number.
use mathlib.Core.List.{reverse}
use botik.Base.{
  ℕ, zero, suc, ◌+◌, ◌*◌, ◌==◌, ltb, leb, Bool, true, false, Option, none, some, List, [], ◌∷◌,
  ◌++◌, length, if◌then◌else◌,
}
use botik.Base.Float.{Float, nought}
use botik.Base.Text.{Text, codes, text_eq}

-- A candle of the exchange: its opening time, and the fields from the opening price on.
pub record RawCandle (F : Type 0) : Type 0 where
  pub time : Option ℕ
  pub fields : List (Option F)

-- A row of `price_history` of one series, with the columns that it is stored with.
pub record Bar (F : Type 0) : Type 0 where
  pub open_time_ms : ℕ
  pub opening : F
  pub high : F
  pub low : F
  pub close : F
  pub volume : F
  pub turnover : F

-- The answer to a request, or none where the request fails; a result may have no list.
pub record Response (F : Type 0) : Type 0 where
  pub ret_code : ℕ
  pub newest_first : List (RawCandle F)

-- How a backfill ends: whether an exception left it, the candles that it counted, and the table.
pub record Ending (F : Type 0) : Type 0 where
  pub raised : Bool
  pub total_saved : ℕ
  pub table : List (Bar F)

abbrev pub kline_limit : ℕ
kline_limit = 1000

abbrev day_ms : ℕ
day_ms = 86_400_000

abbrev interval_table : List (Text × ℕ)
interval_table =
    (codes "1", 60_000)
    ∷ (codes "3", 180_000)
    ∷ (codes "5", 300_000)
    ∷ (codes "15", 900_000)
    ∷ (codes "30", 1_800_000)
    ∷ (codes "60", 3_600_000)
    ∷ (codes "120", 7_200_000)
    ∷ (codes "240", 14_400_000)
    ∷ (codes "360", 21_600_000)
    ∷ (codes "720", 43_200_000)
    ∷ (codes "D", 86_400_000)
    ∷ (codes "W", 604_800_000)
    ∷ []

unfoldable pub find_interval : Text → List (Text × ℕ) → ℕ
find_interval t [] = 60_000
find_interval t ((s, ms) ∷ rest) = if text_eq t s then ms else find_interval t rest

-- `_interval_to_ms`
unfoldable pub interval_to_ms : Text → ℕ
interval_to_ms t = find_interval t interval_table

module _ {F : Type 0} ⦃fl : Float F⦄ where
  -- `_fetch_kline` after the request: the candles, the oldest first.
  unfoldable pub fetch_kline : Option (Response F) → List (RawCandle F)
  fetch_kline none = []
  fetch_kline (some r) = if r.ret_code == 0 then reverse r.newest_first else []

  -- The turnover is 0 where the field is missing, and a field that does not parse drops the candle.
  abbrev with_turnover : List (Option F) → (F → Bar F) → Option (Bar F)
  with_turnover [] f = some (f nought)
  with_turnover (none ∷ rest) f = none
  with_turnover (some x ∷ rest) f = some (f x)

  unfoldable pub parse_fields : ℕ → List (Option F) → Option (Bar F)
  parse_fields t (some o ∷ some h ∷ some l ∷ some c ∷ some v ∷ rest) =
      with_turnover rest λ turnover. record {
        open_time_ms = t;
        opening = o;
        high = h;
        low = l;
        close = c;
        volume = v;
        turnover = turnover;
      }
  parse_fields t _ = none

  unfoldable pub parse_candle : RawCandle F → Option (Bar F)
  parse_candle raw = elim raw.time [ none ↦ none | some t ↦ parse_fields t raw.fields ]

  unfoldable pub add_bar : Option (Bar F) → List (Bar F) → List (Bar F)
  add_bar none bars = bars
  add_bar (some b) bars = if fl.le b.close nought then bars else b ∷ bars

  -- The rows that a batch would store.
  unfoldable pub rows_of : List (RawCandle F) → List (Bar F)
  rows_of [] = []
  rows_of (raw ∷ raws) = add_bar (parse_candle raw) (rows_of raws)

  unfoldable pub has_time : ℕ → List (Bar F) → Bool
  has_time t [] = false
  has_time t (b ∷ bs) = if b.open_time_ms == t then true else has_time t bs

  -- `INSERT OR IGNORE` of one row, with the number of rows that it adds.
  unfoldable pub insert_or_ignore : Bar F → List (Bar F) → ℕ × List (Bar F)
  insert_or_ignore b table =
      if has_time b.open_time_ms table then (0, table) else (1, table ++ b ∷ [])

  -- `executemany`, with the sum of the row counts.
  unfoldable pub insert_many : List (Bar F) → List (Bar F) → ℕ × List (Bar F)
  insert_many [] table = (0, table)
  insert_many (b ∷ bs) table =
      let (n, table') = insert_or_ignore b table in
      let (m, table'') = insert_many bs table' in (n + m, table'')

  -- `_save_candles`
  unfoldable pub save_candles : Bool → List (RawCandle F) → List (Bar F) → ℕ × List (Bar F)
  save_candles db_up raws table = if db_up then insert_many (rows_of raws) table else (0, table)

  -- The opening time of the last candle.
  unfoldable pub last_ts : RawCandle F → List (RawCandle F) → Option ℕ
  last_ts raw [] = raw.time
  last_ts raw (next ∷ raws) = last_ts next raws

module _ {F : Type 0} ⦃fl : Float F⦄ (fetch : ℕ → ℕ → Option (Response F)) (db_up : ℕ → Bool)
    (interval_ms now_ms : ℕ) where
  abbrev done : ℕ → List (Bar F) → Option (Ending F)
  done total table = some (record { raised = false; total_saved = total; table = table })

  abbrev failed : ℕ → List (Bar F) → Option (Ending F)
  failed total table = some (record { raised = true; total_saved = total; table = table })

  -- The end of a round: what goes on is `rest`, from the start of the next range.
  unfoldable pub after_save :
      ℕ → Option ℕ → Bool → (ℕ → Option (Ending F)) → ℕ → List (Bar F) → Option (Ending F)
  after_save current none is_full rest total table = failed total table
  after_save current (some last) is_full rest total table =
      if leb (last + interval_ms) current
      then done total table
      else if is_full
      then rest (last + interval_ms)
      else done total table

  -- The loop of `backfill`, with the number of the round; `none` means that the fuel ran out.
  unfoldable pub backfill_loop : ℕ → ℕ → ℕ → ℕ → List (Bar F) → Option (Ending F)
  backfill_loop zero k current total table = none
  backfill_loop (suc fuel) k current total table = elim (ltb current now_ms) [
    | true ↦ elim (fetch_kline (fetch k current)) [
      | [] ↦ done total table
      | raw ∷ raws ↦
          let saved = save_candles (db_up k) (raw ∷ raws) table in
          after_save current (last_ts raw raws) (leb kline_limit (length (raw ∷ raws)))
            (λ next. backfill_loop fuel (suc k) next (total + saved.0) saved.1) (total + saved.0)
            saved.1
    ]
    | false ↦ done total table
  ]

-- `backfill` of the last days, given the start of its range.
unfoldable pub backfill :
    {F : Type 0} ⦃fl : Float F⦄
    → (ℕ → ℕ → Option (Response F))
    → (ℕ → Bool)
    → Text
    → ℕ
    → ℕ
    → ℕ
    → List (Bar F)
    → Option (Ending F)
backfill fetch db_up interval fuel start_ms days_back table =
    backfill_loop fetch db_up (interval_to_ms interval) (start_ms + days_back * day_ms) fuel 0
      start_ms 0 table

-- `fetch_recent`, with the candles that it stores.
unfoldable pub fetch_recent :
    {F : Type 0} ⦃fl : Float F⦄ → Option (Response F) → Bool → List (Bar F) → ℕ × List (Bar F)
fetch_recent response db_up table = save_candles db_up (fetch_kline response) table
