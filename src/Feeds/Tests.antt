-- ===== src/Feeds/Tests.antt =====
-- The witnesses of the backfill: an exchange that always answers with the same two candles, one of
-- which does not parse.
use botik.Base.{
  ℕ, suc, ◌+◌, ◌*◌, ◌≤◌, ◌≡◌, refl, true, Option, none, some, List, [], ◌∷◌, length, arith,
}
use botik.Base.Int.{pos}
use botik.Base.Fixed.{Fixed, fixed_float}
use botik.Base.Text.{codes}
use botik.Feeds.Ohlcv.{
  RawCandle, Response, Ending, Bar, backfill, fetch_kline, interval_to_ms, find_interval, last_ts,
  save_candles, insert_many, insert_or_ignore, rows_of, add_bar, parse_candle, parse_fields,
  has_time, backfill_loop, after_save,
}
use botik.Feeds.Backfill.{backfill_ends, backfill_rounds}

abbrev price : ℕ → Option Fixed
price n = some (some (pos (n * 10_000)))

-- The candle opens with the range.
abbrev candle_at : ℕ → RawCandle Fixed
candle_at t = record {
  time = some t;
  fields = price 7 ∷ price 9 ∷ price 6 ∷ price 8 ∷ price 3 ∷ [];
}

abbrev fetch : ℕ → ℕ → Option (Response Fixed)
fetch k start = some (record {
  ret_code = 0;
  newest_first = candle_at start ∷ record { time = some start; fields = none ∷ [] } ∷ [];
})

abbrev no_bars : List (Bar Fixed)
no_bars = []

-- The range is not full, so one round ends the run.
one_round : Option ℕ
unfolding backfill backfill_loop after_save fetch_kline interval_to_ms find_interval last_ts
    save_candles insert_many insert_or_ignore rows_of add_bar parse_candle parse_fields has_time
one_round = elim (backfill fetch (λ _. true) (codes "D") 2 5 30 no_bars) [
  | none ↦ none
  | some e ↦ some e.total_saved
]

stores_one : one_round ≡ some 1
unfolding one_round
stores_one = refl

backfill_ends_example :
    (e : Ending Fixed) × (backfill fetch
        (λ _. true)
        (codes "D")
        (suc (30 * 86_400_000))
        5
        30
        no_bars
      ≡ some e)
    × (length e.table ≡ 0 + e.total_saved)
backfill_ends_example = backfill_ends fetch (λ _. true) (codes "D") 5 30 no_bars

later :
    (k current last : ℕ) (raw : RawCandle Fixed) (raws : List (RawCandle Fixed))
    → fetch_kline (fetch k current) ≡ raw ∷ raws
    → last_ts raw raws ≡ some last
    → current ≤ last
unfolding fetch_kline last_ts
later k current last raw raws e f = ground arith

enough : 30 * 86_400_000 ≤ 30 * interval_to_ms (codes "D")
unfolding interval_to_ms find_interval
enough = omega arith

backfill_rounds_example :
    (e : Ending Fixed) × (backfill fetch (λ _. true) (codes "D") 31 5 30 no_bars ≡ some e)
    × (length e.table ≡ 0 + e.total_saved)
backfill_rounds_example = backfill_rounds fetch (λ _. true) (codes "D") 5 30 no_bars 30 later enough
