-- ===== src/Feeds/Backfill.antt =====
-- The loop of `backfill` in src/botik/marketdata/ohlcv_worker.py: it ends, and counts what it stores.
use botik.Base.{
  ℕ, zero, suc, ◌+◌, ◌*◌, ◌≤◌, ◌<◌, ◌≡◌, refl, ltb, leb, Bool, true, false, Option, none, some,
  List, [], ◌∷◌, length, length-append, if◌then◌else◌, arith, Bool-cases, inl, inr,
}
use botik.Base.Float.{Float}
use botik.Base.Text.{Text}
use botik.Feeds.Ohlcv.{
  RawCandle, Response, Ending, Bar, fetch_kline, rows_of, insert_or_ignore, insert_many,
  save_candles, last_ts, after_save, backfill_loop, backfill, interval_to_ms, has_time, kline_limit,
}

module _ {F : Type 0} ⦃fl : Float F⦄ where
  -- A count that is the growth of the table.
  abbrev IsGrowth : List (Bar F) → ℕ × List (Bar F) → Type 0
  IsGrowth table (n, table') = length table' ≡ length table + n

  insert_or_ignore-IsGrowth :
      (b : Bar F) (table : List (Bar F)) → IsGrowth table (insert_or_ignore b table)
  unfolding insert_or_ignore
  insert_or_ignore-IsGrowth b table = elim (Bool-cases (has_time b.open_time_ms table)) [
    | inl h ↦ rw h (omega arith)
    | inr h ↦ rw h (length-append table (b ∷ []))
  ]

  insert_many-IsGrowth : (bs table : List (Bar F)) → IsGrowth table (insert_many bs table)
  unfolding insert_many
  insert_many-IsGrowth [] table = omega arith
  insert_many-IsGrowth (b ∷ bs) table = omega (
    arith,
    insert_or_ignore-IsGrowth b table,
    insert_many-IsGrowth bs (insert_or_ignore b table).1,
  )

  save_candles-IsGrowth :
      (db_up : Bool) (raws : List (RawCandle F)) (table : List (Bar F))
      → IsGrowth table (save_candles db_up raws table)
  unfolding save_candles
  save_candles-IsGrowth true raws table = insert_many-IsGrowth (rows_of raws) table
  save_candles-IsGrowth false raws table = omega arith

  -- The run ends, and what it counted is what the table has gained over `total` rows before.
  abbrev Ends : ℕ → Option (Ending F) → Type 0
  Ends before r = (e : Ending F) × (r ≡ some e) × (length e.table ≡ before + e.total_saved)

module _ {F : Type 0} ⦃fl : Float F⦄ (fetch : ℕ → ℕ → Option (Response F)) (db_up : ℕ → Bool)
    (interval_ms now_ms step : ℕ) where
  -- A range that is not before the last one starts later by a step at least.
  abbrev Advances : Type 0
  Advances =
      (k current last : ℕ) (raw : RawCandle F) (raws : List (RawCandle F))
      → fetch_kline (fetch k current) ≡ raw ∷ raws
      → last_ts raw raws ≡ some last
      → current < last + interval_ms
      → current + step ≤ last + interval_ms

  after_save-Ends :
      (before fuel current : ℕ) (last : Option ℕ) (is_full : Bool) (rest : ℕ → Option (Ending F))
      (total : ℕ) (table : List (Bar F))
      → ((t : ℕ) → last ≡ some t → current < t + interval_ms → Ends before (rest (t + interval_ms)))
      → length table ≡ before + total
      → Ends before
          (after_save fetch db_up interval_ms now_ms current last is_full rest total table)
  unfolding after_save
  after_save-Ends before fuel current none is_full rest total table go h =
      (record { raised = true; total_saved = total; table = table }, refl, h)
  after_save-Ends before fuel current (some t) is_full rest total table go h =
      elim (Bool-cases (leb (t + interval_ms) current)) [
        | inl p ↦ rw p (record { raised = false; total_saved = total; table = table }, refl, h)
        | inr p ↦ rw p (full is_full (go t refl (ground (arith, p))))
      ]
    where
      full :
          (b : Bool)
          → Ends before (rest (t + interval_ms))
          → Ends before (
              if b
              then rest (t + interval_ms)
              else some (record { raised = false; total_saved = total; table = table }))
      full true e = e
      full false e = (record { raised = false; total_saved = total; table = table }, refl, h)

  -- One round, given what the rest does from a later start.
  round-Ends :
      (before current k total : ℕ) (table : List (Bar F))
      (go : ℕ → ℕ → List (Bar F) → Option (Ending F)) (candles : List (RawCandle F))
      → ((raw : RawCandle F) (raws : List (RawCandle F)) (t n : ℕ) (bars : List (Bar F))
          → candles ≡ raw ∷ raws
          → last_ts raw raws ≡ some t
          → current < t + interval_ms
          → length bars ≡ before + n
          → Ends before (go (t + interval_ms) n bars))
      → length table ≡ before + total
      → Ends before (elim candles [
        | [] ↦ some (record { raised = false; total_saved = total; table = table })
        | raw ∷ raws ↦
            let saved = save_candles (db_up k) (raw ∷ raws) table in
            after_save fetch db_up interval_ms now_ms current
              (last_ts raw raws)
              (leb kline_limit (length (raw ∷ raws)))
              (λ next. go next (total + saved.0) saved.1)
              (total + saved.0)
              saved.1
      ])
  round-Ends before current k total table go [] later h =
      (record { raised = false; total_saved = total; table = table }, refl, h)
  round-Ends before current k total table go (raw ∷ raws) later h =
      let saved = save_candles (db_up k) (raw ∷ raws) table in
      let grown : length saved.1 ≡ before + (total + saved.0) =
        omega (arith, h, save_candles-IsGrowth (db_up k) (raw ∷ raws) table) in
      after_save-Ends before 0 current (last_ts raw raws) _
        (λ next. go next (total + saved.0) saved.1) (total + saved.0) saved.1
        (λ t e p. later raw raws t (total + saved.0) saved.1 refl e p grown) grown

  loop-Ends :
      Advances
      → (before fuel k current total : ℕ) (table : List (Bar F)) → now_ms ≤ current + fuel * step
      → length table ≡ before + total
      → Ends before (backfill_loop fetch db_up interval_ms now_ms (suc fuel) k current total table)
  unfolding backfill_loop
  loop-Ends adv before zero k current total table h g =
      let p : ltb current now_ms ≡ false = ground (arith, h) in
      rw (p, backfill_loop) (record { raised = false; total_saved = total; table = table }, refl, g)
  loop-Ends adv before (suc fuel) k current total table h g =
      elim (Bool-cases (ltb current now_ms)) [
        | inl p ↦
            rw (p, backfill_loop)
              (round-Ends before current k total table
                (λ next n bars.
                  backfill_loop fetch db_up interval_ms now_ms (suc fuel) (suc k) next n bars)
                (fetch_kline (fetch k current))
                (λ raw raws t n bars e f q grown.
                  let moved = adv k current t raw raws e f q in
                  loop-Ends adv before fuel (suc k) (t + interval_ms) n bars
                    (grind (arith, h, moved)) grown)
                g)
        | inr p ↦
            rw (p, backfill_loop)
              (record { raised = false; total_saved = total; table = table }, refl, g)
      ]

module _ {F : Type 0} ⦃fl : Float F⦄ (fetch : ℕ → ℕ → Option (Response F)) (db_up : ℕ → Bool)
    (interval : Text) (start_ms days_back : ℕ) (table : List (Bar F)) where
  -- A backfill ends whatever the exchange answers, after one round at most for each millisecond of
  -- its range and one more: it returns, or an opening time that is no number raises an exception.
  -- What it has counted by then is the number of rows that the table has gained.
  pub backfill_ends :
      (e : Ending F) × (backfill fetch db_up interval
          (suc (days_back * 86_400_000))
          start_ms
          days_back
          table
        ≡ some e)
      × (length e.table ≡ length table + e.total_saved)
  unfolding backfill
  backfill_ends =
      loop-Ends fetch db_up (interval_to_ms interval) (start_ms + days_back * 86_400_000) 1
        (λ k current last raw raws e f h. omega (arith, h)) (length table) (days_back * 86_400_000)
        0 start_ms 0 table (omega arith) (omega arith)

  -- If the last candle of an answer never opens before the start of the range that was asked for,
  -- as many rounds as the range has intervals, and one more, are enough.
  pub backfill_rounds :
      (rounds : ℕ)
      → ((k current last : ℕ) (raw : RawCandle F) (raws : List (RawCandle F))
          → fetch_kline (fetch k current) ≡ raw ∷ raws
          → last_ts raw raws ≡ some last
          → current ≤ last)
      → days_back * 86_400_000 ≤ rounds * interval_to_ms interval
      → (e : Ending F) × (backfill fetch db_up interval (suc rounds) start_ms days_back table
          ≡ some e)
        × (length e.table ≡ length table + e.total_saved)
  unfolding backfill
  backfill_rounds rounds later h =
      loop-Ends fetch db_up (interval_to_ms interval) (start_ms + days_back * 86_400_000)
        (interval_to_ms interval)
        (λ k current last raw raws e f p. omega (arith, later k current last raw raws e f))
        (length table) rounds 0 start_ms 0 table (omega arith) (omega arith)
