-- ===== src/Runners/Signals.antt =====
-- What src/botik/runners/futures_runner.py and src/botik/runners/spot_runner.py do alike: the buffer
-- of prices, and the measures of a signal. Messages arrive parsed.
use botik.Base.{
  ℕ, zero, suc, ◌||◌, Bool, true, false, Option, none, some, List, [], ◌∷◌, ◌++◌, map, drop,
  take_last, length, ltb, if◌then◌else◌, Dict, lookup, insert,
}
use botik.Base.Float.{Float, nought}
use botik.Market.State.{Levels}
use botik.Paper.Sizer.{Candle, calc_atr, sum_of}

abbrev pub none_found : {A : Type 0} → List A → Bool
none_found [] = true
none_found (x ∷ xs) = false

abbrev buffer_of : {F : Type 0} → Option (List (Candle F)) → List (Candle F)
buffer_of none = []
buffer_of (some cs) = cs

abbrev pub first_levels : {F : Type 0} → ℕ → Levels F → Levels F
first_levels zero ls = []
first_levels (suc n) [] = []
first_levels (suc n) (l ∷ ls) = l ∷ first_levels n ls

-- `setdefault`, `append`, and `pop(0)` over 50 entries.
unfoldable pub push_candle : {F : Type 0} → Candle F → List (Candle F) → List (Candle F)
push_candle c buf =
    let grown = buf ++ c ∷ [] in if ltb 50 (length grown) then drop 1 grown else grown

abbrev pub get_buffer : {F : Type 0} → ℕ → Dict (List (Candle F)) → List (Candle F)
get_buffer symbol bufs = buffer_of (lookup symbol bufs)

unfoldable pub push_buffer :
    {F : Type 0} → ℕ → Candle F → Dict (List (Candle F)) → Dict (List (Candle F))
push_buffer symbol c bufs = insert symbol (push_candle c (get_buffer symbol bufs)) bufs

module _ {F : Type 0} ⦃fl : Float F⦄ where
  abbrev close_of_first : List (Candle F) → F
  close_of_first [] = nought
  close_of_first (c ∷ cs) = c.close

  -- `closes[-5]`
  abbrev fifth_last : List (Candle F) → F
  fifth_last buf = close_of_first (take_last 5 buf)

  -- The average range and the price that a spike is measured from, where both are usable.
  unfoldable pub measures : List (Candle F) → Option (F × F)
  measures buf =
      let atr = calc_atr 14 buf in
      let ref = fifth_last buf in
      if ltb (length buf) 15 || fl.le atr nought
      then none
      else if ltb (length buf) 5 || fl.le ref nought
      then none
      else some (atr, ref)

  -- The change of the middle price in hundredths of a per cent.
  unfoldable pub spike_from : F → F → F → F
  spike_from best_bid best_ask ref =
      let mid = fl.div (fl.add best_bid best_ask) (fl.lit 2 0) in
      fl.mul (fl.div (fl.sub mid ref) ref) (fl.lit 10_000 0)

  abbrev top_volume : Levels F → F
  top_volume ls = sum_of nought (map (λ (l : F × F). l.1) (first_levels 5 ls))

  unfoldable pub imbalance : Levels F → Levels F → F
  imbalance bids asks =
      let total_vol = fl.add (top_volume bids) (top_volume asks) in
      if fl.lt nought total_vol then fl.div (top_volume bids) total_vol else fl.lit 50 2
