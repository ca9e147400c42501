-- ===== src/Paper/Sizer.antt =====
-- The size of a position, its stop and its target: src/botik/position/sizer.py. `round` is an
-- argument.
use botik.Base.{
  if_kept, ℕ, suc, ◌≡◌, ◌⊎◌, inl, inr, refl, Bool, true, false, ◌&&◌, ◌||◌, Option, none, some,
  List, [], ◌∷◌, length, take_last, ltb, if◌then◌else◌, Bool-cases, arith,
}
use botik.Base.Float.{Float, FloatOrder, IsNumber, nought, one, fabs, fmin, fmax, le_of_not_lt}
use botik.Paper.Policy.{PositionSide}
use botik.Paper.Futures.{is_long}

pub record Candle (F : Type 0) : Type 0 where
  pub high : F
  pub low : F
  pub close : F

pub record PositionSizer (F : Type 0) : Type 0 where
  pub risk_pct : F
  pub atr_sl_mult : F
  pub atr_tp_mult : F
  pub max_position_pct : F

-- The record of a model that was trained, for the choice of the method.
pub record Trained (F : Type 0) : Type 0 where
  pub is_trained : Bool
  pub win_rate : F
  pub avg_win : F
  pub avg_loss : F

module _ {F : Type 0} ⦃fl : Float F⦄ where
  -- What `calc_qty` takes where it is told nothing.
  abbrev pub untrained : Trained F
  untrained = record { is_trained = false; win_rate = nought; avg_win = nought; avg_loss = nought }

  -- The ranges of the candles after the first, each with the close before it.
  unfoldable pub true_ranges : F → List (Candle F) → List F
  true_ranges close [] = []
  true_ranges close (c ∷ cs) =
      fmax (fmax (fl.sub c.high c.low) (fabs (fl.sub c.high close))) (fabs (fl.sub c.low close))
      ∷ true_ranges c.close cs

  abbrev ranges_of : List (Candle F) → List F
  ranges_of [] = []
  ranges_of (c ∷ cs) = true_ranges c.close cs

  unfoldable pub sum_of : F → List F → F
  sum_of acc [] = acc
  sum_of acc (x ∷ xs) = sum_of (fl.add acc x) xs

  abbrev mean_of : List F → F
  mean_of [] = nought
  mean_of (x ∷ xs) = fl.div (sum_of nought (x ∷ xs)) (fl.lit (length (x ∷ xs)) 0)

  -- `calc_atr` of candles, for three lists of one length.
  unfoldable pub calc_atr : ℕ → List (Candle F) → F
  calc_atr period cs =
      if ltb (length cs) (suc period) then nought else mean_of (take_last period (ranges_of cs))

  abbrev or_default : Option F → F → F
  or_default none d = d
  or_default (some x) d = x

  -- The ratio of target to stop is 1.5 at least.
  unfoldable pub target_mult : F → F → F
  target_mult sm tm = if fl.lt (fl.div tm sm) (fl.lit 15 1) then fl.mul sm (fl.lit 15 1) else tm

  abbrev full_kelly : F → F → F → F
  full_kelly win_rate avg_win avg_loss =
      fl.sub win_rate (fl.div (fl.sub one win_rate) (fl.div avg_win avg_loss))

  abbrev pub kelly_wanted : F → F → F → F → F → F → F
  kelly_wanted balance entry win_rate avg_win avg_loss fraction =
      fl.div (fl.mul balance (fl.mul (full_kelly win_rate avg_win avg_loss) fraction)) entry

module _ {F : Type 0} ⦃fl : Float F⦄ (z : PositionSizer F) where
  abbrev pub max_qty : F → F → F
  max_qty balance entry = fl.div (fl.mul balance z.max_position_pct) entry

  -- The quantity that the risk allows, before its bound.
  abbrev pub risk_wanted : F → F → F → F
  risk_wanted balance entry stop_loss =
      fl.div (fl.mul balance z.risk_pct) (fabs (fl.sub entry stop_loss))

module _ {F : Type 0} ⦃fl : Float F⦄ (round : F → ℕ → F) (z : PositionSizer F) where
  unfoldable pub calc_sl_tp : F → F → PositionSide → Option F → Option F → F × F
  calc_sl_tp entry atr direction sl_mult tp_mult =
      let sm = or_default sl_mult z.atr_sl_mult in
      let tm = target_mult sm (or_default tp_mult z.atr_tp_mult) in
      if is_long direction
      then (round (fl.sub entry (fl.mul sm atr)) 8, round (fl.add entry (fl.mul tm atr)) 8)
      else (round (fl.add entry (fl.mul sm atr)) 8, round (fl.sub entry (fl.mul tm atr)) 8)

  unfoldable pub risk_qty : F → F → F → F
  risk_qty balance entry stop_loss =
      if fl.eq (fabs (fl.sub entry stop_loss)) nought || fl.eq entry nought
      then nought
      else round (fmin (risk_wanted z balance entry stop_loss) (max_qty z balance entry)) 8

  unfoldable pub kelly_qty : F → F → F → F → F → F → F → F
  kelly_qty balance entry stop_loss win_rate avg_win avg_loss fraction =
      if fl.eq avg_loss nought || fl.le win_rate nought
      then risk_qty balance entry stop_loss
      else if fl.le (full_kelly win_rate avg_win avg_loss) nought
      then risk_qty balance entry stop_loss
      else round
          (fmin (kelly_wanted balance entry win_rate avg_win avg_loss fraction)
            (max_qty z balance entry))
          8

  -- `kelly_fraction` has its default, 0.25.
  unfoldable pub calc_qty : F → F → F → Trained F → F
  calc_qty balance entry stop_loss t =
      if t.is_trained
        && (fl.lt (fl.lit 50 2) t.win_rate && (fl.lt nought t.avg_win && fl.lt nought t.avg_loss))
      then kelly_qty balance entry stop_loss t.win_rate t.avg_win t.avg_loss (fl.lit 25 2)
      else risk_qty balance entry stop_loss

-- Nothing, or within the bound on a position.
abbrev pub IsWithin : {F : Type 0} ⦃fl : Float F⦄ → (F → ℕ → F) → F → F → Type 0
IsWithin ⦃fl = fl⦄ round bound q = (q ≡ nought) ⊎ (fl.le q (round bound 8) ≡ true)

module _ {F : Type 0} ⦃fl : Float F⦄ (laws : FloatOrder F) (round : F → ℕ → F)
    (round_mono : (x y : F) → fl.le x y ≡ true → fl.le (round x 8) (round y 8) ≡ true) where
  fmin_le : (x y : F) → IsNumber x → IsNumber y → fl.le (fmin x y) y ≡ true
  fmin_le x y m n = elim (Bool-cases (fl.lt y x)) [
    | inl h ↦ rw h n
    | inr h ↦ rw h (le_of_not_lt laws y x n m h)
  ]

  IsWithin-risk_qty :
      (z : PositionSizer F) (balance entry stop_loss : F)
      → IsNumber (max_qty z balance entry)
      → (fl.eq (fabs (fl.sub entry stop_loss)) nought ≡ false
          → IsNumber (risk_wanted z balance entry stop_loss))
      → IsWithin round (max_qty z balance entry) (risk_qty round z balance entry stop_loss)
  unfolding risk_qty
  IsWithin-risk_qty z balance entry stop_loss m n =
      elim (Bool-cases (fl.eq (fabs (fl.sub entry stop_loss)) nought)) [
        | inl same ↦ rw same (inl refl)
        | inr apart ↦ rw apart (
            if_kept (IsWithin round (max_qty z balance entry)) _ nought _ (inl refl)
              (inr (round_mono _ _ (fmin_le _ _ (n apart) m))))
      ]

  IsWithin-kelly_qty :
      (z : PositionSizer F) (balance entry stop_loss win_rate avg_win avg_loss fraction : F)
      → IsNumber (max_qty z balance entry)
      → IsNumber (kelly_wanted balance entry win_rate avg_win avg_loss fraction)
      → IsWithin round (max_qty z balance entry) (risk_qty round z balance entry stop_loss)
      → IsWithin round
          (max_qty z balance entry)
          (kelly_qty round z balance entry stop_loss win_rate avg_win avg_loss fraction)
  unfolding kelly_qty
  IsWithin-kelly_qty z balance entry stop_loss win_rate avg_win avg_loss fraction m k risk =
      let bound = max_qty z balance entry in
      if_kept (IsWithin round bound) _ (risk_qty round z balance entry stop_loss) _ risk (
        if_kept (IsWithin round bound) _ (risk_qty round z balance entry stop_loss) _ risk
          (inr (round_mono _ _ (fmin_le _ _ k m))))

  -- The quantity of a trade is 0 or at most the share of the balance that one position may have,
  -- rounded, whichever method it is chosen by. The share has to be a number; the quotient of the
  -- risk one where the entry and the stop differ, and that of Kelly one where the model is trained,
  -- wins more than half of the time, and has a positive win and loss. Rounding keeps the order.
  pub calc_qty-IsWithin :
      (z : PositionSizer F) (balance entry stop_loss : F) (t : Trained F)
      → IsNumber (max_qty z balance entry)
      → (fl.eq (fabs (fl.sub entry stop_loss)) nought ≡ false
          → IsNumber (risk_wanted z balance entry stop_loss))
      → (t.is_trained ≡ true
          → fl.lt (fl.lit 50 2) t.win_rate ≡ true
          → fl.lt nought t.avg_win ≡ true
          → fl.lt nought t.avg_loss ≡ true
          → IsNumber (kelly_wanted balance entry t.win_rate t.avg_win t.avg_loss (fl.lit 25 2)))
      → IsWithin round (max_qty z balance entry) (calc_qty round z balance entry stop_loss t)
  unfolding calc_qty
  calc_qty-IsWithin z balance entry stop_loss t m n k =
      let risk = IsWithin-risk_qty z balance entry stop_loss m n in
      let asks_kelly =
        t.is_trained
        && (fl.lt (fl.lit 50 2) t.win_rate
            && (fl.lt nought t.avg_win && fl.lt nought t.avg_loss)) in
      elim (Bool-cases asks_kelly) [
        | inl asks ↦
            let number = k (ground arith) (ground arith) (ground arith) (ground arith) in
            rw asks (
              IsWithin-kelly_qty z balance entry stop_loss t.win_rate t.avg_win t.avg_loss _ m
                number risk)
        | inr other ↦ rw other risk
      ]
