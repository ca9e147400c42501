-- ===== src/Backtest/Drawdown.antt =====
-- The drawdown of src/botik/backtest/backtest_runner.py against its description by pairs of values.
use botik.Base.{◌≡◌, ◌⊎◌, ◌∙◌, inl, inr, refl, ap, sym, true, List, [], ◌∷◌, All, Bool-cases}
use mathlib.Core.Path.{subst}
use botik.Base.Float.{Float, FloatOrder, IsNumber, nought, fmax, le_of_lt, le_of_not_lt}
use botik.Backtest.Metrics.{drawdown_loop, calc_max_drawdown}

module _ {F : Type 0} ⦃fl : Float F⦄ where
  abbrev In : F → List F → Type 0
  In y [] = ⊥
  In y (x ∷ xs) = (y ≡ x) ⊎ In y xs

  -- A difference between a value of the curve and the same or a later one.
  abbrev pub IsFall : F → List F → Type 0
  IsFall d [] = ⊥
  IsFall d (x ∷ xs) = ((y : F) × In y (x ∷ xs) × (d ≡ fl.sub x y)) ⊎ IsFall d xs

-- What IEEE 754 says of differences of finite numbers.
pub record Differences {F : Type 0} ⦃fl : Float F⦄ (IsFinite : F → Type 0) : Type 0 where
  pub finite_number : (x : F) → IsFinite x → IsNumber x
  pub sub_number : (x y : F) → IsFinite x → IsFinite y → IsNumber (fl.sub x y)
  pub sub_mono :
      (x y z : F)
      → IsFinite x
      → IsFinite y
      → IsFinite z
      → fl.le x y ≡ true
      → fl.le (fl.sub x z) (fl.sub y z) ≡ true

module _ {F : Type 0} ⦃fl : Float F⦄ (laws : FloatOrder F) where
  le_fmax_left : (x y : F) → IsNumber x → fl.le x (fmax x y) ≡ true
  le_fmax_left x y n = elim (Bool-cases (fl.lt x y)) [
    | inl h ↦ rw h (le_of_lt laws x y h)
    | inr h ↦ rw h n
  ]

  le_fmax_right : (x y : F) → IsNumber x → IsNumber y → fl.le y (fmax x y) ≡ true
  le_fmax_right x y n m = elim (Bool-cases (fl.lt x y)) [
    | inl h ↦ rw h m
    | inr h ↦ rw h (le_of_not_lt laws x y n m h)
  ]

  fmax_kept : (P : F → Type 0) (x y : F) → P x → P y → P (fmax x y)
  fmax_kept P x y p q = elim (Bool-cases (fl.lt x y)) [ inl h ↦ rw h q | inr h ↦ rw h p ]

module _ {F : Type 0} ⦃fl : Float F⦄ where
  -- A fall from `peak`, or between two values.
  abbrev FromPeak : F → F → List F → Type 0
  FromPeak d peak xs = ((y : F) × In y xs × (d ≡ fl.sub peak y)) ⊎ IsFall d xs

  fmax_cases : (x y : F) → (fmax x y ≡ x) ⊎ (fmax x y ≡ y)
  fmax_cases x y = elim (Bool-cases (fl.lt x y)) [ inl h ↦ inr (rw h) | inr h ↦ inl (rw h) ]

  -- A fall from either of a peak and a value is one of the values from that peak on.
  from_either :
      (d p q x : F) (xs : List F) → (q ≡ p) ⊎ (q ≡ x) → FromPeak d q xs → FromPeak d p (x ∷ xs)
  from_either d p q x xs (inl e) (inl (y, m, f)) = inl (y, inr m, f ∙ ap (λ z. fl.sub z y) e)
  from_either d p q x xs (inr e) (inl (y, m, f)) = inr (inl (y, inr m, f ∙ ap (λ z. fl.sub z y) e))
  from_either d p q x xs h (inr f) = inr (inr f)

  at_value : (p q x : F) (xs : List F) → (q ≡ p) ⊎ (q ≡ x) → FromPeak (fl.sub q x) p (x ∷ xs)
  at_value p q x xs (inl e) = inl (x, inl refl, ap (λ z. fl.sub z x) e)
  at_value p q x xs (inr e) = inr (inl (x, inl refl, ap (λ z. fl.sub z x) e))

  -- The result of the loop is where it began or one of the falls.
  loop_attained :
      (peak max_dd : F) (xs : List F)
      → (drawdown_loop peak max_dd xs ≡ max_dd) ⊎ FromPeak (drawdown_loop peak max_dd xs) peak xs
  unfolding drawdown_loop
  loop_attained peak max_dd [] = inl refl
  loop_attained peak max_dd (x ∷ xs) =
      let q = fmax peak x in
      let r = drawdown_loop q (fmax max_dd (fl.sub q x)) xs in
      elim (loop_attained q (fmax max_dd (fl.sub q x)) xs) [
        | inl e ↦ elim (fmax_cases max_dd (fl.sub q x)) [
          | inl f ↦ inl (e ∙ f)
          | inr f ↦ inr (
              subst (λ d. FromPeak d peak (x ∷ xs)) (sym (e ∙ f))
                (at_value peak q x xs (fmax_cases peak x)))
        ]
        | inr f ↦ inr (from_either r peak q x xs (fmax_cases peak x) f)
      ]

module _ {F : Type 0} ⦃fl : Float F⦄ (laws : FloatOrder F) {IsFinite : F → Type 0}
    (diffs : Differences IsFinite) where
  open laws use {le_trans}
  open diffs use {finite_number, sub_number, sub_mono}

  -- A lower peak has falls that are no deeper.
  below_lower :
      (p q r : F) (ys : List F)
      → IsFinite p
      → IsFinite q
      → All IsFinite ys
      → fl.le p q ≡ true
      → All (λ y. fl.le (fl.sub q y) r ≡ true) ys
      → All (λ y. fl.le (fl.sub p y) r ≡ true) ys
  below_lower p q r [] fp fq fys h b = tt
  below_lower p q r (y ∷ ys) fp fq (fy, fys) h (b, bs) =
      (le_trans _ _ _ (sub_mono p q y fp fq fy h) b, below_lower p q r ys fp fq fys h bs)

  from_all : (P : F → Type 0) (ys : List F) → All P ys → (y : F) → In y ys → P y
  from_all P [] ps y m = elim m [ ]
  from_all P (x ∷ xs) (p, ps) y (inl e) = rw e p
  from_all P (x ∷ xs) (p, ps) y (inr m) = from_all P xs ps y m

  abbrev Bounds : F → F → F → List F → Type 0
  Bounds peak max_dd r xs =
      (fl.le max_dd r ≡ true)
      × All (λ y. fl.le (fl.sub peak y) r ≡ true) xs
      × ((d : F) → IsFall d xs → fl.le d r ≡ true)

  -- The loop ends above all falls, from the peak before it and between its own values.
  loop-Bounds :
      (peak max_dd : F) (xs : List F)
      → IsFinite peak
      → IsNumber max_dd
      → All IsFinite xs
      → Bounds peak max_dd (drawdown_loop peak max_dd xs) xs
  unfolding drawdown_loop
  loop-Bounds peak max_dd [] fp n fxs = (n, tt, λ d h. elim h [ ])
  loop-Bounds peak max_dd (x ∷ xs) fp n (fx, fxs) =
      let q = fmax peak x in
      let fq : IsFinite q = fmax_kept laws IsFinite peak x fp fx in
      let m : IsNumber (fl.sub q x) = sub_number q x fq fx in
      let dd = fmax max_dd (fl.sub q x) in
      let ih = loop-Bounds q dd xs fq (fmax_kept laws IsNumber max_dd (fl.sub q x) n m) fxs in
      let at_x = le_trans _ _ _ (le_fmax_right laws max_dd (fl.sub q x) n m) ih.0 in
      let below = λ (p : F) (f : IsFinite p) (h : fl.le p q ≡ true).
        below_lower p q (drawdown_loop q dd xs) (x ∷ xs) f fq (fx, fxs) h (at_x, ih.1) in
      let of_x =
        below x fx (le_fmax_right laws peak x (finite_number peak fp) (finite_number x fx)) in
      (
        le_trans _ _ _ (le_fmax_left laws max_dd (fl.sub q x) n) ih.0,
        below peak fp (le_fmax_left laws peak x (finite_number peak fp)),
        λ d h. elim h [
          | inl (y, y_in, e) ↦ rw e (
              from_all (λ z. fl.le (fl.sub x z) (drawdown_loop q dd xs) ≡ true) (x ∷ xs) of_x y
                y_in)
          | inr later ↦ ih.2 d later
        ],
      )

  -- The drawdown of a curve of two finite values or more is at least 0 and at least the difference
  -- between any value and the same or a later one, and it is 0 or one of these differences.
  pub calc_max_drawdown_lem :
      (x y : F) (xs : List F)
      → All IsFinite (x ∷ y ∷ xs)
      → let dd = (calc_max_drawdown (x ∷ y ∷ xs)).0 in
        ((d : F) → IsFall d (x ∷ y ∷ xs) → fl.le d dd ≡ true)
        × (fl.le nought dd ≡ true)
        × ((dd ≡ nought) ⊎ IsFall dd (x ∷ y ∷ xs))
  unfolding calc_max_drawdown
  calc_max_drawdown_lem x y xs (fx, rest) =
      let all = x ∷ y ∷ xs in
      let b = loop-Bounds x nought all fx (laws.lit_number 0 0) (fx, rest) in
      (
        b.2,
        b.0,
        elim (loop_attained x nought all) [
          | inl e ↦ inl e
          | inr (inl (z, m, e)) ↦ inr (inl (z, m, e))
          | inr (inr f) ↦ inr f
        ],
      )
