-- ===== src/Risk/Fills.antt =====
-- What the accounting of fills promises of the side of a position, and the protection plan of the
-- prices that it sets.
use botik.Base.{◌≡◌, ◌⊎◌, inl, inr, true, false, ◌&&◌, if◌then◌else◌, arith, Bool-cases}
use botik.Base.Float.{Float, FloatOrder, IsNumber, nought, fabs, lt_of_lt_le, le_of_lt}
use botik.Risk.Position.{apply_signed}

-- What IEEE 754 says of the sign of a sum and of a negation: the rounded sum has the sign of the
-- exact one, and is zero only if that is.
pub record SignLaws (F : Type 0) ⦃fl : Float F⦄ : Type 0 where
  pub add_pos : (x y : F) → fl.lt (fl.neg y) x ≡ true → fl.lt nought (fl.add x y) ≡ true
  pub add_neg : (x y : F) → fl.lt x (fl.neg y) ≡ true → fl.lt (fl.add x y) nought ≡ true
  pub neg_pos : (x : F) → fl.lt nought x ≡ true → fl.lt (fl.neg x) nought ≡ true
  pub neg_neg : (x : F) → fl.lt x nought ≡ true → fl.lt nought (fl.neg x) ≡ true
  pub neg_swap : (x y : F) → fl.lt x (fl.neg y) ≡ true → fl.lt y (fl.neg x) ≡ true
  pub swap_neg : (x y : F) → fl.lt (fl.neg x) y ≡ true → fl.lt (fl.neg y) x ≡ true
  pub eq-le-le : (x y : F) → fl.eq x y ≡ (fl.le x y && fl.le y x)

-- The side of a quantity.
pub data Side : Type 0 where
  long short flat : Side

module _ {F : Type 0} ⦃fl : Float F⦄ where
  abbrev pub side_of : F → Side
  side_of q = if fl.lt nought q then Side.long else if fl.lt q nought then Side.short else Side.flat

  -- The side after a fill against the position: it stays, closes or turns.
  abbrev pub side_against : F → F → Side
  side_against c s =
      if fl.lt (fabs s) (fabs c)
      then side_of c
      else if fl.eq (fabs s) (fabs c)
      then Side.flat
      else side_of s

  -- The side after a fill of `s` (positive to buy, negative to sell) on a position of `c`.
  abbrev pub side_after : F → F → Side
  side_after c s =
      if fl.lt nought c
      then if fl.lt nought s then Side.long else side_against c s
      else if fl.lt c nought
      then if fl.lt s nought then Side.short else side_against c s
      else side_of s

module _ {F : Type 0} ⦃fl : Float F⦄ (laws : FloatOrder F) (signs : SignLaws F) where
  open laws use {lit_number, lt_numbers, le_total, lt-eq-not-le}
  open signs use {add_pos, add_neg, neg_pos, neg_neg, neg_swap, swap_neg, eq-le-le}

  abbrev IsLong : F → Type 0
  IsLong x = (fl.lt x nought ≡ false) × (fl.eq x nought ≡ false) × (side_of x ≡ Side.long)

  abbrev IsShort : F → Type 0
  IsShort x = (fl.lt nought x ≡ false) × (fl.eq x nought ≡ false) × (side_of x ≡ Side.short)

  pos-IsLong : (x : F) → fl.lt nought x ≡ true → IsLong x
  pos-IsLong x h =
      let n = lt_numbers nought x h in
      ground (
        arith,
        lt-eq-not-le nought x n.0 n.1,
        lt-eq-not-le x nought n.1 n.0,
        le_total nought x n.0 n.1,
        eq-le-le x nought,
      )

  neg-IsShort : (x : F) → fl.lt x nought ≡ true → IsShort x
  neg-IsShort x h =
      let n = lt_numbers x nought h in
      ground (
        arith,
        lt-eq-not-le nought x n.1 n.0,
        lt-eq-not-le x nought n.0 n.1,
        le_total nought x n.1 n.0,
        eq-le-le x nought,
      )

  lt_trans : (x y z : F) → fl.lt x y ≡ true → fl.lt y z ≡ true → fl.lt x z ≡ true
  lt_trans x y z h k = lt_of_lt_le laws x y z h (le_of_lt laws y z k)

  nought-flat : side_of (let z : F = nought in z) ≡ Side.flat
  nought-flat = ground (arith, lit_number 0 0, lt-eq-not-le nought nought)

  -- Two quantities that are neither smaller nor equal are the other way round.
  lt_of_not :
      (x y : F) → IsNumber x → IsNumber y → fl.lt x y ≡ false → fl.eq x y ≡ false → fl.lt y x ≡ true
  lt_of_not x y p q h e =
      ground (arith, lt-eq-not-le x y p q, lt-eq-not-le y x q p, le_total x y p q, eq-le-le x y)

  module _ (c s a p : F) where
    long-buy :
        fl.lt nought c ≡ true → fl.lt nought s ≡ true → side_of (apply_signed c a s p).0 ≡ Side.long
    unfolding apply_signed
    long-buy h k =
        let bigger = add_pos c s (lt_trans (fl.neg s) nought c (neg_pos s k) h) in
        ground (arith, pos-IsLong c h, pos-IsLong s k, pos-IsLong (fl.add c s) bigger)

    short-sell :
        fl.lt c nought ≡ true
        → fl.lt s nought ≡ true
        → side_of (apply_signed c a s p).0 ≡ Side.short
    unfolding apply_signed
    short-sell h k =
        let bigger = add_neg c s (lt_trans c nought (fl.neg s) h (neg_neg s k)) in
        ground (arith, neg-IsShort c h, neg-IsShort s k, neg-IsShort (fl.add c s) bigger)

    long-sell :
        fl.lt nought c ≡ true
        → fl.lt s nought ≡ true
        → side_of (apply_signed c a s p).0 ≡ side_against c s
    unfolding apply_signed
    long-sell h k =
        let m = neg_neg s k in
        let n = (lt_numbers nought (fl.neg s) m).1 in
        ground (
          arith,
          pos-IsLong c h,
          neg-IsShort s k,
          nought-flat,
          add_pos c s,
          add_neg c s,
          pos-IsLong (fl.add c s),
          neg-IsShort (fl.add c s),
          lt_of_not (fl.neg s) c n (lt_numbers nought c h).1,
        )

    short-buy :
        fl.lt c nought ≡ true
        → fl.lt nought s ≡ true
        → side_of (apply_signed c a s p).0 ≡ side_against c s
    unfolding apply_signed
    short-buy h k =
        let m = neg_neg c h in
        let n = (lt_numbers nought (fl.neg c) m).1 in
        ground (
          arith,
          neg-IsShort c h,
          pos-IsLong s k,
          nought-flat,
          add_pos c s,
          add_neg c s,
          pos-IsLong (fl.add c s),
          neg-IsShort (fl.add c s),
          neg_swap s c,
          swap_neg c s,
          lt_of_not s (fl.neg c) (lt_numbers nought s k).1 n,
        )

    -- Away from NaN, a fill leaves the position on the side that it should: a flat position takes
    -- the side of the fill; a fill in the position's direction keeps its side; one against it keeps
    -- the side if it is smaller, closes the position if it is equal, and turns it if it is larger.
    pub side_of-apply_signed :
        IsNumber c
        → (fl.lt nought s ≡ true) ⊎ (fl.lt s nought ≡ true)
        → side_of (apply_signed c a s p).0 ≡ side_after c s
    unfolding apply_signed
    side_of-apply_signed n k = elim (Bool-cases (fl.lt nought c)) [
      | inl h ↦ elim k [
        | inl b ↦ ground (arith, long-buy h b)
        | inr b ↦ ground (arith, long-sell h b, neg-IsShort s b)
      ]
      | inr h ↦ elim (Bool-cases (fl.lt c nought)) [
        | inl g ↦ elim k [
          | inl b ↦ ground (arith, short-buy g b, pos-IsLong s b)
          | inr b ↦ ground (arith, short-sell g b)
        ]
        | inr g ↦ ground (
          arith,
          lt-eq-not-le nought c (lit_number 0 0) n,
          lt-eq-not-le c nought n (lit_number 0 0),
          eq-le-le c nought,
        )
      ]
    ]
