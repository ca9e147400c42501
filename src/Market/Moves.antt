-- ===== src/Market/Moves.antt =====
-- The moves of the mid from second to second: `_bps_changes_from_mid_series` of
-- src/botik/strategy/pair_admission.py.
use botik.Base.{ℕ, ◌/◌, List, [], ◌∷◌, if◌then◌else◌, ltb, Dict, insert}
use botik.Base.Float.{Float, nought}

module _ {F : Type 0} where
  -- `sorted(d.items(), key=lambda x: x[0])`
  unfoldable pub insert_by_key : ℕ × F → List (ℕ × F) → List (ℕ × F)
  insert_by_key p [] = p ∷ []
  insert_by_key p (q ∷ qs) = if ltb q.0 p.0 then q ∷ insert_by_key p qs else p ∷ q ∷ qs

  unfoldable pub sort_by_key : List (ℕ × F) → List (ℕ × F)
  sort_by_key [] = []
  sort_by_key (p ∷ ps) = insert_by_key p (sort_by_key ps)

module _ {F : Type 0} ⦃fl : Float F⦄ where
  -- The last mid above 0 of each second.
  unfoldable pub second_mids : List (ℕ × F) → Dict F → Dict F
  second_mids [] d = d
  second_mids ((ts, mid) ∷ series) d =
      second_mids series (if fl.lt nought mid then insert (ts / 1_000) mid d else d)

  abbrev pub change_bps : F → F → F
  change_bps prev cur = fl.mul (fl.div (fl.sub cur prev) prev) (fl.lit 10_000 0)

  -- The loop over the points, with the one before.
  unfoldable pub changes_after : F → List (ℕ × F) → List F
  changes_after prev [] = []
  changes_after prev ((t, cur) ∷ points) =
      let rest = changes_after cur points in
      if fl.le prev nought then rest else change_bps prev cur ∷ rest

  abbrev changes_of : List (ℕ × F) → List F
  changes_of [] = []
  changes_of ((t, mid) ∷ points) = changes_after mid points

  unfoldable pub bps_changes_from_mid_series : List (ℕ × F) → List F
  bps_changes_from_mid_series series = changes_of (sort_by_key (second_mids series []))
