-- ===== src/Market/Series.antt =====
-- The loops that pop old entries from the left of a deque.
use botik.Base.{
  ◌≤◌, ◌≡◌, Bool, false, List, [], ◌∷◌, length, if◌then◌else◌, arith, Bool-cases, inl, inr,
}

module _ {A : Type 0} where
  -- `while d and old(d[0]): d.popleft()`
  unfoldable pub prune : (A → Bool) → List A → List A
  prune old [] = []
  prune old (x ∷ xs) = if old x then prune old xs else x ∷ xs

  -- The first entry, if any, is not old.
  abbrev pub HasNew : (A → Bool) → List A → Type 0
  HasNew old [] = Unit
  HasNew old (x ∷ xs) = old x ≡ false

  pub HasNew-prune : (old : A → Bool) (xs : List A) → HasNew old (prune old xs)
  unfolding prune
  HasNew-prune old [] = tt
  HasNew-prune old (x ∷ xs) = elim (Bool-cases (old x)) [
    | inl h ↦ rw h (HasNew-prune old xs)
    | inr h ↦ rw h h
  ]

  pub length-prune : (old : A → Bool) (xs : List A) → length (prune old xs) ≤ length xs
  unfolding prune
  length-prune old [] = omega arith
  length-prune old (x ∷ xs) = ground (arith, length-prune old xs)
