-- ===== src/Strategy/Spacing.antt =====
-- The pause between the quotes of a symbol, for both strategies of src/botik/strategy that keep one.
use botik.Base.{
  ℕ, ◌+◌, ◌≤◌, ◌==◌, ==_iff, ◌≡◌, ◌∙◌, ◌⊎◌, inl, inr, refl, ap, sym, Bool, true, false, some, List,
  [], ◌∷◌, ◌++◌, All, if◌then◌else◌, Dict, lookup, lookup-insert, arith, Bool-cases,
}
use botik.Strategy.Quoting.{
  OrderIntent, Outcome, rejected, quoted, Walk, is_cooling, take_outcome, walk, first_walk,
  get_intents, time_or_zero, run_calls,
}

-- The pause is read from the entry of the symbol alone.
is_cooling-lookup :
    (pause now k : ℕ) (d e : Dict ℕ)
    → lookup k d ≡ lookup k e
    → is_cooling pause now k d ≡ is_cooling pause now k e
unfolding is_cooling
is_cooling-lookup pause now k d e h = rw h

module _ {F : Type 0} where
  -- The intents have one of the symbol.
  unfoldable pub mentions : ℕ → List (OrderIntent F) → Bool
  mentions k [] = false
  mentions k (x ∷ xs) = if x.symbol == k then true else mentions k xs

  mentions-append :
      (k : ℕ) (xs ys : List (OrderIntent F))
      → mentions k xs ≡ false
      → mentions k ys ≡ false
      → mentions k (xs ++ ys) ≡ false
  unfolding mentions
  mentions-append k [] ys h g = g
  mentions-append k (x ∷ xs) ys h g = ground (arith, mentions-append k xs ys)

  not_mentioned :
      (k s : ℕ) (xs : List (OrderIntent F))
      → (s == k) ≡ false
      → All (λ (x : OrderIntent F). x.symbol ≡ s) xs
      → mentions k xs ≡ false
  unfolding mentions
  not_mentioned k s [] h a = refl
  not_mentioned k s (x ∷ xs) h (e, a) = ground (arith, h, e, not_mentioned k s xs h a)

  -- Quotes are made after the pause only, and are for the symbol that was looked at.
  abbrev pub IsGuarded : ℕ → ℕ → (Dict ℕ → ℕ → Outcome F) → Type 0
  IsGuarded pause now evaluate =
      (last : Dict ℕ) (s : ℕ) (xs : List (OrderIntent F))
      → evaluate last s ≡ quoted xs
      → (is_cooling pause now s last ≡ false) × All (λ (x : OrderIntent F). x.symbol ≡ s) xs

  -- What a call does for a symbol: nothing, or it sets its time, once the pause was over.
  abbrev pub Seen : ℕ → ℕ → ℕ → Dict ℕ → Walk F → Type 0
  Seen pause now k last w =
      ((lookup k w.last ≡ lookup k last) × (mentions k w.intents ≡ false))
      ⊎ ((lookup k w.last ≡ some now) × (is_cooling pause now k last ≡ false))

module _ {F : Type 0} (pause now k : ℕ) (last : Dict ℕ) where
  take_outcome-Seen :
      (s : ℕ) (o : Outcome F) (w : Walk F)
      → ((xs : List (OrderIntent F))
          → o ≡ quoted xs
          → (is_cooling pause now s w.last ≡ false) × All (λ (x : OrderIntent F). x.symbol ≡ s) xs)
      → Seen pause now k last w
      → Seen pause now k last (take_outcome now s o w)
  unfolding take_outcome
  take_outcome-Seen s (rejected why) w g h = h
  take_outcome-Seen s (quoted xs) w g (inl (e, none_yet)) =
      let (over, for_s) = g xs refl in
      elim (Bool-cases (k == s)) [
        | inl same ↦
            let k_is_s : k ≡ s = (==_iff k s).0 same in
            inr (
              rw (lookup-insert k s now w.last, same) refl,
              sym (is_cooling-lookup pause now k w.last last e)
                  ∙ ap (λ j. is_cooling pause now j w.last) k_is_s
                  ∙ over,
            )
        | inr other ↦ inl (
          rw (lookup-insert k s now w.last, other) e,
          mentions-append k w.intents xs none_yet
              (not_mentioned k s xs (ground (arith, other)) for_s),
        )
      ]
  take_outcome-Seen s (quoted xs) w g (inr (e, over)) =
      inr (lookup-insert k s now w.last ∙ ground (arith, e), over)

  walk-Seen :
      (evaluate : Dict ℕ → ℕ → Outcome F) (symbols : List ℕ) (w : Walk F)
      → IsGuarded pause now evaluate
      → Seen pause now k last w
      → Seen pause now k last (walk evaluate now symbols w)
  unfolding walk
  walk-Seen evaluate [] w g h = h
  walk-Seen evaluate (s ∷ symbols) w g h =
      walk-Seen evaluate symbols (take_outcome now s (evaluate w.last s) w) g
        (take_outcome-Seen s (evaluate w.last s) w (λ xs e. g w.last s xs e) h)

  pub get_intents-Seen :
      (evaluate : Dict ℕ → ℕ → Outcome F) (paused : Bool) (symbols : List ℕ)
      → IsGuarded pause now evaluate
      → Seen pause now k last (get_intents evaluate now paused symbols last)
  unfolding get_intents mentions
  get_intents-Seen evaluate true symbols g = inl (refl, refl)
  get_intents-Seen evaluate false symbols g =
      walk-Seen evaluate symbols (first_walk last) g (inl (refl, refl))

module _ {F : Type 0} where
  -- The times of the calls that quote a symbol.
  unfoldable pub times_of : ℕ → List (ℕ × List (OrderIntent F)) → List ℕ
  times_of k [] = []
  times_of k ((now, xs) ∷ calls) =
      let rest = times_of k calls in if mentions k xs then now ∷ rest else rest

-- Each time is at least the pause after the one before it, the first after `from`.
abbrev pub IsSpaced : ℕ → ℕ → List ℕ → Type 0
IsSpaced pause from [] = Unit
IsSpaced pause from (t ∷ ts) = (from + pause ≤ t) × IsSpaced pause t ts

IsSpaced-le :
    (pause from later : ℕ) (ts : List ℕ)
    → from ≤ later
    → IsSpaced pause later ts
    → IsSpaced pause from ts
IsSpaced-le pause from later [] h s = tt
IsSpaced-le pause from later (t ∷ ts) h (e, s) = (omega (arith, h), s)

over-le :
    (pause now k : ℕ) (last : Dict ℕ)
    → is_cooling pause now k last ≡ false
    → time_or_zero (lookup k last) + pause ≤ now
unfolding is_cooling
over-le pause now k last h = ground (arith, h)

module _ {F M : Type 0} (pause k : ℕ) (call : ℕ → M → Dict ℕ → Walk F)
    (seen : (now : ℕ) (m : M) (last : Dict ℕ) → Seen pause now k last (call now m last)) where
  pub run_calls-IsSpaced :
      (calls : List (ℕ × M)) (last : Dict ℕ)
      → IsSpaced pause (time_or_zero (lookup k last)) (times_of k (run_calls call calls last))
  unfolding run_calls times_of
  run_calls-IsSpaced [] last = tt
  run_calls-IsSpaced ((now, m) ∷ calls) last =
      let w = call now m last in
      let ih = run_calls-IsSpaced calls w.last in
      elim (seen now m last) [
        | inl (e, silent) ↦ rw silent (rw e at ih)
        | inr (e, over) ↦
            after_quote (mentions k w.intents) (rw e at ih) (over-le pause now k last over)
      ]
    where
      after_quote :
          (b : Bool)
          → IsSpaced pause now (times_of k (run_calls call calls (call now m last).last))
          → time_or_zero (lookup k last) + pause ≤ now
          → IsSpaced pause (time_or_zero (lookup k last)) (
              if b
              then now ∷ times_of k (run_calls call calls (call now m last).last)
              else times_of k (run_calls call calls (call now m last).last))
      after_quote true s h = (h, s)
      after_quote false s h = IsSpaced-le pause _ now _ (omega (arith, h)) s
