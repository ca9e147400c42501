-- ===== src/Market/Tape.antt =====
-- What the state keeps of the public trades.
use botik.Base.{
  ℕ, zero, suc, ◌-◌, ◌≤◌, ◌≡◌, refl, sym, ap, ◌∙◌, ◌==◌, ◌⊎◌, Bool, ◌||◌, true, false, List, [],
  ◌∷◌, ◌++◌, length, keep, keep-append, append_assoc, append-nil, length-append, length-drop, drop,
  drop-append, if◌then◌else◌, arith, Bool-cases, inl, inr, lookup, lookup-insert,
}
use botik.Base.Float.{Float}
use botik.Market.Series.{prune, HasNew, HasNew-prune, length-prune}
use botik.Market.State.{
  PublicTradeEvent, TradingState, or_empty, is_stale, max_trades, keep_newest, push_trade,
  record_public_trade, get_public_trades,
}

module _ {F : Type 0} ⦃fl : Float F⦄ where
  -- The trades of a run of messages, in their order.
  unfoldable pub record_all : List (PublicTradeEvent F) → TradingState F → TradingState F
  record_all [] s = s
  record_all (t ∷ ts) s = record_all ts (record_public_trade t s)

  -- Those of a symbol.
  abbrev pub of_symbol : ℕ → List (PublicTradeEvent F) → List (PublicTradeEvent F)
  of_symbol k = keep λ t. t.symbol == k

  -- A later trade makes `t` stale.
  abbrev pub any_stale : PublicTradeEvent F → List (PublicTradeEvent F) → Bool
  any_stale t [] = false
  any_stale t (u ∷ us) = is_stale u.ts_ms t || any_stale t us

  -- Why a trade is gone, of those after it: they are as many as are kept, or make it stale.
  abbrev pub HasLeft : PublicTradeEvent F → List (PublicTradeEvent F) → Type 0
  HasLeft t after = (max_trades ≤ length after) ⊎ (any_stale t after ≡ true)

  abbrev pub HaveLeft : List (PublicTradeEvent F) → List (PublicTradeEvent F) → Type 0
  HaveLeft [] kept = Unit
  HaveLeft (t ∷ front) kept = HasLeft t (front ++ kept) × HaveLeft front kept

  -- The kept trades are the last ones, and each one before them is gone for a reason.
  abbrev pub IsRest : List (PublicTradeEvent F) → List (PublicTradeEvent F) → Type 0
  IsRest seen kept =
      (front : List (PublicTradeEvent F)) × (seen ≡ front ++ kept) × HaveLeft front kept

  any_stale-append :
      (t : PublicTradeEvent F) (us ws : List (PublicTradeEvent F))
      → any_stale t (us ++ ws) ≡ any_stale t us || any_stale t ws
  any_stale-append t [] ws = refl
  any_stale-append t (u ∷ us) ws = ground (arith, any_stale-append t us ws)

  HasLeft-later :
      (t u : PublicTradeEvent F) (after : List (PublicTradeEvent F))
      → HasLeft t after
      → HasLeft t (after ++ u ∷ [])
  HasLeft-later t u after (inl many) = inl (omega (arith, length-append after (u ∷ [])))
  HasLeft-later t u after (inr stale) = inr (rw (any_stale-append t after (u ∷ []), stale) refl)

  HaveLeft-later :
      (u : PublicTradeEvent F) (front kept : List (PublicTradeEvent F))
      → HaveLeft front kept
      → HaveLeft front (kept ++ u ∷ [])
  HaveLeft-later u [] kept h = h
  HaveLeft-later u (t ∷ front) kept (h, hs) = (
    rw⁻¹ (append_assoc front kept (u ∷ [])) (HasLeft-later t u (front ++ kept) h),
    HaveLeft-later u front kept hs,
  )

  HaveLeft-more :
      (x : PublicTradeEvent F) (front kept : List (PublicTradeEvent F))
      → HaveLeft front (x ∷ kept)
      → HasLeft x kept
      → HaveLeft (front ++ x ∷ []) kept
  HaveLeft-more x [] kept h left = (left, tt)
  HaveLeft-more x (t ∷ front) kept (h, hs) left =
      (rw (append_assoc front (x ∷ []) kept) h, HaveLeft-more x front kept hs left)

  IsRest-later :
      (u : PublicTradeEvent F) (seen kept : List (PublicTradeEvent F))
      → IsRest seen kept
      → IsRest (seen ++ u ∷ []) (kept ++ u ∷ [])
  IsRest-later u seen kept (front, e, h) = (
    front,
    ap (λ ys. ys ++ u ∷ []) e ∙ append_assoc front kept (u ∷ []),
    HaveLeft-later u front kept h,
  )

  IsRest-tail :
      (x : PublicTradeEvent F) (seen kept : List (PublicTradeEvent F))
      → IsRest seen (x ∷ kept)
      → HasLeft x kept
      → IsRest seen kept
  IsRest-tail x seen kept (front, e, h) left = (
    front ++ x ∷ [],
    e ∙ sym (append_assoc front (x ∷ []) kept),
    HaveLeft-more x front kept h left,
  )

  IsRest-drop :
      (n : ℕ) (seen kept : List (PublicTradeEvent F))
      → n ≤ length kept - max_trades
      → IsRest seen kept
      → IsRest seen (drop n kept)
  IsRest-drop zero seen kept h r = r
  IsRest-drop (suc n) seen [] h r = r
  IsRest-drop (suc n) seen (x ∷ kept) h r =
      IsRest-drop n seen kept (omega arith) (IsRest-tail x seen kept r (inl (omega arith)))

  IsRest-prune :
      (u : PublicTradeEvent F) (seen kept : List (PublicTradeEvent F))
      → IsRest seen (kept ++ u ∷ [])
      → IsRest seen (prune (is_stale u.ts_ms) (kept ++ u ∷ []))
  unfolding prune
  IsRest-prune u seen [] r = rw (let e : is_stale u.ts_ms u ≡ false = ground arith in e) r
  IsRest-prune u seen (x ∷ kept) r = elim (Bool-cases (is_stale u.ts_ms x)) [
    | inl old ↦
        let left : HasLeft x (kept ++ u ∷ []) =
          inr (rw (any_stale-append x kept (u ∷ [])) (ground arith)) in
        rw old (IsRest-prune u seen kept (IsRest-tail x seen (kept ++ u ∷ []) r left))
    | inr new ↦ rw new r
  ]

  push_trade-IsRest :
      (u : PublicTradeEvent F) (seen kept : List (PublicTradeEvent F))
      → IsRest seen kept
      → IsRest (seen ++ u ∷ []) (push_trade u kept)
  unfolding push_trade
  push_trade-IsRest u seen kept r =
      let all = seen ++ u ∷ [] in
      let grown = kept ++ u ∷ [] in
      let n = length grown - max_trades in
      let fits : n ≤ length kept = omega (arith, length-append kept (u ∷ [])) in
      let same = drop-append n kept (u ∷ []) fits in
      let dropped : IsRest all (drop n kept ++ u ∷ []) =
        rw⁻¹ same (IsRest-drop n all grown (omega arith) (IsRest-later u seen kept r)) in
      rw same (IsRest-prune u all (drop n kept) dropped)

  push_length :
      (t : PublicTradeEvent F) (xs : List (PublicTradeEvent F))
      → length (push_trade t xs) ≤ max_trades
  unfolding push_trade
  push_length t xs =
      let grown = xs ++ t ∷ [] in
      omega (
        arith,
        length-prune (is_stale t.ts_ms) (keep_newest max_trades grown),
        length-drop (length grown - max_trades) grown,
      )

  get_recorded :
      (t : PublicTradeEvent F) (k : ℕ) (s : TradingState F)
      → get_public_trades k (record_public_trade t s)
        ≡ (if k == t.symbol then push_trade t (get_public_trades k s) else get_public_trades k s)
  unfolding get_public_trades record_public_trade
  get_recorded t k s =
      let added = push_trade t (or_empty (lookup t.symbol s.public_trades)) in
      ground (arith, lookup-insert k t.symbol added s.public_trades)

  -- The time of the newest trade.
  abbrev pub newest : ℕ → List (PublicTradeEvent F) → ℕ
  newest now [] = now
  newest now (t ∷ ts) = newest t.ts_ms ts

  newest-last :
      (now : ℕ) (seen : List (PublicTradeEvent F)) (t : PublicTradeEvent F)
      → newest now (seen ++ t ∷ []) ≡ t.ts_ms
  newest-last now [] t = refl
  newest-last now (x ∷ seen) t = newest-last x.ts_ms seen t

  -- What is kept of the trades of a symbol that were seen.
  abbrev pub IsTape : List (PublicTradeEvent F) → TradingState F → ℕ → Type 0
  IsTape seen s k =
      IsRest (of_symbol k seen) (get_public_trades k s)
      × HasNew (is_stale (newest 0 (of_symbol k seen))) (get_public_trades k s)
      × (length (get_public_trades k s) ≤ max_trades)

  push_trade-HasNew :
      (t : PublicTradeEvent F) (seen xs : List (PublicTradeEvent F))
      → HasNew (is_stale (newest 0 (seen ++ t ∷ []))) (push_trade t xs)
  unfolding push_trade
  push_trade-HasNew t seen xs =
      rw (newest-last 0 seen t)
        (HasNew-prune (is_stale t.ts_ms) (keep_newest max_trades (xs ++ t ∷ [])))

  recorded-IsTape :
      (t : PublicTradeEvent F) (seen : List (PublicTradeEvent F)) (s : TradingState F) (k : ℕ)
      → IsTape seen s k
      → IsTape (seen ++ t ∷ []) (record_public_trade t s) k
  recorded-IsTape t seen s k (h, new, small) = elim (Bool-cases (k == t.symbol)) [
    | inl mine ↦
        let same : (t.symbol == k) ≡ true = ground arith in
        rw (get_recorded t k s, mine, keep-append (λ x. x.symbol == k) seen (t ∷ []), same)
          (
            push_trade-IsRest t (of_symbol k seen) (get_public_trades k s) h,
            push_trade-HasNew t (of_symbol k seen) (get_public_trades k s),
            push_length t (get_public_trades k s),
          )
    | inr other ↦
        let differ : (t.symbol == k) ≡ false = ground arith in
        rw
          (
            get_recorded t k s,
            other,
            keep-append (λ x. x.symbol == k) seen (t ∷ []),
            differ,
            append-nil (of_symbol k seen),
          )
          (h, new, small)
  ]

  record_all-IsTape :
      (ts seen : List (PublicTradeEvent F)) (s : TradingState F) (k : ℕ)
      → IsTape seen s k
      → IsTape (seen ++ ts) (record_all ts s) k
  unfolding record_all
  record_all-IsTape [] seen s k h = rw (append-nil seen) h
  record_all-IsTape (t ∷ ts) seen s k h = rw⁻¹ (append_assoc seen (t ∷ []) ts) (
      record_all-IsTape ts (seen ++ t ∷ []) (record_public_trade t s) k
        (recorded-IsTape t seen s k h))

  -- After any run of trades, in any order of their times, from a state with no trade of a symbol,
  -- the state keeps the last ones of that symbol. Each one before them has 100000 or more trades of
  -- the symbol after it, or a later one that is more than 15 minutes newer. The first one that is
  -- kept is not that old for the last trade of the symbol, and at most 100000 are kept.
  pub record_all_suffix :
      (ts : List (PublicTradeEvent F)) (s : TradingState F) (k : ℕ)
      → get_public_trades k s ≡ []
      → IsTape ts (record_all ts s) k
  record_all_suffix ts s k h =
      let none_kept : HasNew (is_stale (newest 0 (let e : List (PublicTradeEvent F) = [] in e)))
          (get_public_trades k s) =
        rw h tt in
      record_all-IsTape ts [] s k (([], sym h, tt), none_kept, rw h (omega arith))
