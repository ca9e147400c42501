-- ===== src/Risk/Rate.antt =====
-- The gate of the trading loop lets at most `max_orders_per_minute` orders through in a minute.
use botik.Base.{
  ℕ, ◌≤◌, ◌<◌, ◌≡◌, refl, ap, ◌∙◌, true, ◌&&◌, List, [], ◌∷◌, ◌++◌, length, keep, All, All-append,
  length-append, keep-append, arith, Bool-cases, ◌⊎◌, inl, inr,
}
use botik.Base.Float.{Float}
use botik.Risk.Manager.{
  RiskLimits, Timestamps, prune, register_order_placed, orders_in_last_minute, allowed, check_order,
  check_limits, Attempt, attempt, attempts, OrderCheck,
}
use botik.Risk.Window.{
  is_recent, IsAscending, prune-eq-keep, keep-IsAscending, keep-keep, length-keep_mono,
  append-IsAscending, keep-All,
}

-- Between two passes at time `now`: the manager's timestamps are the placed orders that were recent
-- at some time up to `now`, and the placed orders of the last minute are within the limit.
pub record IsTracked (limit now : ℕ) (ts placed : List ℕ) : Type 0 where
  pub ascending : IsAscending placed
  pub past : All (λ u. u ≤ now) placed
  pub seen : ℕ
  pub seen_past : seen ≤ now
  pub tracks : ts ≡ keep (is_recent seen) placed
  pub rate : length (keep (is_recent now) placed) ≤ limit

All-le_trans : (m n : ℕ) (ts : List ℕ) → m ≤ n → All (λ u. u ≤ m) ts → All (λ u. u ≤ n) ts
All-le_trans m n [] h a = tt
All-le_trans m n (t ∷ ts) h a = (omega arith, All-le_trans m n ts h a.1)

module _ (limit now : ℕ) (ts placed : List ℕ) (t : IsTracked limit now ts placed) where
  later-IsTracked : (later : ℕ) → now ≤ later → IsTracked limit later ts placed
  later-IsTracked later h = record {
    ascending = t.ascending;
    past = All-le_trans now later placed h t.past;
    seen = t.seen;
    seen_past = let s = t.seen_past in omega arith;
    tracks = t.tracks;
    rate = let r = t.rate in omega (arith, length-keep_mono now later placed h);
  }

  prune-tracked : (later : ℕ) → now ≤ later → prune later ts ≡ keep (is_recent later) placed
  prune-tracked later h =
      ap (prune later) t.tracks
      ∙ prune-eq-keep later (keep (is_recent t.seen) placed)
          (keep-IsAscending (is_recent t.seen) placed t.ascending)
      ∙ keep-keep t.seen later placed (let s = t.seen_past in omega arith)

  pruned-IsTracked : (later : ℕ) → now ≤ later → IsTracked limit later (prune later ts) placed
  pruned-IsTracked later h =
      let u = later-IsTracked later h in
      record {
        ascending = u.ascending;
        past = u.past;
        seen = later;
        seen_past = omega arith;
        tracks = prune-tracked later h;
        rate = u.rate;
      }

keep-last :
    (now : ℕ) (ts : List ℕ)
    → keep (is_recent now) (ts ++ (now ∷ [])) ≡ keep (is_recent now) ts ++ (now ∷ [])
keep-last now ts = rw (keep-append (is_recent now) ts (now ∷ [])) (ground arith)

-- An order that is placed when there was room for it.
placed-IsTracked :
    (limit checked placed_at : ℕ) (ts placed : List ℕ)
    → IsTracked limit checked ts placed
    → checked ≤ placed_at
    → length (prune checked ts) < limit
    → IsTracked limit placed_at
        (register_order_placed placed_at (prune checked ts))
        (placed ++ (placed_at ∷ []))
unfolding register_order_placed
placed-IsTracked limit checked placed_at ts placed t h room =
    let left = keep (is_recent checked) placed in
    let e : prune checked ts ≡ left =
      prune-tracked limit checked ts placed t checked (omega arith) in
    let bounded = All-le_trans checked placed_at placed h t.past in
    record {
      ascending = append-IsAscending placed placed_at t.ascending bounded;
      past = All-append (λ u. u ≤ placed_at) placed (placed_at ∷ []) bounded (omega arith, tt);
      seen = placed_at;
      seen_past = omega arith;
      tracks = rw (
        e,
        prune-eq-keep placed_at (left ++ (placed_at ∷ [])) (
            append-IsAscending left placed_at
              (keep-IsAscending (is_recent checked) placed t.ascending)
              (keep-All (λ u. u ≤ placed_at) (is_recent checked) placed bounded)),
        keep-last placed_at left,
        keep-keep checked placed_at placed h,
        keep-last placed_at placed,
      );
      rate = rw (keep-last placed_at placed) (
          let fewer : length left < limit = rw e at room in
          omega (
            arith,
            length-append (keep (is_recent placed_at) placed) (placed_at ∷ []),
            length-keep_mono checked placed_at placed h,
          ));
    }

module _ {F : Type 0} ⦃fl : Float F⦄ (l : RiskLimits F) where
  -- The times of the passes follow one another.
  abbrev pub AreOrdered : ℕ → List (Attempt F) → Type 0
  AreOrdered now [] = Unit
  AreOrdered now (a ∷ as') =
      (now ≤ a.checked_at) × (a.checked_at ≤ a.placed_at) × AreOrdered a.placed_at as'

  abbrev pub last_time : ℕ → List (Attempt F) → ℕ
  last_time now [] = now
  last_time now (a ∷ as') = last_time a.placed_at as'

  -- Whatever the outcome, the timestamps are either as before or pruned, and an order that is
  -- allowed had room in the last minute.
  check_order-room :
      (c : OrderCheck F) (now : ℕ) (ts : Timestamps)
      → allowed (check_order l c now ts).0 ≡ true
      → ((check_order l c now ts).1 ≡ prune now ts)
        × (length (prune now ts) < l.max_orders_per_minute)
  unfolding check_order check_limits orders_in_last_minute
  check_order-room c now ts h = ground arith

  check_order-timestamps :
      (c : OrderCheck F) (now : ℕ) (ts : Timestamps)
      → ((check_order l c now ts).1 ≡ ts) ⊎ ((check_order l c now ts).1 ≡ prune now ts)
  unfolding check_order orders_in_last_minute
  check_order-timestamps c now ts = ground arith

  refused-IsTracked :
      (c : OrderCheck F) (now later : ℕ) (ts placed : List ℕ)
      → IsTracked l.max_orders_per_minute now ts placed
      → now ≤ later
      → IsTracked l.max_orders_per_minute later (check_order l c later ts).1 placed
  refused-IsTracked c now later ts placed t h = elim (check_order-timestamps c later ts) [
    | inl e ↦ rw e (later-IsTracked l.max_orders_per_minute now ts placed t later h)
    | inr e ↦ rw e (pruned-IsTracked l.max_orders_per_minute now ts placed t later h)
  ]

  attempt-IsTracked :
      (a : Attempt F) (now : ℕ) (ts placed : List ℕ)
      → now ≤ a.checked_at
      → a.checked_at ≤ a.placed_at
      → IsTracked l.max_orders_per_minute now ts placed
      → let (ts', placed') = attempt l a (ts, placed) in
        IsTracked l.max_orders_per_minute a.placed_at ts' placed'
  unfolding attempt
  attempt-IsTracked a now ts placed h k t =
      let r = check_order l a.check a.checked_at ts in
      elim (Bool-cases (allowed r.0 && a.accepted)) [
        | inr e ↦ rw e (
            later-IsTracked l.max_orders_per_minute a.checked_at r.1 placed
              (refused-IsTracked a.check now a.checked_at ts placed t h) a.placed_at k)
        | inl e ↦
            let ok : allowed r.0 ≡ true = ground arith in
            let room = check_order-room a.check a.checked_at ts ok in
            rw (e, room.0)
              (placed-IsTracked l.max_orders_per_minute a.checked_at a.placed_at ts placed
                (later-IsTracked l.max_orders_per_minute now ts placed t a.checked_at h) k room.1)
      ]

  attempts-IsTracked :
      (as' : List (Attempt F)) (now : ℕ) (ts placed : List ℕ)
      → AreOrdered now as'
      → IsTracked l.max_orders_per_minute now ts placed
      → let (ts', placed') = attempts l as' (ts, placed) in
        IsTracked l.max_orders_per_minute (last_time now as') ts' placed'
  unfolding attempts
  attempts-IsTracked [] now ts placed h t = t
  attempts-IsTracked (a ∷ as') now ts placed h t =
      let s = attempt l a (ts, placed) in
      attempts-IsTracked as' a.placed_at s.0 s.1 h.2 (attempt-IsTracked a now ts placed h.0 h.1 t)

  empty-IsTracked : (now : ℕ) → IsTracked l.max_orders_per_minute now [] []
  empty-IsTracked now = record {
    ascending = tt;
    past = tt;
    seen = now;
    seen_past = omega arith;
    tracks = refl;
    rate = omega arith;
  }

  -- After any sequence of passes whose clock does not run backwards, at any time from then on, no
  -- more than `max_orders_per_minute` of all the orders placed are at most a minute old.
  pub attempts_rate :
      (as' : List (Attempt F)) (start now : ℕ)
      → AreOrdered start as'
      → last_time start as' ≤ now
      → length (keep (is_recent now) (attempts l as' ([], [])).1) ≤ l.max_orders_per_minute
  attempts_rate as' start now h later =
      let s = attempts l as' ([], []) in
      let t = attempts-IsTracked as' start [] [] h (empty-IsTracked start) in
      (later-IsTracked l.max_orders_per_minute (last_time start as') s.0 s.1 t now later).rate

  -- The count that the manager makes at any later time is that of all the orders placed which are
  -- at most a minute old: what it has dropped from its deque never counts again.
  pub orders_in_last_minute_exact :
      (as' : List (Attempt F)) (start now : ℕ)
      → AreOrdered start as'
      → last_time start as' ≤ now
      → let (ts, placed) = attempts l as' ([], []) in
        (orders_in_last_minute now ts).0 ≡ length (keep (is_recent now) placed)
  unfolding orders_in_last_minute
  orders_in_last_minute_exact as' start now h later =
      let s = attempts l as' ([], []) in
      let t = attempts-IsTracked as' start [] [] h (empty-IsTracked start) in
      ap length (prune-tracked l.max_orders_per_minute (last_time start as') s.0 s.1 t now later)
