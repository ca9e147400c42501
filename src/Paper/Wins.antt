-- ===== src/Paper/Wins.antt =====
-- What the statistics of the spot engine count.
use botik.Base.{
  ℕ, zero, suc, ◌≡◌, refl, true, false, List, [], ◌∷◌, All, All-append, ltb, ◌==◌, arith,
  Bool-cases, inl, inr,
}
use botik.Base.Float.{Float, FloatOrder, nought}
use botik.Paper.Policy.{Policy}
use botik.Paper.Rows.{OrderRow, FillRow, Call}
use botik.Paper.Spot.{or_zero, new_engine}
use botik.Paper.Replay.{Op, replay, empty_db}
use botik.Paper.Orders.{AgreesWith, AreFresh, replay-Agrees}
use botik.Paper.Stats.{
  StatsRow, join_fill, join_fills, insert_newest, newest_first, first_rows, row_pnl, count_rows,
  stats_of, get_stats,
}

module _ {F : Type 0} where
  abbrev IsEven : StatsRow F → Type 0
  IsEven r = r.order_price ≡ r.exec_price

  insert_newest-All :
      (P : StatsRow F → Type 0) (r : StatsRow F) (xs : List (StatsRow F))
      → P r
      → All P xs
      → All P (insert_newest r xs)
  unfolding insert_newest
  insert_newest-All P r [] p ps = (p, tt)
  insert_newest-All P r (x ∷ xs) p (q, ps) = elim (Bool-cases (ltb r.exec_time_ms x.exec_time_ms)) [
    | inl t ↦ rw t (q, insert_newest-All P r xs p ps)
    | inr t ↦ rw t (p, (q, ps))
  ]

  newest_first-All :
      (P : StatsRow F → Type 0) (xs : List (StatsRow F)) → All P xs → All P (newest_first xs)
  unfolding newest_first
  newest_first-All P [] ps = tt
  newest_first-All P (x ∷ xs) (p, ps) =
      insert_newest-All P x (newest_first xs) p (newest_first-All P xs ps)

  first_rows-All :
      (P : StatsRow F → Type 0) (n : ℕ) (xs : List (StatsRow F))
      → All P xs
      → All P (first_rows n xs)
  unfolding first_rows
  first_rows-All P zero xs ps = tt
  first_rows-All P (suc n) [] ps = tt
  first_rows-All P (suc n) (x ∷ xs) (p, ps) = (p, first_rows-All P n xs ps)

module _ {F : Type 0} ⦃fl : Float F⦄ where
  join_fill-All :
      (f : FillRow F) (os : List (OrderRow F)) → AgreesWith os f → All IsEven (join_fill f os)
  unfolding join_fill
  join_fill-All f [] a = tt
  join_fill-All f (o ∷ os) (a, as_) = elim (Bool-cases (o.order_link_id == f.order_link_id)) [
    | inl t ↦ rw t (a (ground arith), join_fill-All f os as_)
    | inr t ↦ rw t (join_fill-All f os as_)
  ]

  join_fills-All :
      (fs : List (FillRow F)) (os : List (OrderRow F))
      → All (AgreesWith os) fs
      → All IsEven (join_fills fs os)
  unfolding join_fills
  join_fills-All [] os a = tt
  join_fills-All (f ∷ fs) os (a, as_) =
      All-append IsEven (join_fill f os) (join_fills fs os) (join_fill-All f os a)
        (join_fills-All fs os as_)

  module _ (laws : FloatOrder F)
      (no_gain : (x q : F) → fl.lt nought (fl.mul (fl.sub x x) q) ≡ false) where
    open laws use {lit_number, lt-eq-not-le}

    even_pnl :
        (r : StatsRow F)
        → IsEven r
        → fl.lt nought (or_zero r.order_price) ≡ true
        → fl.lt nought (row_pnl r) ≡ false
    even_pnl r same above = ground (
      arith,
      same,
      no_gain r.exec_price r.exec_qty,
      lit_number 0 0,
      lt-eq-not-le nought nought (lit_number 0 0) (lit_number 0 0),
    )

    even_count :
        (rs : List (StatsRow F)) (wins : ℕ) (total : F)
        → All IsEven rs
        → (count_rows rs wins total).0 ≡ wins
    unfolding count_rows
    even_count [] wins total ps = refl
    even_count (r ∷ rs) wins total (p, ps) =
        elim (Bool-cases (fl.lt nought (or_zero r.order_price))) [
          | inl t ↦ rw (t, even_pnl r p t) (even_count rs wins (fl.add total (row_pnl r)) ps)
          | inr t ↦ rw t (even_count rs wins total ps)
        ]

    even_stats : (rs : List (StatsRow F)) → All IsEven rs → (stats_of rs).wins ≡ 0
    even_stats [] ps = refl
    even_stats (r ∷ rs) ps = even_count (r ∷ rs) 0 nought ps

    -- After any run whose calls draw numbers that are not in use, the statistics count no win,
    -- whatever was earned: a fill is joined with the order that sold, not with the one that bought.
    -- Of floats this takes that `(x - x) * q` is not above 0.
    pub get_stats_wins :
        (policy : Policy F) (c c' : Call) (b : F) (os : List (Op F))
        → AreFresh policy os (new_engine c b empty_db)
        → (get_stats c' (replay policy os (new_engine c b empty_db))).wins ≡ 0
    unfolding get_stats new_engine
    get_stats_wins policy c c' b os fresh =
        let e = replay policy os (new_engine c b empty_db) in
        let even = first_rows-All IsEven 500 _ (
          newest_first-All IsEven _ (
            join_fills-All e.db.spot_fills e.db.spot_orders
              (replay-Agrees policy os (new_engine c b empty_db) fresh tt))) in
        elim (Bool-cases c'.db_up) [ inl u ↦ rw u (even_stats _ even) | inr u ↦ rw u refl ]
