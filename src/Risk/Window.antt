-- ===== src/Risk/Window.antt =====
-- The order rate: the timestamps that the manager keeps are the orders of the last minute, and
-- the gate lets no more through than the limit.
use botik.Base.{
  ℕ, ◌-◌, ◌≤◌, ◌≡◌, refl, Bool, true, List, [], ◌∷◌, ◌++◌, length, keep, All, All-append, leb,
  arith, Bool-cases, inl, inr,
}
use botik.Risk.Manager.{minute, prune}

-- The order of a time in the past is at most a minute old.
abbrev pub is_recent : ℕ → ℕ → Bool
is_recent now t = leb (now - t) minute

abbrev pub IsAscending : List ℕ → Type 0
IsAscending [] = Unit
IsAscending (t ∷ ts) = All (λ u. t ≤ u) ts × IsAscending ts

pub keep_recent :
    (now t : ℕ) (ts : List ℕ)
    → is_recent now t ≡ true
    → All (λ u. t ≤ u) ts
    → keep (is_recent now) ts ≡ ts
keep_recent now t [] r h = refl
keep_recent now t (u ∷ ts) r h = ground (arith, keep_recent now t ts r h.1)

pub prune-eq-keep :
    (now : ℕ) (ts : List ℕ) → IsAscending ts → prune now ts ≡ keep (is_recent now) ts
unfolding prune
prune-eq-keep now [] h = refl
prune-eq-keep now (t ∷ ts) h = ground (arith, prune-eq-keep now ts h.1, keep_recent now t ts)

pub keep-All : (P : ℕ → Type 0) (p : ℕ → Bool) (ts : List ℕ) → All P ts → All P (keep p ts)
keep-All P p [] h = tt
keep-All P p (t ∷ ts) h = elim (Bool-cases (p t)) [
  | inl e ↦ rw e (h.0, keep-All P p ts h.1)
  | inr e ↦ rw e (keep-All P p ts h.1)
]

pub keep-IsAscending : (p : ℕ → Bool) (ts : List ℕ) → IsAscending ts → IsAscending (keep p ts)
keep-IsAscending p [] h = tt
keep-IsAscending p (t ∷ ts) h = elim (Bool-cases (p t)) [
  | inl e ↦ rw e (keep-All (λ u. t ≤ u) p ts h.0, keep-IsAscending p ts h.1)
  | inr e ↦ rw e (keep-IsAscending p ts h.1)
]

-- What is recent later was recent before.
pub keep-keep :
    (before now : ℕ) (ts : List ℕ)
    → before ≤ now
    → keep (is_recent now) (keep (is_recent before) ts) ≡ keep (is_recent now) ts
keep-keep before now [] h = refl
keep-keep before now (t ∷ ts) h = ground (arith, keep-keep before now ts h)

pub length-keep_mono :
    (before now : ℕ) (ts : List ℕ)
    → before ≤ now
    → length (keep (is_recent now) ts) ≤ length (keep (is_recent before) ts)
length-keep_mono before now [] h = omega arith
length-keep_mono before now (t ∷ ts) h = ground (arith, length-keep_mono before now ts h)

pub append-IsAscending :
    (ts : List ℕ) (now : ℕ)
    → IsAscending ts
    → All (λ u. u ≤ now) ts
    → IsAscending (ts ++ (now ∷ []))
append-IsAscending [] now h b = (tt, tt)
append-IsAscending (t ∷ ts) now h b =
    (All-append (λ u. t ≤ u) ts (now ∷ []) h.0 (b.0, tt), append-IsAscending ts now h.1 b.1)
