-- ===== src/Jobs/Order.antt =====
-- The list of jobs that `JobStore.list` returns.
use mathlib.Core.List.{Perm}
use mathlib.Core.List.Perm
use botik.Base.{◌≤◌, List, [], ◌∷◌, All, ltb, arith, values, Bool-cases, inl, inr}
use botik.Jobs.Types.{JobDetails}
use botik.Jobs.Store
use botik.Jobs.Store.{Store, insert_newest, sort_newest}

module _ {F : Type 0} where
  abbrev pub NotAfter : JobDetails F → JobDetails F → Type 0
  NotAfter d e = e.updated_at ≤ d.updated_at

  abbrev pub IsNewestFirst : List (JobDetails F) → Type 0
  IsNewestFirst [] = Unit
  IsNewestFirst (d ∷ ds) = All (NotAfter d) ds × IsNewestFirst ds

  insert_newest-All :
      (P : JobDetails F → Type 0) (d : JobDetails F) (ds : List (JobDetails F))
      → P d
      → All P ds
      → All P (insert_newest d ds)
  unfolding insert_newest
  insert_newest-All P d [] p q = (p, tt)
  insert_newest-All P d (e ∷ ds) p q = elim (Bool-cases (ltb d.updated_at e.updated_at)) [
    | inl t ↦ rw t (q.0, insert_newest-All P d ds p q.1)
    | inr t ↦ rw t (p, q)
  ]

  All-NotAfter_trans :
      (d e : JobDetails F) (ds : List (JobDetails F))
      → NotAfter d e
      → All (NotAfter e) ds
      → All (NotAfter d) ds
  All-NotAfter_trans d e [] h q = tt
  All-NotAfter_trans d e (x ∷ ds) h q = (omega arith, All-NotAfter_trans d e ds h q.1)

  insert_newest-IsNewestFirst :
      (d : JobDetails F) (ds : List (JobDetails F))
      → IsNewestFirst ds
      → IsNewestFirst (insert_newest d ds)
  unfolding insert_newest
  insert_newest-IsNewestFirst d [] h = (tt, tt)
  insert_newest-IsNewestFirst d (e ∷ ds) h = elim (Bool-cases (ltb d.updated_at e.updated_at)) [
    | inl t ↦ rw t (
      insert_newest-All (NotAfter e) d ds (ground arith) h.0,
      insert_newest-IsNewestFirst d ds h.1,
    )
    | inr t ↦ rw t ((ground arith, All-NotAfter_trans d e ds (ground arith) h.0), h)
  ]

  insert_newest-perm :
      (d : JobDetails F) (ds : List (JobDetails F)) → Perm (insert_newest d ds) (d ∷ ds)
  unfolding insert_newest
  insert_newest-perm d [] = Perm.refl _
  insert_newest-perm d (e ∷ ds) = elim (Bool-cases (ltb d.updated_at e.updated_at)) [
    | inl t ↦ rw t (Perm.trans (Perm.cons e (insert_newest-perm d ds)) (Perm.swap _ _ _))
    | inr t ↦ rw t (Perm.refl _)
  ]

  sort_newest-perm : (ds : List (JobDetails F)) → Perm (sort_newest ds) ds
  unfolding sort_newest
  sort_newest-perm [] = Perm.refl _
  sort_newest-perm (d ∷ ds) =
      Perm.trans (insert_newest-perm d (sort_newest ds)) (Perm.cons d (sort_newest-perm ds))

  sort_newest-IsNewestFirst : (ds : List (JobDetails F)) → IsNewestFirst (sort_newest ds)
  unfolding sort_newest
  sort_newest-IsNewestFirst [] = tt
  sort_newest-IsNewestFirst (d ∷ ds) =
      insert_newest-IsNewestFirst d (sort_newest ds) (sort_newest-IsNewestFirst ds)

  -- The list holds every stored job once and nothing else, the latest update first.
  pub list_sorted : (s : Store F) → IsNewestFirst (Store.list s) × Perm (Store.list s) (values s)
  unfolding Store.list
  list_sorted s = (sort_newest-IsNewestFirst (values s), sort_newest-perm (values s))
