-- ===== src/Jobs/Store.antt =====
-- `JobStore` (jobs/store.py). Each update takes the time that `datetime.now` gives.

use botik.Base.{
  ℕ, Option, none, some, List, [], ◌∷◌, Dict, lookup, insert, values, if◌then◌else◌, ltb,
}
use botik.Jobs.Types.{JobDetails}

abbrev pub Store : Type 0 → Type 0
Store F = Dict (JobDetails F)

module _ {F : Type 0} where
  unfoldable pub create : JobDetails F → Store F → Store F
  create d s = insert d.job_id d s

  -- `model_copy` with the changes and the time. `none` is the `KeyError`.
  unfoldable pub update :
      ℕ → ℕ → (JobDetails F → JobDetails F) → Store F → Option (JobDetails F × Store F)
  update job_id now changes s = elim (lookup job_id s) [
    | none ↦ none
    | some d ↦
        let updated = record (changes d) { updated_at = now } in
        some (updated, insert job_id updated s)
  ]

  -- `sorted(..., key=updated_at, reverse=True)`, which is stable: one before equals that follow.
  unfoldable pub insert_newest : JobDetails F → List (JobDetails F) → List (JobDetails F)
  insert_newest d [] = d ∷ []
  insert_newest d (e ∷ es) =
      if ltb d.updated_at e.updated_at then e ∷ insert_newest d es else d ∷ e ∷ es

  unfoldable pub sort_newest : List (JobDetails F) → List (JobDetails F)
  sort_newest [] = []
  sort_newest (d ∷ ds) = insert_newest d (sort_newest ds)

  unfoldable pub list : Store F → List (JobDetails F)
  list s = sort_newest (values s)
