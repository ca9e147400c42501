-- ===== src/Jobs/Progress.antt =====
-- The progress that the store shows of a job.
use botik.Base.{
  ℕ, ◌≡◌, inl, inr, true, Option, none, some, lookup, lookup-insert, lookup-empty, arith,
  Bool-cases,
}
use botik.Base.Float.{Float, FloatOrder, nought, one, fmax, fmin, le_of_lt, le_of_not_lt}
use botik.Jobs.Types.{JobDetails, stdout, stderr}
use botik.Jobs.Store.{update, create}
use botik.Jobs.Action.{App}
use botik.Jobs.Supervisor.{Launch, complete, cancel_wait, end_stream, spawn, terminate_begin, clamp}
use botik.Jobs.Manager.{start, stop_begin}
use botik.Jobs.LineEffect.{refreshed, line_progress, handle_worker_line-Writes}
use botik.Jobs.Steps.{
  Step, start_job, stop_job, take_line, close_stream, exit_process, time_limit, Reach, here, next,
  initial,
}

module _ {F : Type 0} ⦃fl : Float F⦄ where
  abbrev pub IsFraction : F → Type 0
  IsFraction x = (fl.le nought x ≡ true) × (fl.le x one ≡ true)

  abbrev pub HasFraction : Option (JobDetails F) → Type 0
  HasFraction none = Unit
  HasFraction (some d) = IsFraction d.progress

  abbrev HaveFractions : App F → Type 0
  HaveFractions a = (k : ℕ) → HasFraction (lookup k a.store)

  module _ (laws : FloatOrder F) where
    open laws use {lit_number, lit_mono, lt_numbers, le_total}

    nought-IsFraction : IsFraction nought
    nought-IsFraction = (lit_number 0 0, lit_mono 0 1 0 (omega arith))

    one-IsFraction : IsFraction one
    one-IsFraction = (lit_mono 0 1 0 (omega arith), lit_number 1 0)

    -- Whatever a worker reports, NaN and the infinities included, is clamped into [0, 1].
    pub clamp-IsFraction : (x : F) → IsFraction (clamp x)
    unfolding clamp
    clamp-IsFraction x = elim (Bool-cases (fl.lt nought (fmin x one))) [
      | inr e ↦ rw e nought-IsFraction
      | inl e ↦ rw e (le_of_lt laws nought (fmin x one) e, below x e)
    ]
      where
        below : (y : F) → fl.lt nought (fmin y one) ≡ true → fl.le (fmin y one) one ≡ true
        below y e = elim (Bool-cases (fl.lt one y)) [
          | inl g ↦ rw g (lit_number 1 0)
          | inr g ↦
              let e' : fl.lt nought y ≡ true = rw g at e in
              rw g (le_of_not_lt laws one y (lit_number 1 0) (lt_numbers nought y e').1 g)
        ]

    fmax-one : (x : F) → IsFraction x → IsFraction (fmax x one)
    fmax-one x h = ground (arith, one-IsFraction)

    module _ (a : App F) (h : HaveFractions a) where
      refreshed-HasFraction :
          (v : Option F) (now : ℕ) (o : Option (JobDetails F))
          → HasFraction o
          → HasFraction (refreshed v now o)
      refreshed-HasFraction none now o p = p
      refreshed-HasFraction (some v) now none p = tt
      refreshed-HasFraction (some v) now (some d) p = clamp-IsFraction v

      Step-HaveFractions : {b : App F} → Step a b → HaveFractions b
      unfolding start spawn update create stop_begin terminate_begin complete cancel_wait end_stream
      Step-HaveFractions (start_job job_id log job_type none now e) k = h k
      Step-HaveFractions (start_job job_id log job_type (some Launch.no_launcher) now e) k =
          grind (arith, lookup-insert, h k, nought-IsFraction)
      Step-HaveFractions (start_job job_id log job_type (some (Launch.launch_failed exc)) now e) k =
          grind (arith, lookup-insert, h k, nought-IsFraction)
      Step-HaveFractions (start_job job_id log job_type (some (Launch.launched c)) now e) k =
          grind (arith, lookup-insert, h k, nought-IsFraction)
      Step-HaveFractions (stop_job job_id reason now) k =
          grind (arith, lookup-insert, h k, h job_id)
      Step-HaveFractions (take_line job_id r stream line now e o) k =
          rw (handle_worker_line-Writes k job_id now a stream line).0 (
            ground (
              arith,
              h k,
              refreshed-HasFraction (line_progress stream line) now (lookup job_id a.store)
                  (h job_id),
            ))
      Step-HaveFractions (close_stream job_id r stdout e) k = h k
      Step-HaveFractions (close_stream job_id r stderr e) k = h k
      Step-HaveFractions (exit_process job_id r exit_code now e w o u) k =
          grind (arith, lookup-insert, h k, h job_id, fmax-one)
      Step-HaveFractions (time_limit job_id r e w q) k = h k

    Reach-HaveFractions : {a b : App F} → HaveFractions a → Reach a b → HaveFractions b
    Reach-HaveFractions h here = h
    Reach-HaveFractions h (next {b = m} r s) = Step-HaveFractions m (Reach-HaveFractions h r) s

    -- In every state that is reached from the start, each job's progress lies in [0, 1], whatever
    -- the workers have reported.
    pub progress_fraction :
        (n k : ℕ) (a : App F) → Reach (initial F n) a → HasFraction (lookup k a.store)
    progress_fraction n k a r =
        Reach-HaveFractions (λ j. rw (lookup-empty {V = JobDetails F} j) tt) r k
