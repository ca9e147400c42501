-- ===== src/Jobs/Outcome.antt =====
-- How a job ends: by the exit of its process, or by the time limit of a stop.
use botik.Base.{
  ℕ, ◌≡◌, true, false, Option, none, some, lookup, lookup-insert, arith, if◌then◌else◌,
}
use botik.Base.Int.{ℤ}
use botik.Base.Float.{Float}
use botik.Jobs.Types.{JobState, JobDetails, ManagedRun, stdout, stderr}
use botik.Jobs.Store.{update, create}
use botik.Jobs.Action.{App}
use botik.Jobs.Supervisor.{
  Launch, complete, cancel_wait, end_stream, spawn, terminate_begin, is_zero,
}
use botik.Jobs.Manager.{start, stop_begin}
use botik.Jobs.LineEffect.{handle_worker_line-Writes}
use botik.Jobs.Steps.{
  Step, start_job, stop_job, take_line, close_stream, exit_process, time_limit, Reach, here, next,
  initial,
}
use botik.Jobs.Invariant.{IsValid, Step-IsValid, Reach-IsValid, reachable-IsValid}

-- The end that a job is promised: a stop that was asked for wins over the exit code.
abbrev pub outcome : JobState → ℤ → JobState
outcome JobState.stopping exit_code = JobState.cancelled
outcome _ exit_code = if is_zero exit_code then JobState.completed else JobState.failed

module _ {F : Type 0} where
  abbrev pub EndsAs : JobState → ℤ → Option (JobDetails F) → Type 0
  EndsAs s exit_code none = ⊥
  EndsAs s exit_code (some d) = (d.state ≡ s) × (d.exit_code ≡ some exit_code)

  -- A job that is stopping and that nothing waits for.
  abbrev pub IsStranded : Option (JobDetails F) → Option ManagedRun → Type 0
  IsStranded (some d) (some r) = (d.state ≡ JobState.stopping) × (r.wait_task ≡ false)
  IsStranded _ _ = ⊥

module _ {F : Type 0} ⦃fl : Float F⦄ where
  complete-EndsAs :
      (k : ℕ) (a : App F) (r : ManagedRun) (d : JobDetails F) (exit_code : ℤ) (now : ℕ)
      → IsValid a
      → lookup k a.runs ≡ some r
      → lookup k a.store ≡ some d
      → r.wait_task ≡ true
      → EndsAs
          (outcome d.state exit_code)
          exit_code
          (lookup k (complete k r exit_code now a).1.store)
  unfolding complete update
  complete-EndsAs k a r d exit_code now v e f w = grind (arith, lookup-insert, v k)

  -- When the process of a job ends while its wait is pending, the job becomes cancelled if the
  -- store said that it was stopping, whatever the exit code; else completed on code 0, and failed
  -- on any other. The exit code is stored.
  pub complete-outcome :
      (n k : ℕ) (a : App F) (r : ManagedRun) (d : JobDetails F) (exit_code : ℤ) (now : ℕ)
      → Reach (initial F n) a
      → lookup k a.runs ≡ some r
      → lookup k a.store ≡ some d
      → r.wait_task ≡ true
      → EndsAs
          (outcome d.state exit_code)
          exit_code
          (lookup k (complete k r exit_code now a).1.store)
  complete-outcome n k a r d exit_code now reach =
      complete-EndsAs k a r d exit_code now (reachable-IsValid n a reach)

  module _ (k : ℕ) {a : App F} (v : IsValid a)
      (stranded : IsStranded (lookup k a.store) (lookup k a.runs)) where
    Step-IsStranded : {b : App F} → Step a b → IsStranded (lookup k b.store) (lookup k b.runs)
    unfolding start spawn update create stop_begin terminate_begin complete cancel_wait end_stream
    Step-IsStranded (start_job job_id log job_type none now e) = stranded
    Step-IsStranded (start_job job_id log job_type (some Launch.no_launcher) now e) =
        grind (arith, lookup-insert, v k)
    Step-IsStranded (start_job job_id log job_type (some (Launch.launch_failed exc)) now e) =
        grind (arith, lookup-insert, v k)
    Step-IsStranded (start_job job_id log job_type (some (Launch.launched c)) now e) =
        grind (arith, lookup-insert, v k)
    Step-IsStranded (stop_job job_id reason now) = grind (arith, lookup-insert, v k, v job_id)
    Step-IsStranded (take_line job_id r stream line now e o) =
        let w = handle_worker_line-Writes k job_id now a stream line in
        rw (w.0, w.1) (ground (arith, v k))
    Step-IsStranded (close_stream job_id r stdout e) = grind (arith, lookup-insert, v k)
    Step-IsStranded (close_stream job_id r stderr e) = grind (arith, lookup-insert, v k)
    Step-IsStranded (exit_process job_id r exit_code now e w o u) =
        grind (arith, lookup-insert, v k)
    Step-IsStranded (time_limit job_id r e w q) = grind (arith, lookup-insert, v k)

  Reach-IsStranded :
      (k : ℕ) {a b : App F}
      → IsValid a
      → IsStranded (lookup k a.store) (lookup k a.runs)
      → Reach a b
      → IsStranded (lookup k b.store) (lookup k b.runs)
  Reach-IsStranded k v s here = s
  Reach-IsStranded k v s (next r st) =
      Step-IsStranded k (Reach-IsValid v r) (Reach-IsStranded k v s r) st

  cancel_wait-IsStranded :
      (k : ℕ) (a : App F) (r : ManagedRun)
      → IsValid a
      → lookup k a.runs ≡ some r
      → r.wait_task ≡ true
      → r.stop_requested ≡ true
      → IsStranded (lookup k (cancel_wait k r a).1.store) (lookup k (cancel_wait k r a).1.runs)
  unfolding cancel_wait
  cancel_wait-IsStranded k a r v e w q = grind (arith, lookup-insert, v k)

  -- When the time limit of a stop cancels the wait for a job, the job is left stopping for good:
  -- nothing waits for it any more, and no further run of the system, the end of its process
  -- included, takes it to a final state.
  pub time_limit_strands :
      (n k : ℕ) (a b : App F) (r : ManagedRun)
      → Reach (initial F n) a
      → lookup k a.runs ≡ some r
      → r.wait_task ≡ true
      → r.stop_requested ≡ true
      → Reach (cancel_wait k r a).1 b
      → IsStranded (lookup k b.store) (lookup k b.runs)
  time_limit_strands n k a b r reach e w q further =
      let v = reachable-IsValid n a reach in
      Reach-IsStranded k (Step-IsValid (time_limit k r e w q) v)
        (cancel_wait-IsStranded k a r v e w q) further
