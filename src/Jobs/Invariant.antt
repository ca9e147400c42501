-- ===== src/Jobs/Invariant.antt =====
-- The invariant of the job subsystem: what the store says of a job agrees with its run.
use botik.Base.{
  ℕ, ◌≡◌, ◌⊎◌, Bool, true, false, Option, none, some, lookup, lookup-insert, String, lookup-empty,
  arith,
}
use botik.Base.Int.{ℤ}
use botik.Base.Float.{Float}
use botik.Jobs.Types.{JobState, JobDetails, ManagedRun, Stream, stdout, stderr, WorkerLine}
use botik.Jobs.Store.{update, create}
use botik.Jobs.Action.{App}
use botik.Jobs.Supervisor.{
  Launch, handle_worker_line, complete, cancel_wait, end_stream, spawn, terminate_begin,
}
use botik.Jobs.Manager.{start, stop_begin}
use botik.Jobs.LineEffect.{handle_worker_line-Writes}
use botik.Jobs.Steps.{
  is_open, Step, start_job, stop_job, take_line, close_stream, exit_process, time_limit, Reach,
  here, next, initial,
}

abbrev pub is_final : JobState → Bool
is_final JobState.completed = true
is_final JobState.failed = true
is_final JobState.cancelled = true
is_final _ = false

abbrev pub is_unlaunched : JobState → Bool
is_unlaunched JobState.queued = true
is_unlaunched JobState.failed = true
is_unlaunched _ = false

module _ {F : Type 0} where
  pub record IsRunOf (d : JobDetails F) (r : ManagedRun) : Type 0 where
    pub waits : r.registered ≡ r.wait_task
    pub while_running : r.registered ≡ true → r.stop_requested ≡ false → d.state ≡ JobState.running
    pub while_stopping : r.registered ≡ true → r.stop_requested ≡ true → d.state ≡ JobState.stopping
    pub ended :
        r.registered ≡ false
        → (d.state ≡ JobState.stopping)
          ⊎ ((is_final d.state ≡ true) × (r.stdout_task ≡ false) × (r.stderr_task ≡ false))

  abbrev pub Agree : Option (JobDetails F) → Option ManagedRun → Type 0
  Agree none none = Unit
  Agree none (some r) = ⊥
  Agree (some d) none = is_unlaunched d.state ≡ true
  Agree (some d) (some r) = IsRunOf d r

  abbrev pub IsValid : App F → Type 0
  IsValid a = (k : ℕ) → Agree (lookup k a.store) (lookup k a.runs)

module _ {F : Type 0} ⦃fl : Float F⦄ where
  start-IsValid :
      (a : App F) (job_id log_stream_id : ℕ) (job_type : String) (definition : Option Launch)
      (now : ℕ)
      → lookup job_id a.store ≡ none
      → IsValid a
      → IsValid (start job_id log_stream_id job_type definition now a).1
  unfolding start spawn update create
  start-IsValid a job_id log job_type none now e h k = h k
  start-IsValid a job_id log job_type (some Launch.no_launcher) now e h k =
      grind (arith, lookup-insert, h k, h job_id)
  start-IsValid a job_id log job_type (some (Launch.launch_failed exc)) now e h k =
      grind (arith, lookup-insert, h k, h job_id)
  start-IsValid a job_id log job_type (some (Launch.launched c)) now e h k =
      grind (arith, lookup-insert, h k, h job_id)

  stop_begin-IsValid :
      (a : App F) (job_id : ℕ) (reason : Option String) (now : ℕ)
      → IsValid a
      → IsValid (stop_begin job_id reason now a).1
  unfolding stop_begin terminate_begin update
  stop_begin-IsValid a job_id reason now h k = grind (arith, lookup-insert, h k, h job_id)

  handle_worker_line-IsValid :
      (a : App F) (job_id : ℕ) (r : ManagedRun) (stream : Stream) (line : WorkerLine F) (now : ℕ)
      → lookup job_id a.runs ≡ some r
      → is_open r stream ≡ true
      → IsValid a
      → IsValid (handle_worker_line job_id stream line now a).1
  handle_worker_line-IsValid a job_id r stream line now e o h k =
      let w = handle_worker_line-Writes k job_id now a stream line in
      rw (w.0, w.1) (ground (arith, h k, h job_id))

  end_stream-IsValid :
      (a : App F) (job_id : ℕ) (r : ManagedRun) (stream : Stream)
      → lookup job_id a.runs ≡ some r
      → IsValid a
      → IsValid (end_stream job_id r stream a).1
  unfolding end_stream
  end_stream-IsValid a job_id r stdout e h k = grind (arith, lookup-insert, h k, h job_id)
  end_stream-IsValid a job_id r stderr e h k = grind (arith, lookup-insert, h k, h job_id)

  cancel_wait-IsValid :
      (a : App F) (job_id : ℕ) (r : ManagedRun)
      → lookup job_id a.runs ≡ some r
      → r.wait_task ≡ true
      → r.stop_requested ≡ true
      → IsValid a
      → IsValid (cancel_wait job_id r a).1
  unfolding cancel_wait
  cancel_wait-IsValid a job_id r e w q h k = grind (arith, lookup-insert, h k, h job_id)

  complete-IsValid :
      (a : App F) (job_id : ℕ) (r : ManagedRun) (exit_code : ℤ) (now : ℕ)
      → lookup job_id a.runs ≡ some r
      → r.stdout_task ≡ false
      → r.stderr_task ≡ false
      → IsValid a
      → IsValid (complete job_id r exit_code now a).1
  unfolding complete update
  complete-IsValid a job_id r exit_code now e o u h k = grind (arith, lookup-insert, h k, h job_id)

  pub Step-IsValid : {a b : App F} → Step a b → IsValid a → IsValid b
  Step-IsValid {a} (start_job job_id log job_type definition now e) h =
      start-IsValid a job_id log job_type definition now e h
  Step-IsValid {a} (stop_job job_id reason now) h = stop_begin-IsValid a job_id reason now h
  Step-IsValid {a} (take_line job_id r stream line now e o) h =
      handle_worker_line-IsValid a job_id r stream line now e o h
  Step-IsValid {a} (close_stream job_id r stream e) h = end_stream-IsValid a job_id r stream e h
  Step-IsValid {a} (exit_process job_id r exit_code now e w o u) h =
      complete-IsValid a job_id r exit_code now e o u h
  Step-IsValid {a} (time_limit job_id r e w q) h = cancel_wait-IsValid a job_id r e w q h

  pub Reach-IsValid : {a b : App F} → IsValid a → Reach a b → IsValid b
  Reach-IsValid h here = h
  Reach-IsValid h (next r st) = Step-IsValid st (Reach-IsValid h r)

  -- In every state that is reached from the start the store agrees with the runs: a job whose wait
  -- is pending is running, or stopping once a stop was requested; a job whose wait is over is
  -- final with both readers ended, or still stopping; a job with no run never left the queue or
  -- failed to start; and no run is without a job.
  pub reachable-IsValid : (n : ℕ) (a : App F) → Reach (initial F n) a → IsValid a
  reachable-IsValid n a r =
      Reach-IsValid
        (λ k. rw (lookup-empty {V = JobDetails F} k, lookup-empty {V = ManagedRun} k) tt) r
