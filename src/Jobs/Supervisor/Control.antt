-- ===== src/Jobs/Supervisor/Control.antt =====
-- `JobSupervisor.spawn` and `terminate` (jobs/supervisor.py), up to their first wait. A `publish`
-- never waits (`Jobs.Bus`), so each function is one step.
use botik.Base.{ℕ, String, Bool, true, false, none, some, [], ◌∷◌, lookup, if◌then◌else◌, Option}
use botik.Base.Int.{negsuc}
use botik.Base.Float.{Float, nought}
use botik.Jobs.Types.{JobState, JobDetails, Message, literal, str, ManagedRun}
use botik.Jobs.Action.{
  App, Action, ◌>>=◌, ◌>>◌, pure, raise, emit, set_run, change, job_event, log_event,
}

-- What the launcher of a `JobDefinition` and `ProcessAdapter.start` come to.
pub data Launch : Type 0 where
  no_launcher : Launch
  launch_failed : (exc : String) → Launch
  launched : (control_file : Bool) → Launch

-- `reason or default`: an empty text counts as none.
pub reason_or : Option String → String → String
reason_or none d = d
reason_or (some String.[]) d = d
reason_or (some (String.◌∷◌ c s)) d = String.◌∷◌ c s

-- The run objects that `JobSupervisor._runs` has.
abbrev pub registered_run : {F : Type 0} → App F → ℕ → Option ManagedRun
registered_run a job_id = elim (lookup job_id a.runs) [
  | none ↦ none
  | some r ↦ if r.registered then some r else none
]

abbrev pub new_run : String → Bool → ManagedRun
new_run job_type control_file = record {
  job_type = job_type;
  control_file = control_file;
  stdout_task = true;
  stderr_task = true;
  wait_task = true;
  stop_requested = false;
  termination_reason = none;
  registered = true;
}

-- The log text of a stop.
abbrev pub stop_message : String → Option String → Message
stop_message job_type reason =
    str "Stop requested for " ∷ str job_type ∷ str ": " ∷ str (reason_or reason "user-request") ∷ []

module _ {F : Type 0} ⦃fl : Float F⦄ where
  -- The first update of `spawn`.
  abbrev pub to_starting : ℕ → JobDetails F → JobDetails F
  to_starting now d = record d {
    state = JobState.starting;
    started_at = some now;
    progress = nought;
    exit_code = none;
    last_error = none;
  }

  abbrev pub launch_worker : Launch → ℕ → JobDetails F → Action F (JobDetails F)
  launch_worker Launch.no_launcher now starting = raise
  launch_worker (Launch.launch_failed exc) now starting = do
    failed ← change starting.job_id now λ d. record d {
      state = JobState.failed;
      exit_code = some (negsuc 0);
      last_error = some (literal exc);
    }
    emit (job_event failed "Worker failed to start.")
    emit (log_event failed.job_id "ERROR" (str "Failed to start worker: " ∷ str exc ∷ []))
    pure failed
  launch_worker (Launch.launched control_file) now starting = do
    set_run starting.job_id (new_run starting.job_type control_file)
    running ← change starting.job_id now λ d. record d {
      state = JobState.running;
      started_at = starting.started_at;
      progress = nought;
    }
    emit (job_event running "Worker is running.")
    emit
        (log_event running.job_id "INFO" (str "Started job " ∷ str running.job_type ∷ str "." ∷ []))
    pure running

  -- `spawn`
  unfoldable pub spawn : Launch → ℕ → JobDetails F → Action F (JobDetails F)
  spawn Launch.no_launcher now details = raise
  spawn launch now details = do
    starting ← change details.job_id now (to_starting now)
    emit (job_event starting "Starting worker process.")
    launch_worker launch now starting

  abbrev pub request_stop : ManagedRun → ℕ → Option String → ℕ → Action F (Unit {0})
  request_stop r job_id reason now = do
    set_run job_id (record r { stop_requested = true; termination_reason = reason })
    stopping ← change job_id now λ d. record d { state = JobState.stopping }
    emit (job_event stopping "Stop requested.")
    emit (log_event stopping.job_id "WARNING" (stop_message stopping.job_type reason))

  -- `terminate` up to its first wait.
  unfoldable pub terminate_begin : ℕ → Option String → ℕ → Action F (Unit {0})
  terminate_begin job_id reason now a = elim (registered_run a job_id) [
    | none ↦ (some tt, a)
    | some r ↦ request_stop r job_id reason now a
  ]
