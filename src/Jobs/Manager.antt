-- ===== src/Jobs/Manager.antt =====
-- `JobManager` (jobs/manager.py), cut where its coroutines wait.
use botik.Base.{
  ℕ, String, Bool, true, false, Option, none, some, List, [], ◌∷◌, lookup, if◌then◌else◌,
}
use botik.Base.Float.{Float, nought}
use botik.Jobs.Types.{JobState, JobDetails, JobSummary, Event, details_to_summary}
use botik.Jobs.Store
use botik.Jobs.Store.{create}
use botik.Jobs.Action.{App, Action, ◌>>◌, raise, emit}
use botik.Jobs.Supervisor.{Launch, spawn, terminate_begin}

-- The states in which `shutdown` stops a job.
abbrev pub is_active : JobState → Bool
is_active JobState.queued = true
is_active JobState.starting = true
is_active JobState.running = true
is_active JobState.stopping = true
is_active _ = false

module _ {F : Type 0} ⦃fl : Float F⦄ where
  -- `get`: a missing job is a `JobNotFoundError`.
  unfoldable pub get : ℕ → Action F (JobDetails F)
  get job_id a = (lookup job_id a.store, a)

  abbrev pub new_details : ℕ → ℕ → String → ℕ → JobDetails F
  new_details job_id log_stream_id job_type now = record {
    job_id = job_id;
    job_type = job_type;
    state = JobState.queued;
    progress = nought;
    started_at = none;
    updated_at = now;
    exit_code = none;
    last_error = none;
    log_stream_id = log_stream_id;
  }

  abbrev pub create_job : JobDetails F → Action F (Unit {0})
  create_job d a = (some tt, record a { store = create d a.store })

  abbrev pub queued_event : JobDetails F → Event F
  queued_event d = Event.job (record {
    job_id = d.job_id;
    job_type = d.job_type;
    state = d.state;
    progress = d.progress;
    message = none;
    phase = none;
    symbol = none;
    category = none;
    interval = none;
    completed_units = none;
    total_units = none;
    rows_written = none;
  })

  -- `start`. The registry's answer is given: `none` is an `UnknownJobTypeError`.
  unfoldable pub start : ℕ → ℕ → String → Option Launch → ℕ → Action F (JobDetails F)
  unfolding get
  start job_id log_stream_id job_type none now = raise
  start job_id log_stream_id job_type (some launch) now =
      let details = new_details job_id log_stream_id job_type now in
      do create_job details; emit (queued_event details); spawn launch now details; get job_id

  -- `stop` up to its first wait.
  unfoldable pub stop_begin : ℕ → Option String → ℕ → Action F (Unit {0})
  unfolding get
  stop_begin job_id reason now = do get job_id; terminate_begin job_id reason now

  -- The jobs that `shutdown` stops, in its order.
  abbrev pub active_ids : List (JobDetails F) → List ℕ
  active_ids [] = []
  active_ids (d ∷ ds) = if is_active d.state then d.job_id ∷ active_ids ds else active_ids ds

  unfoldable pub shutdown_order : App F → List ℕ
  shutdown_order a = active_ids (Store.list a.store)

  abbrev pub summaries : List (JobDetails F) → List (JobSummary F)
  summaries [] = []
  summaries (d ∷ ds) = details_to_summary d ∷ summaries ds

  unfoldable pub list_summaries : App F → List (JobSummary F)
  list_summaries a = summaries (Store.list a.store)
