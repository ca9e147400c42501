-- ===== src/Jobs/Supervisor/Worker.antt =====
-- The coroutines that `JobSupervisor.spawn` starts (jobs/supervisor.py): the readers of a worker's
-- output and the wait for its end. Each function is what happens between two waits.
use botik.Base.{
  ℕ, String, Bool, true, false, none, some, [], ◌∷◌, lookup, if◌then◌else◌, ◌==◌, Option,
}
use botik.Base.Int.{ℤ, pos, negsuc}
use botik.Base.Float.{Float, fmax, fmin, nought, one}
use botik.Jobs.Types.{
  JobState, JobDetails, Event, Message, literal, str, int, upper, Field, ProgressFields, Parsed,
  WorkerLine, Stream, stdout, stderr, ManagedRun,
}
use botik.Jobs.Action.{
  Action, ◌>>=◌, ◌>>◌, pure, raise, emit, set_run, change, job_event, log_event,
}

abbrev pub is_stopping : JobState → Bool
is_stopping JobState.stopping = true
is_stopping _ = false

abbrev pub is_zero : ℤ → Bool
is_zero (pos n) = n == 0
is_zero (negsuc n) = false

-- `payload.get(k)` handed to a reader that raises on a value of another type.
abbrev pub read : {A B : Type 0} → Field A → (Option A → Option B) → Option B
read Field.absent k = k none
read (Field.given x) k = k (some x)
read Field.invalid k = none

-- `float(payload.get("progress", 0.0))`, clamped.
unfoldable pub clamp : {F : Type 0} ⦃fl : Float F⦄ → F → F
clamp x = fmax nought (fmin x one)

-- The event of a progress line; `none` where `int()` or the model's validation raises.
unfoldable pub progress_event : {F : Type 0} → JobDetails F → ProgressFields F → Option (Event F)
progress_event d p = read p.message λ message. read p.phase λ phase. read p.symbol λ symbol.
    read p.category λ category. read p.interval λ interval.
      read p.completed_units λ completed_units. read p.total_units λ total_units.
        read p.rows_written λ rows_written. some (
          Event.job (record {
            job_id = d.job_id;
            job_type = d.job_type;
            state = d.state;
            progress = d.progress;
            message = message;
            phase = phase;
            symbol = symbol;
            category = category;
            interval = interval;
            completed_units = completed_units;
            total_units = total_units;
            rows_written = rows_written;
          }))

abbrev pub text_or : Option String → String → String
text_or none d = d
text_or (some s) d = s

abbrev pub is_empty : String → Bool
is_empty String.[] = true
is_empty (String.◌∷◌ c s) = false

abbrev pub exit_message : ℤ → Message
exit_message exit_code = str "Process exited with code " ∷ int exit_code ∷ []

module _ {F : Type 0} ⦃fl : Float F⦄ where
  -- `_handle_worker_line`, once a line of a stream has been read.
  abbrev pub next_state : Option (JobDetails F) → JobState
  next_state none = JobState.running
  next_state (some d) = if is_stopping d.state then JobState.stopping else JobState.running

  abbrev pub publish_progress : JobDetails F → ProgressFields F → Action F (Unit {0})
  publish_progress d p a = elim (progress_event d p) [ none ↦ (none, a) | some e ↦ emit e a ]

  unfoldable pub record_progress : ℕ → F → ProgressFields F → ℕ → Action F (Unit {0})
  record_progress job_id v p now a =
      (do
        updated ←
            change job_id now
              λ d. record d { progress = clamp v; state = next_state (lookup job_id a.store) }
        publish_progress updated p)
        a

  unfoldable pub handle_progress : ℕ → ProgressFields F → Field F → ℕ → Action F (Unit {0})
  handle_progress job_id p Field.absent now = record_progress job_id nought p now
  handle_progress job_id p (Field.given v) now = record_progress job_id v p now
  handle_progress job_id p Field.invalid now = raise

  unfoldable pub handle_stdout : ℕ → String → Parsed F → ℕ → Action F (Unit {0})
  handle_stdout job_id text Parsed.not_json now = emit (log_event job_id "INFO" (literal text))
  handle_stdout job_id text Parsed.not_object now = raise
  handle_stdout job_id text (Parsed.progress_payload p) now =
      handle_progress job_id p p.progress now
  handle_stdout job_id text (Parsed.log_payload level message) now =
      emit
        (Event.log (some job_id) (upper (text_or level "INFO") ∷ []) (literal (text_or message "")))
  handle_stdout job_id text Parsed.other_payload now = emit (log_event job_id "INFO" (literal text))

  unfoldable pub handle_stream : ℕ → Stream → WorkerLine F → ℕ → Action F (Unit {0})
  handle_stream job_id stderr line now = emit (log_event job_id "ERROR" (literal line.text))
  handle_stream job_id stdout line now = handle_stdout job_id line.text line.parsed now

  unfoldable pub handle_worker_line : ℕ → Stream → WorkerLine F → ℕ → Action F (Unit {0})
  handle_worker_line job_id stream line now =
      if is_empty line.text then pure tt else handle_stream job_id stream line now

  -- `_wait_for_completion`, once the process has ended and both streams have been read. Its
  -- `finally` takes the run out of `_runs`.
  abbrev pub finish_wait : ℕ → ManagedRun → Action F (Unit {0})
  finish_wait job_id r = set_run job_id (record r { registered = false; wait_task = false })

  abbrev pub settle_cancelled : ℕ → ManagedRun → ℤ → ℕ → Action F (Unit {0})
  settle_cancelled job_id r exit_code now = do
    updated ← change job_id now λ d. record d {
      state = JobState.cancelled;
      exit_code = some exit_code;
      last_error = elim r.termination_reason [ none ↦ none | some s ↦ some (literal s) ];
    }
    emit (job_event updated "Job stopped.")
    emit (
        log_event updated.job_id "WARNING"
          (str "Job stopped with exit code " ∷ int exit_code ∷ str "." ∷ []))

  abbrev pub settle_completed : ℕ → JobDetails F → ℤ → ℕ → Action F (Unit {0})
  settle_completed job_id current exit_code now = do
    updated ← change job_id now λ d. record d {
      state = JobState.completed;
      progress = fmax current.progress one;
      exit_code = some exit_code;
      last_error = none;
    }
    emit (job_event updated "Job completed.")
    emit (log_event updated.job_id "INFO" (literal "Job completed successfully."))

  abbrev pub settle_failed : ℕ → ℤ → ℕ → Action F (Unit {0})
  settle_failed job_id exit_code now = do
    updated ← change job_id now λ d. record d {
      state = JobState.failed;
      exit_code = some exit_code;
      last_error = some (exit_message exit_code);
    }
    emit (job_event updated "Job failed.")
    emit (log_event updated.job_id "ERROR" (exit_message exit_code))

  abbrev pub settle : ℕ → ManagedRun → JobDetails F → ℤ → ℕ → Action F (Unit {0})
  settle job_id r current exit_code now =
      if r.stop_requested
      then settle_cancelled job_id r exit_code now
      else if is_zero exit_code
      then settle_completed job_id current exit_code now
      else settle_failed job_id exit_code now

  unfoldable pub complete : ℕ → ManagedRun → ℤ → ℕ → Action F (Unit {0})
  complete job_id r exit_code now a = elim (lookup job_id a.store) [
    | none ↦ finish_wait job_id r a
    | some current ↦ finish_wait job_id r (settle job_id r current exit_code now a).1
  ]

  -- `asyncio.wait_for` cancels the task that it waits for when its time is up: of
  -- `_wait_for_completion` only the `finally` runs.
  unfoldable pub cancel_wait : ℕ → ManagedRun → Action F (Unit {0})
  cancel_wait job_id r = finish_wait job_id r

  -- A reader of a stream ends: at the end of the stream, or by an exception.
  unfoldable pub end_stream : ℕ → ManagedRun → Stream → Action F (Unit {0})
  end_stream job_id r stdout = set_run job_id (record r { stdout_task = false })
  end_stream job_id r stderr = set_run job_id (record r { stderr_task = false })
