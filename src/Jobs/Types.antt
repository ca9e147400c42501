-- ===== src/Jobs/Types.antt =====
-- The data of the job subsystem: app-service/src/botik_app_service/contracts/jobs.py and events.py.
-- Job ids are only compared, so they are numbers; times are numbers. A message that the source
-- formats is the list of its pieces.
use botik.Base.{ℕ, String, Bool, Option, List, [], ◌∷◌}
use botik.Base.Int.{ℤ}

-- `JobState`
pub data JobState : Type 0 where
  queued starting running stopping completed failed cancelled orphaned : JobState

-- A piece of an f-string: a literal or a text, a number, or a text put in upper case.
pub data Piece : Type 0 where
  str : String → Piece
  int : ℤ → Piece
  upper : String → Piece

abbrev pub Message : Type 0
Message = List Piece

abbrev pub literal : String → Message
literal s = str s ∷ []

-- `JobDetails`
pub record JobDetails (F : Type 0) : Type 0 where
  pub job_id : ℕ
  pub job_type : String
  pub state : JobState
  pub progress : F
  pub started_at : Option ℕ
  pub updated_at : ℕ
  pub exit_code : Option ℤ
  pub last_error : Option Message
  pub log_stream_id : ℕ

-- `JobSummary`
pub record JobSummary (F : Type 0) : Type 0 where
  pub job_id : ℕ
  pub job_type : String
  pub state : JobState
  pub progress : F
  pub updated_at : ℕ

unfoldable pub details_to_summary : {F : Type 0} → JobDetails F → JobSummary F
details_to_summary d = record {
  job_id = d.job_id;
  job_type = d.job_type;
  state = d.state;
  progress = d.progress;
  updated_at = d.updated_at;
}

-- `JobEvent`. The identifier and the time that pydantic fills in are left out.
pub record JobEvent (F : Type 0) : Type 0 where
  pub job_id : ℕ
  pub job_type : String
  pub state : JobState
  pub progress : F
  pub message : Option String
  pub phase : Option String
  pub symbol : Option String
  pub category : Option String
  pub interval : Option String
  pub completed_units : Option ℤ
  pub total_units : Option ℤ
  pub rows_written : Option ℤ

-- What the bus carries: `SystemEvent`, `JobEvent`, `LogEvent`.
pub data Event (F : Type 0) : Type 0 where
  system : String → Event F
  job : JobEvent F → Event F
  log : (job_id : Option ℕ) (level : Message) (message : Message) → Event F

-- A member of a JSON object: missing or null, of the type that the reader wants, or of one on
-- which the reader raises.
pub data Field (A : Type 0) : Type 0 where
  absent : Field A
  given : A → Field A
  invalid : Field A

pub record ProgressFields (F : Type 0) : Type 0 where
  -- Here a null is `invalid`: `float(None)` raises.
  pub progress : Field F
  pub message : Field String
  pub phase : Field String
  pub symbol : Field String
  pub category : Field String
  pub interval : Field String
  pub completed_units : Field ℤ
  pub total_units : Field ℤ
  pub rows_written : Field ℤ

-- What `json.loads` and the `type` member make of a line. The texts of a log record are after
-- `str()`; `none` is a missing member.
pub data Parsed (F : Type 0) : Type 0 where
  not_json not_object : Parsed F
  progress_payload : ProgressFields F → Parsed F
  log_payload : (level message : Option String) → Parsed F
  other_payload : Parsed F

-- A stripped line of a worker's output.
pub record WorkerLine (F : Type 0) : Type 0 where
  pub text : String
  pub parsed : Parsed F

-- The level that a stream's lines have: `"INFO"` for stdout, `"ERROR"` for stderr.
pub data Stream : Type 0 where
  stdout stderr : Stream

-- `ManagedRun`, as all that a coroutine still holds. `registered`: `JobSupervisor._runs` has it.
-- A task is `true` while it has not ended.
pub record ManagedRun : Type 0 where
  pub job_type : String
  pub control_file : Bool
  pub stdout_task : Bool
  pub stderr_task : Bool
  pub wait_task : Bool
  pub stop_requested : Bool
  pub termination_reason : Option String
  pub registered : Bool
