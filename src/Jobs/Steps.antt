-- ===== src/Jobs/Steps.antt =====
-- The runs of the job subsystem. Its coroutines, its clients and the worker processes act in any
-- order, one step at a time.
use botik.Base.{ℕ, ◌≡◌, String, Bool, true, false, Option, none, some, [], lookup}
use botik.Base.Int.{ℤ}
use botik.Base.Float.{Float}
use botik.Jobs.Types.{ManagedRun, Stream, stdout, stderr, WorkerLine}
use botik.Jobs.Action.{App}
use botik.Jobs.Supervisor.{Launch, handle_worker_line, complete, cancel_wait, end_stream}
use botik.Jobs.Manager.{start, stop_begin}

abbrev pub is_open : ManagedRun → Stream → Bool
is_open r stdout = r.stdout_task
is_open r stderr = r.stderr_task

module _ {F : Type 0} ⦃fl : Float F⦄ where
  pub data Step (a : App F) : App F → Type 0 where
    -- a client starts a job; `uuid4` gives an id that no job has
    start_job :
        (job_id log_stream_id : ℕ) (job_type : String) (definition : Option Launch) (now : ℕ)
        → lookup job_id a.store ≡ none
        → Step a (start job_id log_stream_id job_type definition now a).1
    -- a client stops a job
    stop_job :
        (job_id : ℕ) (reason : Option String) (now : ℕ) → Step a (stop_begin job_id reason now a).1
    -- a reader of a worker's output takes a line
    take_line :
        (job_id : ℕ) (r : ManagedRun) (stream : Stream) (line : WorkerLine F) (now : ℕ)
        → lookup job_id a.runs ≡ some r
        → is_open r stream ≡ true
        → Step a (handle_worker_line job_id stream line now a).1
    -- such a reader ends
    close_stream :
        (job_id : ℕ) (r : ManagedRun) (stream : Stream)
        → lookup job_id a.runs ≡ some r
        → Step a (end_stream job_id r stream a).1
    -- the process has ended, and both readers
    exit_process :
        (job_id : ℕ) (r : ManagedRun) (exit_code : ℤ) (now : ℕ)
        → lookup job_id a.runs ≡ some r
        → r.wait_task ≡ true
        → r.stdout_task ≡ false
        → r.stderr_task ≡ false
        → Step a (complete job_id r exit_code now a).1
    -- `terminate` has waited for the end of the job for as long as it may
    time_limit :
        (job_id : ℕ) (r : ManagedRun)
        → lookup job_id a.runs ≡ some r
        → r.wait_task ≡ true
        → r.stop_requested ≡ true
        → Step a (cancel_wait job_id r a).1

  pub data Reach (a : App F) : App F → Type 0 where
    here : Reach a a
    next : {b c : App F} → Reach a b → Step b c → Reach a c

-- The state at start-up.
abbrev pub initial : (F : Type 0) → ℕ → App F
initial F buffer_size = record {
  store = [];
  runs = [];
  bus = record { buffer_size = buffer_size; recent = []; subscribers = [] };
}
