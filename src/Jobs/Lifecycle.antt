-- ===== src/Jobs/Lifecycle.antt =====
-- How the state of a job changes along a run of the job subsystem.
use botik.Base.{
  ℕ, ◌≡◌, refl, String, Bool, true, false, Option, none, some, lookup, lookup-insert, arith,
}
use botik.Base.Int.{ℤ}
use botik.Base.Float.{Float}
use botik.Jobs.Types.{JobState, JobDetails, ManagedRun, Stream, stdout, stderr, WorkerLine}
use botik.Jobs.Store.{update, create}
use botik.Jobs.Action.{App}
use botik.Jobs.Supervisor.{
  Launch, handle_worker_line, complete, cancel_wait, end_stream, spawn, terminate_begin,
}
use botik.Jobs.Manager.{start, stop_begin}
use botik.Jobs.LineEffect.{handle_worker_line-Writes}
use botik.Jobs.Steps.{
  is_open, Step, start_job, stop_job, take_line, close_stream, exit_process, time_limit, Reach,
  here, next, initial,
}
use botik.Jobs.Invariant.{is_final, IsValid, Reach-IsValid, reachable-IsValid}

-- The state machine that the contract of a job promises, between two steps.
abbrev pub may_follow : JobState → JobState → Bool
may_follow JobState.queued JobState.queued = true
may_follow JobState.running JobState.running = true
may_follow JobState.running JobState.stopping = true
may_follow JobState.running JobState.completed = true
may_follow JobState.running JobState.failed = true
may_follow JobState.stopping JobState.stopping = true
may_follow JobState.stopping JobState.cancelled = true
may_follow JobState.completed JobState.completed = true
may_follow JobState.failed JobState.failed = true
may_follow JobState.cancelled JobState.cancelled = true
may_follow _ _ = false

module _ {F : Type 0} where
  -- The job is still there, and its state may follow the old one; if that was final, nothing at
  -- all has changed.
  abbrev Follows : JobDetails F → Option (JobDetails F) → Type 0
  Follows d none = ⊥
  Follows d (some d') =
      (may_follow d.state d'.state ≡ true) × (is_final d.state ≡ true → some d' ≡ some d)

module _ {F : Type 0} ⦃fl : Float F⦄ where
  module _ (a : App F) (k : ℕ) {d : JobDetails F} (found : lookup k a.store ≡ some d)
      (valid : IsValid a) where
    complete-Follows :
        (job_id : ℕ) (r : ManagedRun) (exit_code : ℤ) (now : ℕ)
        → lookup job_id a.runs ≡ some r
        → r.wait_task ≡ true
        → Follows d (lookup k (complete job_id r exit_code now a).1.store)
    unfolding complete update
    complete-Follows job_id r exit_code now e w =
        grind (arith, lookup-insert, valid k, valid job_id)

    stop_begin-Follows :
        (job_id : ℕ) (reason : Option String) (now : ℕ)
        → Follows d (lookup k (stop_begin job_id reason now a).1.store)
    unfolding stop_begin terminate_begin update
    stop_begin-Follows job_id reason now = grind (arith, lookup-insert, valid k, valid job_id)

    handle_worker_line-Follows :
        (job_id : ℕ) (r : ManagedRun) (stream : Stream) (line : WorkerLine F) (now : ℕ)
        → lookup job_id a.runs ≡ some r
        → is_open r stream ≡ true
        → Follows d (lookup k (handle_worker_line job_id stream line now a).1.store)
    handle_worker_line-Follows job_id r stream line now e o =
        rw (handle_worker_line-Writes k job_id now a stream line).0
          (ground (arith, valid k, valid job_id))

    start-Follows :
        (job_id log_stream_id : ℕ) (job_type : String) (definition : Option Launch) (now : ℕ)
        → lookup job_id a.store ≡ none
        → Follows d (lookup k (start job_id log_stream_id job_type definition now a).1.store)
    unfolding start spawn update create
    start-Follows job_id log job_type none now e = grind (arith, valid k)
    start-Follows job_id log job_type (some Launch.no_launcher) now e =
        grind (arith, lookup-insert, valid k)
    start-Follows job_id log job_type (some (Launch.launch_failed exc)) now e =
        grind (arith, lookup-insert, valid k)
    start-Follows job_id log job_type (some (Launch.launched c)) now e =
        grind (arith, lookup-insert, valid k)

    end_stream-Follows :
        (job_id : ℕ) (r : ManagedRun) (stream : Stream)
        → lookup job_id a.runs ≡ some r
        → Follows d (lookup k (end_stream job_id r stream a).1.store)
    unfolding end_stream
    end_stream-Follows job_id r stdout e = grind (arith, valid k)
    end_stream-Follows job_id r stderr e = grind (arith, valid k)

    cancel_wait-Follows :
        (job_id : ℕ) (r : ManagedRun) → Follows d (lookup k (cancel_wait job_id r a).1.store)
    unfolding cancel_wait
    cancel_wait-Follows job_id r = grind (arith, valid k)

  Step-Follows :
      (k : ℕ) {a b : App F} {d : JobDetails F}
      → lookup k a.store ≡ some d
      → IsValid a
      → Step a b
      → Follows d (lookup k b.store)
  Step-Follows k {a} f v (start_job job_id log job_type definition now e) =
      start-Follows a k f v job_id log job_type definition now e
  Step-Follows k {a} f v (stop_job job_id reason now) = stop_begin-Follows a k f v job_id reason now
  Step-Follows k {a} f v (take_line job_id r stream line now e o) =
      handle_worker_line-Follows a k f v job_id r stream line now e o
  Step-Follows k {a} f v (close_stream job_id r stream e) =
      end_stream-Follows a k f v job_id r stream e
  Step-Follows k {a} f v (exit_process job_id r exit_code now e w o u) =
      complete-Follows a k f v job_id r exit_code now e w
  Step-Follows k {a} f v (time_limit job_id r e w q) = cancel_wait-Follows a k f v job_id r

  Follows-found :
      (d : JobDetails F) (o : Option (JobDetails F))
      → Follows d o
      → (d' : JobDetails F) × (o ≡ some d') × (may_follow d.state d'.state ≡ true)
  Follows-found d none h = elim h [ ]
  Follows-found d (some d') h = (d', refl, h.0)

  -- In a state that is reached from the start, a step never drops a job, and takes its state only
  -- along the machine `may_follow`: a running job goes on, is being stopped, completes or fails; a
  -- stopping job goes on or is cancelled; a completed, failed or cancelled job stays what it is.
  pub lifecycle :
      (n k : ℕ) {a b : App F} {d : JobDetails F}
      → Reach (initial F n) a
      → Step a b
      → lookup k a.store ≡ some d
      → (d' : JobDetails F) × (lookup k b.store ≡ some d') × (may_follow d.state d'.state ≡ true)
  lifecycle n k {a} {b} r s f =
      Follows-found _ (lookup k b.store) (Step-Follows k f (reachable-IsValid n a r) s)

  final_kept :
      {d : JobDetails F} (o : Option (JobDetails F))
      → is_final d.state ≡ true
      → Follows d o
      → o ≡ some d
  final_kept none q h = elim h [ ]
  final_kept (some d') q h = h.1 q

  -- Once a job is completed, failed or cancelled, no further run of the system changes any of its
  -- details: not a late line of its worker, not a stop, not a time limit.
  pub final_stays :
      (n k : ℕ) {a b : App F} {d : JobDetails F}
      → Reach (initial F n) a
      → lookup k a.store ≡ some d
      → is_final d.state ≡ true
      → Reach a b
      → lookup k b.store ≡ some d
  final_stays n k r f q here = f
  final_stays n k {a} {b} r f q (next {b = m} before s) = final_kept (lookup k b.store) q (
      Step-Follows k (final_stays n k r f q before) (Reach-IsValid (reachable-IsValid n a r) before)
        s)
