-- ===== src/Jobs/Tests.antt =====
-- Runs of the job subsystem on concrete inputs.
use botik.Base.{
  ℕ, ◌≡◌, refl, Bool, true, false, Option, none, some, [], ◌∷◌, lookup, insert, String,
}
use botik.Base.Int.{ℤ, pos}
use botik.Base.Fixed.{Fixed, fixed_float, Fixed-FloatOrder}
use botik.Jobs.Types.{
  JobState, JobDetails, ManagedRun, Event, literal, WorkerLine, Parsed, Field, stdout, stderr,
}
use botik.Jobs.Store.{update, create}
use botik.Jobs.Bus.{publish_all, subscribe}
use botik.Jobs.Action.{App}
use botik.Jobs.Supervisor.{
  Launch, spawn, terminate_begin, handle_worker_line, handle_stream, handle_stdout, handle_progress,
  record_progress, progress_event, clamp, complete, cancel_wait, end_stream,
}
use botik.Jobs.Manager.{start, stop_begin, get}
use botik.Jobs.Steps.{start_job, stop_job, close_stream, exit_process, Reach, here, next, initial}
use botik.Jobs.Lifecycle.{lifecycle, final_stays, may_follow}
use botik.Jobs.Outcome.{complete-outcome, EndsAs, time_limit_strands, IsStranded}
use botik.Jobs.Progress.{HasFraction, progress_fraction}
use botik.Jobs.Invariant.{IsValid, reachable-IsValid}
use botik.Jobs.Delivery.{new_bus, subscribe_delivers}

abbrev fresh : App Fixed
fresh = initial Fixed 4

abbrev started : App Fixed
started = (start 7 8 "sample_data_import" (some (Launch.launched true)) 100 fresh).1

abbrev stopping : App Fixed
stopping = (stop_begin 7 (some "user") 101 started).1

abbrev run : Bool → Bool → Bool → Option String → ManagedRun
run out err stop reason = record {
  job_type = "sample_data_import";
  control_file = true;
  stdout_task = out;
  stderr_task = err;
  wait_task = true;
  stop_requested = stop;
  termination_reason = reason;
  registered = true;
}

abbrev half_closed : App Fixed
half_closed = (end_stream 7 (run true true false none) stdout started).1

abbrev closed : App Fixed
closed = (end_stream 7 (run false true false none) stderr half_closed).1

abbrev done : App Fixed
done = (complete 7 (run false false false none) (pos 0) 105 closed).1

abbrev failed : App Fixed
failed = (complete 7 (run false false false none) (pos 3) 105 closed).1

started-Reach : Reach fresh started
unfolding lookup
started-Reach =
    next here (start_job 7 8 "sample_data_import" (some (Launch.launched true)) 100 refl)

started-run : lookup 7 started.runs ≡ some (run true true false none)
unfolding start spawn get lookup insert create update
started-run = refl

closed-Reach : Reach fresh closed
unfolding end_stream lookup insert start spawn get create update
closed-Reach =
    next (next started-Reach (close_stream 7 (run true true false none) stdout refl))
      (close_stream 7 (run false true false none) stderr refl)

done-Reach : Reach fresh done
unfolding end_stream lookup insert start spawn get create update
done-Reach =
    next closed-Reach (exit_process 7 (run false false false none) (pos 0) 105 refl refl refl refl)

stopping-Reach : Reach fresh stopping
stopping-Reach = next started-Reach (stop_job 7 (some "user") 101)

abbrev details : JobState → Option ℤ → Fixed → ℕ → JobDetails Fixed
details s code p now = record {
  job_id = 7;
  job_type = "sample_data_import";
  state = s;
  progress = p;
  started_at = some 100;
  updated_at = now;
  exit_code = code;
  last_error = none;
  log_stream_id = 8;
}

abbrev line : Fixed → WorkerLine Fixed
line p = record {
  text = "{}";
  parsed = Parsed.progress_payload (record {
    progress = Field.given p;
    message = Field.absent;
    phase = Field.absent;
    symbol = Field.absent;
    category = Field.absent;
    interval = Field.absent;
    completed_units = Field.absent;
    total_units = Field.absent;
    rows_written = Field.absent;
  });
}

-- A progress of 2.5 is stored as 1; NaN is stored as 0.
clamped :
    (lookup 7 (handle_worker_line 7 stdout (line (some (pos 25_000))) 102 started).1.store
      ≡ some (details JobState.running none (some (pos 10_000)) 102))
    × (lookup 7 (handle_worker_line 7 stdout (line none) 102 started).1.store
        ≡ some (details JobState.running none (some (pos 0)) 102))
unfolding handle_worker_line handle_stream handle_stdout handle_progress record_progress
    progress_event clamp start spawn get lookup insert create update
clamped = (refl, refl)

lifecycle_example :
    (d' : JobDetails Fixed) × (lookup 7 stopping.store ≡ some d')
    × (may_follow JobState.running d'.state ≡ true)
unfolding start spawn get lookup insert create update
lifecycle_example =
    lifecycle 4 7 {d = details JobState.running none (some (pos 0)) 100} started-Reach
      (stop_job 7 (some "user") 101) refl

final_stays_example :
    lookup 7 (stop_begin 7 none 200 done).1.store
    ≡ some (details JobState.completed (some (pos 0)) (some (pos 10_000)) 105)
unfolding complete end_stream start spawn get lookup insert create update
final_stays_example = final_stays 4 7 done-Reach refl refl (next here (stop_job 7 none 200))

complete-outcome_example :
    EndsAs JobState.failed
      (pos 3)
      (lookup 7 (complete 7 (run false false false none) (pos 3) 105 closed).1.store)
unfolding end_stream start spawn get lookup insert create update
complete-outcome_example =
    complete-outcome 4 7 closed (run false false false none)
      (details JobState.running none (some (pos 0)) 100) (pos 3) 105 closed-Reach refl refl refl

time_limit_strands_example :
    let b = (cancel_wait 7 (run true true true (some "user")) stopping).1 in
    IsStranded (lookup 7 b.store) (lookup 7 b.runs)
unfolding stop_begin terminate_begin start spawn get lookup insert create update
time_limit_strands_example =
    time_limit_strands 4 7 stopping (cancel_wait 7 (run true true true (some "user")) stopping).1
      (run true true true (some "user")) stopping-Reach refl refl refl here

progress_fraction_example : HasFraction (lookup 7 done.store)
progress_fraction_example = progress_fraction Fixed-FloatOrder 4 7 done done-Reach

reachable-IsValid_example : IsValid done
reachable-IsValid_example = reachable-IsValid 4 done done-Reach

subscribe_delivers_example :
    let e : ℕ → Event Fixed = λ k. Event.log (some k) (literal "INFO") (literal "line") in
    let (replay, b) = subscribe 3 (publish_all (e 1 ∷ e 2 ∷ e 3 ∷ []) (new_bus 2)) in
    (replay ≡ e 2 ∷ e 3 ∷ []) × (lookup 3 (publish_all (e 4 ∷ []) b).subscribers ≡ some (e 4 ∷ []))
subscribe_delivers_example =
    let e : ℕ → Event Fixed = λ k. Event.log (some k) (literal "INFO") (literal "line") in
    subscribe_delivers 2 3 (e 1 ∷ e 2 ∷ e 3 ∷ []) (e 4 ∷ [])
