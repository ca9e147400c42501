-- ===== src/Runtime/Tests.antt =====
-- The witnesses: a runtime whose process does not end in time.
use botik.Base.{◌≡◌, refl, true, false, none, some, [], ◌∷◌, lookup}
use botik.Runtime.Control.{TaskState, ManagedRuntime, Control, Waited, start, stop}
use botik.Runtime.Stop.{start-stop}

abbrev a_run : ManagedRuntime
a_run = record {
  pid = 40;
  last_heartbeat_at = some 5_000;
  last_error = none;
  last_error_at = none;
  wait_task = TaskState.pending;
  stop_requested = false;
}

abbrev spot_runs : Control
spot_runs = record {
  runs = (1, a_run) ∷ [];
  control_files = [];
  alive = 40 ∷ [];
  terminated = [];
  killed = [];
  next_pid = 41;
}

a_run_known : lookup 1 spot_runs.runs ≡ some a_run
unfolding lookup
a_run_known = refl

start-stop_example :
    ((stop 1 false false true spot_runs).0 ≡ Waited.raised)
    × (lookup 1 (stop 1 false false true spot_runs).1.runs ≡ none)
    × ((start 1 9_000 (stop 1 false false true spot_runs).1).alive
        ≡ (stop 1 false false true spot_runs).1.next_pid ∷ 40 ∷ [])
start-stop_example = start-stop 1 9_000 a_run false true spot_runs a_run_known refl
