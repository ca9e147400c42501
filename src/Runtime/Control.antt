-- ===== src/Runtime/Control.antt =====
-- The class `RuntimeControlService` of app-service/src/botik_app_service/runtime_control/service.py.
-- A runtime is a key, texts of errors are keys, times are numbers of milliseconds and arguments. The
-- operating system has the processes that are alive and those that were told to end or were killed;
-- a new process has a new number.
use botik.Base.{
  ℕ, suc, ◌==◌, Bool, true, false, ◌||◌, Option, none, some, List, [], ◌∷◌, if◌then◌else◌, Dict,
  lookup, insert, erase,
}

-- The task that waits for the end of a process.
pub data TaskState : Type 0 where
  pending done cancelled : TaskState

-- A run of `_runs`; a time is `none` if there was nothing.
pub record ManagedRuntime : Type 0 where
  pub pid : ℕ
  pub last_heartbeat_at : Option ℕ
  pub last_error : Option ℕ
  pub last_error_at : Option ℕ
  pub wait_task : TaskState
  pub stop_requested : Bool

-- `_runs`, the control files, and the processes.
pub record Control : Type 0 where
  pub runs : Dict ManagedRuntime
  pub control_files : List ℕ
  pub alive : List ℕ
  pub terminated : List ℕ
  pub killed : List ℕ
  pub next_pid : ℕ

unfoldable pub is_in : ℕ → List ℕ → Bool
is_in a [] = false
is_in a (b ∷ bs) = (a == b) || is_in a bs

-- `unlink`, of a file that may be missing.
unfoldable pub remove : ℕ → List ℕ → List ℕ
remove a [] = []
remove a (b ∷ bs) = if a == b then remove a bs else b ∷ remove a bs

-- `_finalize_run`
unfoldable pub finalize_run : ℕ → Control → Control
finalize_run k s = record s { runs = erase k s.runs; control_files = remove k s.control_files }

-- `start` from `_build_command` on.
unfoldable pub launch : ℕ → ℕ → Control → Control
launch k now s = record s {
  control_files = remove k s.control_files;
  runs =
      insert k
        record {
          pid = s.next_pid;
          last_heartbeat_at = some now;
          last_error = none;
          last_error_at = none;
          wait_task = TaskState.pending;
          stop_requested = false;
        }
        s.runs;
  alive = s.next_pid ∷ s.alive;
  next_pid = suc s.next_pid;
}

unfoldable pub start_over : Option ManagedRuntime → ℕ → ℕ → Control → Control
start_over none k now s = launch k now s
start_over (some r) k now s = if is_in r.pid s.alive then s else launch k now (finalize_run k s)

unfoldable pub start : ℕ → ℕ → Control → Control
start k now s = start_over (lookup k s.runs) k now s

-- What `asyncio.wait_for(task, timeout)` comes to.
pub data Waited : Type 0 where
  returned timed_out raised : Waited

-- A task that ends in time is waited for; one that does not is cancelled; one that was cancelled
-- raises `CancelledError`.
unfoldable pub wait_for : TaskState → (in_time : Bool) → Waited × TaskState
wait_for TaskState.pending true = (Waited.returned, TaskState.done)
wait_for TaskState.pending false = (Waited.timed_out, TaskState.cancelled)
wait_for TaskState.done in_time = (Waited.returned, TaskState.done)
wait_for TaskState.cancelled in_time = (Waited.raised, TaskState.cancelled)

-- The task of a process ends, by itself or cancelled: its `finally` finalizes the run. A task that
-- ends by itself waited for the process.
unfoldable pub end_task : ℕ → ℕ → TaskState → TaskState → Control → Control
end_task k pid TaskState.pending TaskState.done s =
    finalize_run k (record s { alive = remove pid s.alive })
end_task k pid TaskState.pending TaskState.cancelled s = finalize_run k s
end_task k pid TaskState.pending TaskState.pending s = s
end_task k pid TaskState.done after s = s
end_task k pid TaskState.cancelled after s = s

-- The task of a run when a time limit is over, or before.
unfoldable pub wait_task_of : ℕ → ℕ → TaskState → Bool → Control → Control
wait_task_of k pid task in_time s = end_task k pid task (wait_for task in_time).1 s

unfoldable pub kill_tree : ℕ → Control → Control
kill_tree pid s = record s { killed = pid ∷ s.killed; alive = remove pid s.alive }

-- `process_adapter.stop`: the process is told to end.
unfoldable pub terminate : ℕ → Control → Control
terminate pid s = record s { terminated = pid ∷ s.terminated }

-- After the second wait; the third is the last.
unfoldable pub second_wait : Waited → ℕ → ℕ → TaskState → Bool → Control → Waited × Control
second_wait Waited.returned k pid task t₃ s = (Waited.returned, s)
second_wait Waited.raised k pid task t₃ s = (Waited.raised, s)
second_wait Waited.timed_out k pid task t₃ s =
    ((wait_for task t₃).0, wait_task_of k pid task t₃ (kill_tree pid s))

-- After the first wait.
unfoldable pub first_wait : Waited → ℕ → ℕ → TaskState → (t₂ t₃ : Bool) → Control → Waited × Control
first_wait Waited.returned k pid task t₂ t₃ s = (Waited.returned, s)
first_wait Waited.raised k pid task t₂ t₃ s = (Waited.raised, s)
first_wait Waited.timed_out k pid task t₂ t₃ s =
    let w = wait_for task t₂ in
    second_wait w.0 k pid w.1 t₃ (wait_task_of k pid task t₂ (terminate pid s))

-- `stop` of a run, with whether each wait ends in time.
unfoldable pub stop_run : Option ManagedRuntime → ℕ → (t₁ t₂ t₃ : Bool) → Control → Waited × Control
stop_run none k t₁ t₂ t₃ s = (Waited.returned, s)
stop_run (some r) k t₁ t₂ t₃ s =
    let asked = record s {
      runs = insert k (record r { stop_requested = true }) s.runs;
      control_files = k ∷ remove k s.control_files;
    } in
    let w = wait_for r.wait_task t₁ in
    first_wait w.0 k r.pid w.1 t₂ t₃ (wait_task_of k r.pid r.wait_task t₁ asked)

unfoldable pub stop : ℕ → (t₁ t₂ t₃ : Bool) → Control → Waited × Control
stop k t₁ t₂ t₃ s = stop_run (lookup k s.runs) k t₁ t₂ t₃ s

-- A process ends by itself; its task follows later.
unfoldable pub exits : ℕ → Control → Control
exits pid s = record s { alive = remove pid s.alive }

-- `_wait_for_completion` of a process of the runtime comes to its end.
unfoldable pub completes : ℕ → Control → Control
completes k s = finalize_run k s

-- `shutdown`: the stops suppress errors, of which `CancelledError` is none, so that the first one that
-- raises ends it. The waits of a runtime are given with it.
pub record Waits : Type 0 where
  pub first : Bool
  pub second : Bool
  pub third : Bool

abbrev is_raised : Waited → Bool
is_raised Waited.returned = false
is_raised Waited.timed_out = false
is_raised Waited.raised = true

unfoldable pub stop_each : List ℕ → (ℕ → Waits) → Control → Bool × Control
stop_each [] waits s = (false, s)
stop_each (k ∷ ks) waits s =
    let w = waits k in
    let r = stop k w.first w.second w.third s in
    if is_raised r.0 then (true, r.1) else stop_each ks waits r.1

unfoldable pub finalize_each : List ℕ → Control → Control
finalize_each [] s = s
finalize_each (k ∷ ks) s = finalize_each ks (finalize_run k s)

abbrev keys_of : Dict ManagedRuntime → List ℕ
keys_of [] = []
keys_of ((k, r) ∷ runs) = k ∷ keys_of runs

unfoldable pub shutdown : (ℕ → Waits) → Control → Bool × Control
shutdown waits s =
    let r = stop_each (keys_of s.runs) waits s in
    if r.0 then r else (false, finalize_each (keys_of r.1.runs) r.1)
