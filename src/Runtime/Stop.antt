-- ===== src/Runtime/Stop.antt =====
-- What `stop` of app-service/src/botik_app_service/runtime_control/service.py does when its waits end
-- late.
use botik.Base.{
  ℕ, ◌≡◌, refl, ap, ◌∙◌, Bool, true, false, Option, none, some, List, [], ◌∷◌, if◌then◌else◌,
  lookup, insert, lookup-erase, arith,
}
use botik.Runtime.Control.{
  TaskState, ManagedRuntime, Control, Waited, is_in, remove, finalize_run, launch, start_over,
  start, wait_for, exits, completes, end_task, wait_task_of, terminate, second_wait, first_wait,
  stop_run, stop,
}

-- What ending a task leaves of the processes.
end_task_killed :
    (k pid : ℕ) (a b : TaskState) (s : Control) → (end_task k pid a b s).killed ≡ s.killed
unfolding end_task finalize_run
end_task_killed k pid TaskState.pending TaskState.pending s = refl
end_task_killed k pid TaskState.pending TaskState.done s = refl
end_task_killed k pid TaskState.pending TaskState.cancelled s = refl
end_task_killed k pid TaskState.done b s = refl
end_task_killed k pid TaskState.cancelled b s = refl

wait_task_killed :
    (k pid : ℕ) (task : TaskState) (t : Bool) (s : Control)
    → (wait_task_of k pid task t s).killed ≡ s.killed
unfolding wait_task_of
wait_task_killed k pid task t s = end_task_killed k pid task (wait_for task t).1 s

-- A first wait that is over leaves a task for which no later wait times out.
waits_killed :
    (k pid : ℕ) (task : TaskState) (t₁ t₂ t₃ : Bool) (s : Control)
    → (first_wait (wait_for task t₁).0 k pid (wait_for task t₁).1 t₂ t₃ s).1.killed ≡ s.killed
unfolding first_wait second_wait wait_for wait_task_of end_task terminate
waits_killed k pid TaskState.pending true t₂ t₃ s = refl
waits_killed k pid TaskState.pending false t₂ t₃ s = refl
waits_killed k pid TaskState.done t₁ t₂ t₃ s = refl
waits_killed k pid TaskState.cancelled t₁ t₂ t₃ s = refl

stop_run_killed :
    (o : Option ManagedRuntime) (k : ℕ) (t₁ t₂ t₃ : Bool) (s : Control)
    → (stop_run o k t₁ t₂ t₃ s).1.killed ≡ s.killed
unfolding stop_run
stop_run_killed none k t₁ t₂ t₃ s = refl
stop_run_killed (some r) k t₁ t₂ t₃ s =
    let asked = record s {
      runs = insert k (record r { stop_requested = true }) s.runs;
      control_files = k ∷ remove k s.control_files;
    } in
    waits_killed k r.pid r.wait_task t₁ t₂ t₃ (wait_task_of k r.pid r.wait_task t₁ asked)
    ∙ wait_task_killed k r.pid r.wait_task t₁ asked

-- A stop never kills a process, in time or not: the wait that would come before it raises.
pub stop-killed : (k : ℕ) (t₁ t₂ t₃ : Bool) (s : Control) → (stop k t₁ t₂ t₃ s).1.killed ≡ s.killed
unfolding stop
stop-killed k t₁ t₂ t₃ s = stop_run_killed (lookup k s.runs) k t₁ t₂ t₃ s

-- The state after a first wait that times out, on a run that was still waited for.
late_stop :
    (k : ℕ) (r : ManagedRuntime) (task : TaskState) (t₂ t₃ : Bool) (s : Control)
    → r.wait_task ≡ task
    → task ≡ TaskState.pending
    → ((stop_run (some r) k false t₂ t₃ s).0 ≡ Waited.raised)
      × ((stop_run (some r) k false t₂ t₃ s).1.alive ≡ s.alive)
      × (lookup k (stop_run (some r) k false t₂ t₃ s).1.runs ≡ none)
unfolding stop_run first_wait second_wait wait_for wait_task_of end_task finalize_run terminate
late_stop k r TaskState.pending t₂ t₃ s e p =
    rw e (refl, refl, rw (lookup-erase k k _) (ground arith))
late_stop k r TaskState.done t₂ t₃ s e p = ground (arith, p)
late_stop k r TaskState.cancelled t₂ t₃ s e p = ground (arith, p)

start_unknown :
    (k now : ℕ) (s : Control)
    → lookup k s.runs ≡ none
    → (start k now s).alive ≡ s.next_pid ∷ s.alive
unfolding start start_over launch
start_unknown k now s h = ap (λ o. (start_over o k now s).alive) h

-- A stop whose first wait times out, of a run that is waited for, raises; the processes that are
-- alive stay, and the run is forgotten, so that a start afterwards starts one process more.
pub start-stop :
    (k now : ℕ) (r : ManagedRuntime) (t₂ t₃ : Bool) (s : Control)
    → lookup k s.runs ≡ some r
    → r.wait_task ≡ TaskState.pending
    → let s' = (stop k false t₂ t₃ s).1 in
      ((stop k false t₂ t₃ s).0 ≡ Waited.raised)
      × (lookup k s'.runs ≡ none)
      × ((start k now s').alive ≡ s'.next_pid ∷ s.alive)
unfolding stop
start-stop k now r t₂ t₃ s h p =
    let (late, same, gone) = late_stop k r r.wait_task t₂ t₃ s refl p in
    let s' = (stop_run (some r) k false t₂ t₃ s).1 in
    let known : stop k false t₂ t₃ s ≡ stop_run (some r) k false t₂ t₃ s =
      ap (λ o. stop_run o k false t₂ t₃ s) h in
    rw known (late, gone, start_unknown k now s' gone ∙ ap (λ (ps : List ℕ). s'.next_pid ∷ ps) same)

is_in-remove : (a : ℕ) (xs : List ℕ) → is_in a (remove a xs) ≡ false
unfolding is_in remove
is_in-remove a [] = refl
is_in-remove a (b ∷ xs) = ground (arith, is_in-remove a xs)

first_in : (a : ℕ) (xs : List ℕ) → is_in a (a ∷ xs) ≡ true
unfolding is_in
first_in a xs = ground arith

relaunch :
    (k now : ℕ) (r : ManagedRuntime) (s : Control)
    → lookup k s.runs ≡ some r
    → start k now (exits r.pid s) ≡ launch k now (finalize_run k (exits r.pid s))
unfolding start start_over exits
relaunch k now r s h =
    let ended = exits r.pid s in
    ap (λ o. start_over o k now ended) h
    ∙ ap (λ b. if b then ended else launch k now (finalize_run k ended))
        (is_in-remove r.pid s.alive)

-- A process ends, and its runtime is started again before the task that waited for the old process
-- comes to its end: that task then takes the new run out, of a process that is alive.
pub completes-start :
    (k now : ℕ) (r : ManagedRuntime) (s : Control)
    → lookup k s.runs ≡ some r
    → let ended = exits r.pid s in
      let s' = completes k (start k now ended) in
      (lookup k s'.runs ≡ none) × (is_in s.next_pid s'.alive ≡ true)
unfolding completes exits finalize_run launch
completes-start k now r s h =
    let ended = exits r.pid s in
    rw (relaunch k now r s h) (
      rw (lookup-erase k k (launch k now (finalize_run k ended)).runs) (ground arith),
      first_in s.next_pid _,
    )
