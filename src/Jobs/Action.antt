-- ===== src/Jobs/Action.antt =====
-- What a coroutine of the job subsystem does between two waits: it changes the state, and may
-- raise. What it wrote before it raised stays written.
use botik.Base.{ℕ, String, Option, none, some, Dict, insert}
use botik.Jobs.Types.{JobDetails, Event, Message, literal, ManagedRun}
use botik.Jobs.Bus.{Bus, publish}
use botik.Jobs.Store.{Store, update}

-- The state behind `JobManager` and `JobSupervisor`. `runs` holds each `ManagedRun` under the job
-- that it runs; a run object outlives its place in `JobSupervisor._runs`.
pub record App (F : Type 0) : Type 0 where
  pub store : Store F
  pub runs : Dict ManagedRun
  pub bus : Bus F

-- `none` is an exception.
abbrev pub Action : Type 0 → Type 0 → Type 0
Action F A = App F → Option A × App F

infixl 5 ◌>>=◌ ◌>>◌
abbrev pub ◌>>=◌ : {F A B : Type 0} → Action F A → (A → Action F B) → Action F B
◌>>=◌ m f a = let (r, a') = m a in elim r [ none ↦ (none, a') | some x ↦ f x a' ]

abbrev pub ◌>>◌ : {F A B : Type 0} → Action F A → Action F B → Action F B
m >> k = m >>= λ _. k

module _ {F : Type 0} where
  abbrev pub pure : {A : Type 0} → A → Action F A
  pure x a = (some x, a)

  abbrev pub raise : {A : Type 0} → Action F A
  raise a = (none, a)

  abbrev pub emit : Event F → Action F (Unit {0})
  emit e a = (some tt, record a { bus = publish e a.bus })

  abbrev pub set_run : ℕ → ManagedRun → Action F (Unit {0})
  set_run job_id r a = (some tt, record a { runs = insert job_id r a.runs })

  -- `self._store.update(...)`
  abbrev pub change : ℕ → ℕ → (JobDetails F → JobDetails F) → Action F (JobDetails F)
  change job_id now changes a = elim (update job_id now changes a.store) [
    | none ↦ (none, a)
    | some (d, s) ↦ (some d, record a { store = s })
  ]

  -- A `JobEvent` with the four fields that every one has, and a message.
  abbrev pub job_event : JobDetails F → String → Event F
  job_event d message = Event.job (record {
    job_id = d.job_id;
    job_type = d.job_type;
    state = d.state;
    progress = d.progress;
    message = some message;
    phase = none;
    symbol = none;
    category = none;
    interval = none;
    completed_units = none;
    total_units = none;
    rows_written = none;
  })

  abbrev pub log_event : ℕ → String → Message → Event F
  log_event job_id level message = Event.log (some job_id) (literal level) message
