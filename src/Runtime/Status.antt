-- ===== src/Runtime/Status.antt =====
-- What is seen of a runtime: the lines of its process and `observations` of
-- app-service/src/botik_app_service/runtime_control/service.py, and the class `RuntimeStatusService` of
-- runtime_status/service.py. The process probe, the old logs and the fixture are arguments.
use botik.Base.{
  ℕ, ◌-◌, ◌≡◌, refl, Bool, true, false, not, ◌&&◌, ltb, leb, Option, none, some, List, [], ◌∷◌,
  if◌then◌else◌, Dict, arith,
}
use botik.Runtime.Control.{ManagedRuntime, Control, is_in}

-- A line of output, of which the time is `none` if it is missing or wrong.
pub data Line : Type 0 where
  no_line no_json other_json : Line
  heartbeat : Option ℕ → Line
  log_entry : (is_warning : Bool) (message : ℕ) (timestamp : Option ℕ) → Line

abbrev or_now : Option ℕ → ℕ → ℕ
or_now none now = now
or_now (some t) now = t

-- `_handle_line` of the standard output, and of the error output.
unfoldable pub handle_line : Line → ℕ → ManagedRuntime → ManagedRuntime
handle_line Line.no_line now r = r
handle_line Line.no_json now r = r
handle_line Line.other_json now r = r
handle_line (Line.heartbeat t) now r = record r { last_heartbeat_at = some (or_now t now) }
handle_line (Line.log_entry false message t) now r = r
handle_line (Line.log_entry true message t) now r = record r {
  last_error = some message;
  last_error_at = some (or_now t now);
}

unfoldable pub handle_error_line : Option ℕ → ℕ → ManagedRuntime → ManagedRuntime
handle_error_line none now r = r
handle_error_line (some line) now r = record r { last_error = some line; last_error_at = some now }

pub record Activity : Type 0 where
  pub last_heartbeat_at : Option ℕ
  pub last_error : Option ℕ
  pub last_error_at : Option ℕ

pub record Observation : Type 0 where
  pub pids : List ℕ
  pub activity : Activity

unfoldable pub observe : List ℕ → Dict ManagedRuntime → Dict Observation
observe alive [] = []
observe alive ((k, r) ∷ runs) =
    let rest = observe alive runs in
    if is_in r.pid alive
    then (
      k,
      record {
        pids = r.pid ∷ [];
        activity = record {
          last_heartbeat_at = r.last_heartbeat_at;
          last_error = r.last_error;
          last_error_at = r.last_error_at;
        };
      },
    )
      ∷ rest
    else rest

unfoldable pub observations : Control → Dict Observation
observations s = observe s.alive s.runs

pub data RuntimeState : Type 0 where
  running degraded offline : RuntimeState

-- The text of the reason.
pub data StatusReason : Type 0 where
  no_process no_heartbeat stale_heartbeat recent_error recent_heartbeat : StatusReason

-- An error as late as the last heartbeat.
abbrev pub is_recent : Option ℕ → ℕ → Bool
is_recent none beat = false
is_recent (some e) beat = leb beat e

-- `_classify_status`: an age below 0 is 0.
unfoldable pub classify_beat : ℕ → Option ℕ → ℕ → ℕ → RuntimeState × StatusReason × Option ℕ
classify_beat stale error beat now =
    let age = now - beat in
    if ltb stale age
    then (RuntimeState.degraded, StatusReason.stale_heartbeat, some age)
    else if is_recent error beat
    then (RuntimeState.degraded, StatusReason.recent_error, some age)
    else (RuntimeState.running, StatusReason.recent_heartbeat, some age)

abbrev age_of : Option ℕ → ℕ → Option ℕ
age_of none now = none
age_of (some beat) now = some (now - beat)

-- With a process.
unfoldable pub classify_alive : ℕ → Option ℕ → Option ℕ → ℕ → RuntimeState × StatusReason × Option ℕ
classify_alive stale error none now = (RuntimeState.degraded, StatusReason.no_heartbeat, none)
classify_alive stale error (some beat) now = classify_beat stale error beat now

unfoldable pub classify_status : ℕ → List ℕ → Activity → ℕ → RuntimeState × StatusReason × Option ℕ
classify_status stale [] a now =
    (RuntimeState.offline, StatusReason.no_process, age_of a.last_heartbeat_at now)
classify_status stale (p ∷ pids) a now =
    classify_alive stale a.last_error_at a.last_heartbeat_at now

-- `_build_runtime_status`, of the state: an observation goes before the probe and the old logs.
unfoldable pub build_runtime_status :
    ℕ → List ℕ → Activity → Option Observation → ℕ → RuntimeState × StatusReason × Option ℕ
build_runtime_status stale pids old none now = classify_status stale pids old now
build_runtime_status stale pids old (some o) now = classify_status stale o.pids o.activity now

abbrev pub is_running : RuntimeState → Bool
is_running RuntimeState.running = true
is_running RuntimeState.degraded = false
is_running RuntimeState.offline = false

abbrev pub has_any : List ℕ → Bool
has_any [] = false
has_any (p ∷ pids) = true

-- A heartbeat that is not stale, and that no error came with or after.
abbrev pub is_healthy : ℕ → Option ℕ → Option ℕ → ℕ → Bool
is_healthy stale error none now = false
is_healthy stale error (some beat) now = leb (now - beat) stale && not (is_recent error beat)

classify_alive-is_running :
    (stale : ℕ) (error beat : Option ℕ) (now : ℕ)
    → is_running (classify_alive stale error beat now).0 ≡ is_healthy stale error beat now
unfolding classify_alive classify_beat
classify_alive-is_running stale error none now = refl
classify_alive-is_running stale error (some beat) now = ground arith

-- A runtime is said to run if and only if it has a process and its last heartbeat is not stale and
-- later than its last error.
pub classify_status-is_running :
    (stale : ℕ) (pids : List ℕ) (a : Activity) (now : ℕ)
    → is_running (classify_status stale pids a now).0
      ≡ has_any pids && is_healthy stale a.last_error_at a.last_heartbeat_at now
unfolding classify_status
classify_status-is_running stale [] a now = refl
classify_status-is_running stale (p ∷ pids) a now =
    classify_alive-is_running stale a.last_error_at a.last_heartbeat_at now
