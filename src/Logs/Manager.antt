-- ===== src/Logs/Manager.antt =====
-- The class `LogsManager` of logs/manager.py. Channels are keys; a time stamp adds nothing to an
-- entry here. An entry is put in the queue of a subscriber by the event loop, in the order of
-- publication; the queue has no bound, so here it is put there at once. Reading the file of the
-- desktop shell is left out.
use botik.Base.{
  ℕ, ◌==◌, String, Bool, true, false, Option, none, some, List, [], ◌∷◌, ◌++◌, length, take_last,
  if◌then◌else◌, ltb, Dict, lookup, insert, erase,
}
use botik.Jobs.Types.{Event, Message}

-- The source of an entry: the name of a logger, or the job that it is about.
pub data LogSource : Type 0 where
  named : String → LogSource
  of_job : ℕ → LogSource

pub record LogEntry : Type 0 where
  pub entry_id : ℕ
  pub channel : ℕ
  pub level : Message
  pub message : Message
  pub source : LogSource

pub record ChannelState : Type 0 where
  pub label : String
  pub source_kind : String
  pub available : Bool
  pub entries : List LogEntry
  -- each subscriber with its queue
  pub subscribers : Dict (List LogEntry)

pub record LogsManager : Type 0 where
  pub buffer_size : ℕ
  pub snapshot_limit : ℕ
  pub channels : Dict ChannelState
  pub channel_order : List ℕ
  -- the event loop is known, once `start` has run
  pub has_loop : Bool

pub record Snapshot : Type 0 where
  pub entries : List LogEntry
  pub truncated : Bool

abbrev pub app_channel : ℕ
app_channel = 0

abbrev pub jobs_channel : ℕ
jobs_channel = 1

abbrev pub desktop_channel : ℕ
desktop_channel = 2

abbrev pub legacy_channel : ℕ
legacy_channel = 3

unfoldable pub register_channel : ℕ → String → String → Bool → LogsManager → LogsManager
register_channel k label source_kind available m = elim (lookup k m.channels) [
  | some c ↦ m
  | none ↦ record m {
    channels =
        insert k
          record {
            label = label;
            source_kind = source_kind;
            available = available;
            entries = [];
            subscribers = [];
          }
          m.channels;
    channel_order = m.channel_order ++ k ∷ [];
  }
]

-- `LogsManager(buffer_size, snapshot_limit, legacy_runtime_log_path)`
unfoldable pub new_manager : ℕ → ℕ → Bool → LogsManager
new_manager buffer_size snapshot_limit has_legacy =
    let m = register_channel desktop_channel "Desktop Shell" "file" false (
      register_channel jobs_channel "Job Events" "events" true (
        register_channel app_channel "App Service" "memory" true record {
          buffer_size = buffer_size;
          snapshot_limit = snapshot_limit;
          channels = [];
          channel_order = [];
          has_loop = false;
        })) in
    if has_legacy
    then register_channel legacy_channel "Legacy Runtime" "compatibility" false m
    else m

unfoldable pub put_all : LogEntry → Dict (List LogEntry) → Dict (List LogEntry)
put_all e [] = []
put_all e ((s, q) ∷ subs) = (s, q ++ e ∷ []) ∷ put_all e subs

-- What a publication makes of the channel: the deque has a `maxlen`.
unfoldable pub push_entry : ℕ → Bool → LogEntry → ChannelState → ChannelState
push_entry buffer_size has_loop e c = record c {
  entries = take_last buffer_size (c.entries ++ e ∷ []);
  subscribers = if has_loop then put_all e c.subscribers else c.subscribers;
}

abbrev update_channel : ℕ → (ChannelState → ChannelState) → LogsManager → Option LogsManager
update_channel k f m = elim (lookup k m.channels) [
  | none ↦ none
  | some c ↦ some record m { channels = insert k (f c) m.channels }
]

-- Like the operations below, `none` on a channel that is not registered, where the code raises.
unfoldable pub publish : LogEntry → LogsManager → Option LogsManager
publish e m = update_channel e.channel (push_entry m.buffer_size m.has_loop e) m

unfoldable pub set_channel_availability : ℕ → Bool → LogsManager → Option LogsManager
set_channel_availability k available m =
    update_channel k (λ c. record c { available = available }) m

-- `subscribe` before its first wait, with a number for the queue, and its `finally`.
unfoldable pub subscribe : ℕ → ℕ → LogsManager → Option LogsManager
subscribe k s m = update_channel k (λ c. record c { subscribers = insert s [] c.subscribers }) m

unfoldable pub unsubscribe : ℕ → ℕ → LogsManager → Option LogsManager
unsubscribe k s m = update_channel k (λ c. record c { subscribers = erase s c.subscribers }) m

-- `entries[-limit:]`, which is all for 0.
abbrev pub last_entries : ℕ → List LogEntry → List LogEntry
last_entries n xs = if n == 0 then xs else take_last n xs

unfoldable pub snapshot : ℕ → LogsManager → Option Snapshot
snapshot k m = elim (lookup k m.channels) [
  | none ↦ none
  | some c ↦
      let kept = last_entries m.snapshot_limit c.entries in
      some record { entries = kept; truncated = ltb (length kept) (length c.entries) }
]

abbrev job_source : Option ℕ → LogSource
job_source none = LogSource.named "job-manager"
job_source (some k) = LogSource.of_job k

-- What `_bridge_job_logs` makes of an event of the bus, with a new number for the entry.
unfoldable pub bridge_entry : {F : Type 0} → ℕ → Event F → Option LogEntry
bridge_entry n (Event.system s) = none
bridge_entry n (Event.job j) = none
bridge_entry n (Event.log job_id level message) = some record {
  entry_id = n;
  channel = jobs_channel;
  level = level;
  message = message;
  source = job_source job_id;
}
