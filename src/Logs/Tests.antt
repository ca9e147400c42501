-- ===== src/Logs/Tests.antt =====
-- The witnesses: a manager with its three channels, and a subscriber of the job events.
use botik.Base.{ℕ, ◌≡◌, refl, true, some, List, [], ◌∷◌, ◌++◌, All, lookup}
use botik.Jobs.Types.{literal}
use botik.Logs.Manager.{LogSource, LogEntry, ChannelState, LogsManager, app_channel, jobs_channel}
use botik.Logs.Buffers.{publish_all, of_channel, queue_then, IsKnown, Holds, publish_all_delivers}

abbrev jobs_state : ChannelState
jobs_state = record {
  label = "Job Events";
  source_kind = "events";
  available = true;
  entries = [];
  subscribers = (7, []) ∷ [];
}

abbrev app_state : ChannelState
app_state = record {
  label = "App Service";
  source_kind = "memory";
  available = true;
  entries = [];
  subscribers = [];
}

abbrev manager : LogsManager
manager = record {
  buffer_size = 2;
  snapshot_limit = 1;
  channels = (app_channel, app_state) ∷ (jobs_channel, jobs_state) ∷ [];
  channel_order = app_channel ∷ jobs_channel ∷ [];
  has_loop = true;
}

abbrev entry : ℕ → ℕ → LogEntry
entry n channel = record {
  entry_id = n;
  channel = channel;
  level = literal "INFO";
  message = literal "message";
  source = LogSource.of_job n;
}

abbrev entries : List LogEntry
entries =
    entry 1 jobs_channel ∷ entry 2 app_channel ∷ entry 3 jobs_channel ∷ entry 4 jobs_channel ∷ []

entries-IsKnown : All (IsKnown manager) entries
unfolding lookup
entries-IsKnown =
    ((jobs_state, refl), ((app_state, refl), ((jobs_state, refl), ((jobs_state, refl), tt))))

manager-Holds : Holds manager jobs_channel 7 [] (some [])
unfolding lookup
manager-Holds = (jobs_state, refl, refl, refl)

publish_all_delivers_example :
    (m' : LogsManager) × (publish_all entries manager ≡ some m')
    × (m'.buffer_size ≡ 2)
    × Holds m' jobs_channel 7
        ([] ++ of_channel jobs_channel entries)
        (queue_then (of_channel jobs_channel entries) (some []))
publish_all_delivers_example =
    publish_all_delivers entries manager entries-IsKnown refl jobs_channel 7 [] (some [])
      manager-Holds

abbrev full : LogsManager
full = record manager {
  channels = (jobs_channel, record jobs_state { entries = entry 3 1 ∷ entry 4 1 ∷ [] }) ∷ [];
}
