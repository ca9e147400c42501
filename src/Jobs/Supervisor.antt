-- ===== src/Jobs/Supervisor.antt =====
-- `JobSupervisor` (jobs/supervisor.py), cut where its coroutines wait for a thread, a process or a
-- time limit.
mod Control
mod Worker
unfoldable pub use Control.*
unfoldable pub use Worker.*
