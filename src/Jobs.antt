-- ===== src/Jobs.antt =====
-- The job subsystem of the app-service (app-service/src/botik_app_service/jobs).
pub mod Types
pub mod Bus
pub mod Delivery
pub mod Store
pub mod Action
pub mod Supervisor
pub mod Manager
pub mod LineEffect
pub mod Steps
pub mod Invariant
pub mod Lifecycle
pub mod Outcome
pub mod Progress
pub mod Order
mod Tests
