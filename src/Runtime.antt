-- ===== src/Runtime.antt =====
-- The runtimes that the app-service starts and watches:
-- app-service/src/botik_app_service/runtime_control and runtime_status.
mod Control
mod Status
mod Stop
mod Tests
