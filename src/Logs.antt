-- ===== src/Logs.antt =====
-- The log channels of the app-service: app-service/src/botik_app_service/logs.
mod Manager
mod Buffers
mod Tests
