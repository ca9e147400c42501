-- ===== src/Runners.antt =====
-- The processes that join market data, position sizing and the paper engines: src/botik/runners.
mod Signals
mod Futures
mod Once
mod Spot
mod Brackets
mod Tests
