-- ===== src/Backtest.antt =====
-- Simulations over stored candles: src/botik/backtest.
mod Metrics
mod Engines
mod Runner
mod Account
mod Drawdown
mod EngineLaws
mod Sides
mod Tests
