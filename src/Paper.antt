-- ===== src/Paper.antt =====
-- The paper engines: src/botik/position, src/botik/execution/spot_paper.py and futures_paper.py.
pub mod Policy
pub mod Rows
pub mod Spot
pub mod Replay
mod Ticks
mod Stats
mod Orders
mod Wins
pub mod Futures
pub mod Sizer
mod FuturesStats
mod FuturesTicks
mod FuturesRuns
mod FuturesTests
mod Tests
