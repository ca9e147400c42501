-- ===== src/Strategy.antt =====
-- The strategies that quote: src/botik/strategy.
mod Quoting
mod Scanner
mod Terms
mod Micro
mod Spike
mod Spacing
mod Pauses
mod Tests
