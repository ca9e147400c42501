-- ===== src/Feeds.antt =====
-- The market data that is stored: src/botik/marketdata/ohlcv_worker.py.
mod Ohlcv
mod Backfill
mod Tests
