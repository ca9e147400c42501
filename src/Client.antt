-- ===== src/Client.antt =====
-- The paper client that stands in for the exchange: src/botik/execution/paper.py.
mod Orders
mod Account
mod Cancel
mod Tests
