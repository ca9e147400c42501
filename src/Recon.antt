-- ===== src/Recon.antt =====
-- Reconciliation with the exchange: src/botik/execution/reconciliation_service.py, the rows that it
-- writes (src/botik/storage), and the locks that src/botik/main.py reads from them.
mod Issues
mod Tables
mod Service
mod Wallet
mod Orders
mod Fills
mod Positions
mod Run
mod Faults
mod Ledger
mod Kept
mod Resolve
mod Sound
mod Locks
mod Rows
mod Repeat
mod Reports
mod Failing
mod Tests
