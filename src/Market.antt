-- ===== src/Market.antt =====
-- Market data in memory and the admission of pairs: src/botik/state/state.py and
-- src/botik/strategy/pair_admission.py.
mod Series
pub mod State
mod Tape
mod Moves
mod Admission
mod Gate
mod Tests
