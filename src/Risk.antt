-- ===== src/Risk.antt =====
-- Risk limits of the trading runtime (src/botik/risk).
pub mod Manager
pub mod Window
pub mod Rate
pub mod Limits
pub mod FuturesRules
pub mod Protection
pub mod ExitRules
pub mod Exits
pub mod FuturesProtection
pub mod Position
pub mod Fills
pub mod Plans
mod Tests
mod RuleTests
