-- ===== src/Tests.antt =====
-- Concrete inputs, and the theorems at them.
pub mod Data
pub mod Receipts
pub mod Work
pub mod Health
pub mod Poll
pub mod Cooldown
pub mod Keys
pub mod Evidence
pub mod Runs
pub mod Properties
