-- ===== src/Examples.antt =====
-- The theorems at small concrete inputs.
pub mod Data
pub mod Comparing
pub mod Reporting
pub mod Deciding
pub mod Running
pub mod Planning
pub mod RollingData
pub mod Rolling
pub mod Loading
