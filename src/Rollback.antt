-- ===== src/Rollback.antt =====
-- internal/rollback: the assessment of a rollback after an upgrade, its eligibility, its readiness
-- and its recommendation.
pub mod Types
pub mod Reasons
pub mod Model
pub mod Recommendation
pub mod Texts
pub mod Checks
pub mod Provenance
pub mod Freshness
pub mod Families
pub mod Operational
pub mod Eks
