-- ===== src/Findings.antt =====
-- internal/findings: the finding schema, its validation, priorities, reports and the namespace
-- filter.
pub mod Types
pub mod Context
pub mod Execution
pub mod Reference
pub mod Finding
pub mod Priority
pub mod Filter
pub mod ApiCompat
pub mod Readiness
pub mod Inventory
pub mod Report
