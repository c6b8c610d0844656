-- ===== src/Rules.antt =====
-- internal/rules: the registry that runs the checks of a scan.
pub mod Evidence
pub mod Registry
pub mod Gates
pub mod Executions
pub mod Evaluated
pub mod Gaps
pub mod Resolved
pub mod FirstError
