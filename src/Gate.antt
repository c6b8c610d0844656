-- ===== src/Gate.antt =====
-- internal/gate: the CI decision on a comparison.
pub mod Evaluate
pub mod Decisions
pub mod Unchanged
