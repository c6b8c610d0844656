-- ===== src/Plan.antt =====
-- internal/plan: the upgrade plan over several hops and its checklist.
pub mod Classify
pub mod Templates
pub mod Action
pub mod Phases
pub mod Build
