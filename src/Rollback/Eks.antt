-- ===== src/Rollback/Eks.antt =====
-- internal/rollback/eks: the assessment of an EKS cluster from what AWS reports of it.
pub mod Snapshot
pub mod History
pub mod Latest
pub mod Target
pub mod Checklist
pub mod Eligibility
pub mod Insights
pub mod Pipeline
