-- ===== src/Comparison.antt =====
-- internal/comparison: the difference of two findings documents.
pub mod Model
pub mod Sort
pub mod Diff
pub mod Compare
pub mod Order
pub mod Normalize
