-- ===== src/Rollback/Families.antt =====
-- internal/rollback/operational.go: the nine checks of a findings report.
pub mod Disruption
pub mod Inventories
pub mod Compatibility
pub mod Valid
pub mod InventoriesValid
pub mod Gates
