-- ===== src/Versions.antt =====
-- Kubernetes versions as internal/findings/report.go and internal/plan/version.go read, compare and
-- print them, with the parts of Go's strconv and strings packages that they call.
pub mod Decimal
pub mod Parse
pub mod Order
pub mod Hops
pub mod Path
