-- ===== src/Coverage.antt =====
-- internal/report/evaluation_coverage.go: how completely the rules of a report were evaluated, as
-- the terminal, Markdown and HTML renderers and the gate read it.
pub mod Status
pub mod Rows
pub mod Laws
pub mod Advice
pub mod Outcomes
