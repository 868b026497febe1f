-- ===== src/Rego.antt =====
-- regoservice and formatting/eval.go: the criteria of a route and the templates.
pub mod Criteria
pub mod Eval
pub mod Build
pub mod JsonFormat
pub mod Service
mod Tests
