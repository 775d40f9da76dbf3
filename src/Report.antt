-- ===== src/Report.antt =====
-- Outcomes of checks and their aggregation: crates/probe-core/src/result.rs, and `Verdict` and
-- `Report` of crates/probe-core/src/pipeline.rs.
pub mod Json
pub mod Status
pub mod CheckResult
pub mod Verdict
