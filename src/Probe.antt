-- ===== src/Probe.antt =====
-- What a check runs on: `ProbeContext` of crates/probe-core/src/check.rs, the platform below it, the
-- monad of a check's body, and what runs under a timeout.
pub mod Context
pub mod Platform
pub mod Body
pub mod Timed
