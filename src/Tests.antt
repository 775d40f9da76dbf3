-- ===== src/Tests.antt =====
-- The theorems at concrete inputs.
pub mod Inputs
pub mod Codec
pub mod Relay
pub mod Runs
pub mod Services
pub mod Links
pub mod Commands
