-- ===== src/Checks.antt =====
-- The checks of crates/probe-core/src/checks.
pub mod Common
pub mod Dns
pub mod Stun
pub mod TurnAlloc
pub mod IceGather
pub mod TurnEcho
pub mod Framing
pub mod Tls
pub mod TurnsAlloc
pub mod Signaling
pub mod Dtls
pub mod Runs
