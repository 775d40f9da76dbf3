-- ===== src/Echo.antt =====
-- The TURN echo check, crates/probe-core/src/checks/turn_echo.rs: its messages, its payloads, its
-- statistics and the loop that collects the echoes.
pub mod Permission
pub mod Indication
pub mod Payload
pub mod Collect
