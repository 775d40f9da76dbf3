-- ===== src/Command.antt =====
-- The command line of crates/webrtc-doctor: targets, secrets, the subcommands and `full`.
pub mod Split
pub mod Number
pub mod Target
pub mod HostPort
pub mod Total
pub mod Program
pub mod Secret
pub mod Services
pub mod Pipelines
pub mod Single
pub mod Full
pub mod Main
pub mod Render
