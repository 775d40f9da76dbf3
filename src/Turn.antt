-- ===== src/Turn.antt =====
-- TURN messages, crates/probe-core/src/turn_codec.rs (RFC 5766): the builders of requests and the
-- parser of Allocate responses.
pub mod Method
pub mod Message
pub mod Allocate
