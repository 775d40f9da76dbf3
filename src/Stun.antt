-- ===== src/Stun.antt =====
-- The STUN wire format of crates/probe-core/src/stun_codec.rs (RFC 5389): the header, the attribute
-- section, the address attributes and ERROR-CODE. The children hold the definitions; the proofs
-- stand below them.
pub mod AttrType
pub mod Types
pub mod Header
pub mod Attrs
pub mod Address
pub mod ErrorCode
pub mod Sections
