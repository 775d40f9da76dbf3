-- ===== src/Stun/AttrType.antt =====
-- The attribute types, `attr` of stun_codec.rs.
use webrtc_doctor.Prelude.{ℕ}

abbrev pub mapped_address : ℕ
mapped_address = 0x0001

abbrev pub username : ℕ
username = 0x0006

abbrev pub message_integrity : ℕ
message_integrity = 0x0008

abbrev pub error_code : ℕ
error_code = 0x0009

abbrev pub realm : ℕ
realm = 0x0014

abbrev pub nonce : ℕ
nonce = 0x0015

abbrev pub xor_peer_address : ℕ
xor_peer_address = 0x0012

-- `attr::DATA`; the word is reserved here.
abbrev pub data_attr : ℕ
data_attr = 0x0013

abbrev pub xor_mapped_address : ℕ
xor_mapped_address = 0x0020

abbrev pub xor_relayed_address : ℕ
xor_relayed_address = 0x0016

abbrev pub requested_transport : ℕ
requested_transport = 0x0019

abbrev pub lifetime : ℕ
lifetime = 0x000D
