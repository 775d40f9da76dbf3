-- ===== src/Stun/Address.antt =====
-- The address attributes of stun_codec.rs: `parse_xor_address`, `build_xor_address`,
-- `parse_mapped_address`.
pub mod Laws
use webrtc_doctor.Prelude.{
  ℕ, ◌+◌, List, [], ◌∷◌, ◌++◌, Result, ok, err, ◌>>=◌, length, ltb, ◌==◌, if◌then◌else◌, bit_xor,
}
use webrtc_doctor.Bytes.{be16, be32, index, u16_at, u32_at, slice, xor_bytes}
use webrtc_doctor.Stun.Types.{
  CodecError, truncated_attr, bad_family, magic_cookie, cookie_high, IpAddr, v4, v6, SocketAddr,
}

-- The v6 mask: the cookie, then the transaction id.
abbrev pub mask : List ℕ → List ℕ
mask txid = be32 magic_cookie ++ txid

unfoldable pub parse_xor_address : List ℕ → List ℕ → Result CodecError SocketAddr
parse_xor_address value txid = if ltb (length value) 4 then err truncated_attr else do
  family ← index value 1
  xport ← u16_at value 2
  let port = bit_xor xport cookie_high
  if family == 0x01
      then (if ltb (length value) 8 then err truncated_attr else do
        xaddr ← u32_at value 4
        ok (record { ip = v4 (bit_xor xaddr magic_cookie); port = port }))
      else if family == 0x02
      then (if ltb (length value) 20 then err truncated_attr else do
        body ← slice value 4 20
        ok (record { ip = v6 (xor_bytes body (mask txid)); port = port }))
      else err (bad_family family)

build_address : IpAddr → List ℕ → List ℕ → List ℕ
build_address (v4 raw) xport txid = (0x01 ∷ []) ++ xport ++ be32 (bit_xor raw magic_cookie)
build_address (v6 raw) xport txid = (0x02 ∷ []) ++ xport ++ xor_bytes raw (mask txid)

unfoldable pub build_xor_address : SocketAddr → List ℕ → List ℕ
unfolding build_address
build_xor_address addr txid = 0 ∷ build_address addr.ip (be16 (bit_xor addr.port cookie_high)) txid

unfoldable pub parse_mapped_address : List ℕ → Result CodecError SocketAddr
parse_mapped_address value = if ltb (length value) 4 then err truncated_attr else do
  family ← index value 1
  port ← u16_at value 2
  if family == 0x01
      then (if ltb (length value) 8
          then err truncated_attr
          else do addr ← u32_at value 4; ok (record { ip = v4 addr; port = port }))
      else if family == 0x02
      then (if ltb (length value) 20
          then err truncated_attr
          else do addr ← slice value 4 20; ok (record { ip = v6 addr; port = port }))
      else err (bad_family family)
