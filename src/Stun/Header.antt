-- ===== src/Stun/Header.antt =====
-- `parse_header` and `new_txid` of stun_codec.rs.
pub mod Laws
use webrtc_doctor.Prelude.{
  ℕ, ◌+◌, ◌/◌, ◌%◌, ◌^◌, List, [], ◌∷◌, ◌++◌, Option, none, some, Result, ok, err, ◌>>=◌, length,
  ltb, ◌==◌, not, bytes_eq, if◌then◌else◌,
}
use webrtc_doctor.Bytes.{be32, u16_at, u32_at, slice}
use webrtc_doctor.Stun.Types.{
  CodecError, short, bad_cookie, tx_id_mismatch, truncated_attr, Header, magic_cookie,
}

unfoldable pub parse_header : List ℕ → List ℕ → Result CodecError Header
parse_header buf expected_txid = if ltb (length buf) 20 then err (short (length buf)) else do
  msg_type ← u16_at buf 0
  attrs_len ← u16_at buf 2
  cookie ← u32_at buf 4
  if not (cookie == magic_cookie) then err (bad_cookie cookie) else do
    txid ← slice buf 8 20
    if not (bytes_eq txid expected_txid)
        then err tx_id_mismatch
        else if ltb (length buf) (20 + attrs_len)
        then err truncated_attr
        else ok (record { msg_type = msg_type; attrs_len = attrs_len; txid = txid })

-- `u64::to_be_bytes`
abbrev be64 : ℕ → List ℕ
be64 n = be32 (n / 2 ^ 32 % 2 ^ 32) ++ be32 (n % 2 ^ 32)

-- `nanos` is the time since the epoch, `none` when the clock stands before it; `stack_addr` is the
-- address of the local array.
unfoldable pub new_txid : Option ℕ → ℕ → List ℕ
new_txid nanos stack_addr =
    be64 (elim nanos [ none ↦ 0 | some n ↦ n % 2 ^ 64 ]) ++ be32 (stack_addr % 2 ^ 32)
