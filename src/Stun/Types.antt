-- ===== src/Stun/Types.antt =====
-- The constants and the types of stun_codec.rs and of std::net that the codec passes on.
use webrtc_doctor.Prelude.{ℕ, ◌<◌, ◌^◌, ◌≡◌, List, length, Bool, false, ◌&&◌, ◌==◌, bytes_eq}
use webrtc_doctor.Bytes.{IsBytes}

abbrev pub magic_cookie : ℕ
magic_cookie = 0x2112_A442

-- `MAGIC_COOKIE >> 16`
abbrev pub cookie_high : ℕ
cookie_high = 0x2112

pub data CodecError : Type 0 where
  short : ℕ → CodecError
  bad_cookie : ℕ → CodecError
  tx_id_mismatch : CodecError
  truncated_attr : CodecError
  bad_family : ℕ → CodecError

pub record Header : Type 0 where
  pub msg_type : ℕ
  pub attrs_len : ℕ
  pub txid : List ℕ

pub record Attr : Type 0 where
  pub attr_type : ℕ
  pub value : List ℕ

-- `IpAddr`: a v4 address as `u32::from` gives it, a v6 address as its octets.
pub data IpAddr : Type 0 where
  v4 : ℕ → IpAddr
  v6 : List ℕ → IpAddr

pub record SocketAddr : Type 0 where
  pub ip : IpAddr
  pub port : ℕ

-- The ranges that the Rust types guarantee.
abbrev pub IsIp : IpAddr → Type 0
IsIp (v4 a) = a < 2 ^ 32
IsIp (v6 o) = (length o ≡ 16) × IsBytes o

abbrev pub IsSocketAddr : SocketAddr → Type 0
IsSocketAddr a = IsIp a.ip × (a.port < 2 ^ 16)

-- `[u8; 12]`
abbrev pub IsTxid : List ℕ → Type 0
IsTxid t = (length t ≡ 12) × IsBytes t

-- `==` on addresses.
abbrev pub ip_eq : IpAddr → IpAddr → Bool
ip_eq (v4 a) (v4 b) = a == b
ip_eq (v6 a) (v6 b) = bytes_eq a b
ip_eq (v4 a) (v6 b) = false
ip_eq (v6 a) (v4 b) = false

abbrev pub addr_eq : SocketAddr → SocketAddr → Bool
addr_eq a b = ip_eq a.ip b.ip && (a.port == b.port)
