-- ===== src/Turn/Message.antt =====
-- The message-building primitives of turn_codec.rs. A `&mut Vec<u8>` is a buffer in and a buffer out.
pub mod Laws
use webrtc_doctor.Prelude.{
  ℕ, ◌+◌, ◌-◌, ◌/◌, ◌%◌, ◌≡◌, List, [], ◌∷◌, ◌++◌, Result, ok, panic, length, set, replicate, ltb,
  if◌then◌else◌,
}
use webrtc_doctor.Bytes.{IsBytes, be16, be32, as_u16}
use webrtc_doctor.Stun.AttrType
use webrtc_doctor.Stun.Types.{magic_cookie}
use webrtc_doctor.Stun.Attrs.{padding}

-- The digest crates, with the sizes that their types guarantee.
pub record Digests : Type 0 where
  -- of the key, then of the message
  pub hmac_sha1 : List ℕ → List ℕ → List ℕ
  pub md5 : List ℕ → List ℕ
  pub length-hmac_sha1 : (key msg : List ℕ) → length (hmac_sha1 key msg) ≡ 20
  pub length-md5 : (msg : List ℕ) → length (md5 msg) ≡ 16

unfoldable pub stun_header : ℕ → List ℕ → List ℕ
stun_header method txid = be16 method ++ be16 0 ++ be32 magic_cookie ++ txid

unfoldable pub append_attr : List ℕ → ℕ → List ℕ → List ℕ
append_attr msg attr_type value =
    msg
    ++ be16 attr_type
    ++ be16 (as_u16 (length value))
    ++ value
    ++ replicate (padding (length value)) 0

-- `msg[2..4].copy_from_slice(&n.to_be_bytes())`
abbrev pub put_length : List ℕ → ℕ → List ℕ
put_length msg n = set (set msg 2 (n / 256 % 256)) 3 (n % 256)

-- On fewer than 20 bytes `msg.len() - 20` underflows.
unfoldable pub set_attrs_length {ε} : {E : Type ε} → List ℕ → Result E (List ℕ)
set_attrs_length msg =
    if ltb (length msg) 20 then panic else ok (put_length msg (as_u16 (length msg - 20)))

module _ (digests : Digests) where
  unfoldable pub attach_message_integrity {ε} : {E : Type ε} → List ℕ → List ℕ → Result E (List ℕ)
  attach_message_integrity msg key =
      if ltb (length msg) 20
      then panic
      else (let sized = put_length msg (as_u16 (length msg - 20 + 24)) in
          let digest = digests.hmac_sha1 key sized in
          ok (sized ++ be16 AttrType.message_integrity ++ be16 20 ++ digest))

  unfoldable pub long_term_key : List ℕ → List ℕ → List ℕ → List ℕ
  long_term_key username realm password =
      digests.md5 (username ++ b':' ∷ [] ++ realm ++ b':' ∷ [] ++ password)
