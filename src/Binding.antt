-- ===== src/Binding.antt =====
-- The Binding messages of crates/probe-core/src/checks/stun.rs: `build_binding_request` and
-- `parse_binding_response`.
pub mod Laws
use webrtc_doctor.Prelude.{
  ℕ, List, [], ◌∷◌, ◌++◌, Result, err, ◌>>=◌, map_err, ◌==◌, not, if◌then◌else◌,
}
use webrtc_doctor.Bytes.{be16, be32}
use webrtc_doctor.Stun.AttrType
use webrtc_doctor.Stun.Types.{CodecError, Header, Attr, SocketAddr, magic_cookie}
use webrtc_doctor.Stun.Header.{parse_header}
use webrtc_doctor.Stun.Attrs.{walk_attrs}
use webrtc_doctor.Stun.Address.{parse_xor_address, parse_mapped_address}

abbrev pub binding_request : ℕ
binding_request = 0x0001

abbrev pub binding_success : ℕ
binding_success = 0x0101

-- The id that `new_txid` gave, with the message.
unfoldable pub build_binding_request : List ℕ → List ℕ × List ℕ
build_binding_request txid = (txid, be16 binding_request ++ be16 0 ++ be32 magic_cookie ++ txid)

pub data BindingError : Type 0 where
  codec : CodecError → BindingError
  wrong_type : ℕ → BindingError
  no_mapped_address : BindingError

-- The loop over the attributes, which returns at the first address.
unfoldable pub first_address : List ℕ → List Attr → Result BindingError SocketAddr
first_address txid [] = err no_mapped_address
first_address txid (a ∷ as') =
    let rest = first_address txid as' in
    if a.attr_type == AttrType.xor_mapped_address
    then map_err codec (parse_xor_address a.value txid)
    else if a.attr_type == AttrType.mapped_address
    then map_err codec (parse_mapped_address a.value)
    else rest

unfoldable pub parse_binding_response : List ℕ → List ℕ → Result BindingError SocketAddr
parse_binding_response buf txid = do
  header ← map_err codec (parse_header buf txid)
  if not (header.msg_type == binding_success)
      then err (wrong_type header.msg_type)
      else do attrs ← map_err codec (walk_attrs buf header.attrs_len); first_address txid attrs
