-- ===== src/Echo/Permission.antt =====
-- CreatePermission: `build_create_permission` and `parse_create_permission_response`.
pub mod Laws
use webrtc_doctor.Prelude.{ℕ, List, [], ◌∷◌, Result, ok, err, ◌>>=◌, map_err, ◌==◌, if◌then◌else◌}
use webrtc_doctor.Stun.AttrType
use webrtc_doctor.Stun.Types.{CodecError, Header, Attr, SocketAddr}
use webrtc_doctor.Stun.Header.{parse_header}
use webrtc_doctor.Stun.Attrs.{walk_attrs}
use webrtc_doctor.Stun.Address.{build_xor_address}
use webrtc_doctor.Stun.ErrorCode.{parse_error_code}
use webrtc_doctor.Turn.Method.{
  create_permission_request, create_permission_success, create_permission_error,
}
use webrtc_doctor.Turn.Message.{Digests, stun_header, append_attr, attach_message_integrity}

unfoldable pub build_create_permission {ε} :
    {E : Type ε}
    → Digests
    → List ℕ
    → List ℕ
    → List ℕ
    → List ℕ
    → List ℕ
    → SocketAddr
    → Result E (List ℕ × List ℕ)
build_create_permission digests txid username realm nonce key peer = do
  let msg = stun_header create_permission_request txid
  let peer_attr = build_xor_address peer txid
  let with_peer = append_attr msg AttrType.xor_peer_address peer_attr
  let with_user = append_attr with_peer AttrType.username username
  let with_realm = append_attr with_user AttrType.realm realm
  let with_nonce = append_attr with_realm AttrType.nonce nonce
  signed ← attach_message_integrity digests with_nonce key
  ok (txid, signed)

pub data CpOutcome : Type 0 where
  success : CpOutcome
  error : ℕ → List ℕ → CpOutcome

pub data CpError : Type 0 where
  codec : CodecError → CpError
  wrong_type : ℕ → CpError
  missing_error_code : CpError

module _ (lossy : List ℕ → List ℕ) where
  -- The loop over the attributes, which returns at the first ERROR-CODE.
  unfoldable pub first_error_code : List Attr → Result CpError CpOutcome
  first_error_code [] = err missing_error_code
  first_error_code (a ∷ as') =
      let rest = first_error_code as' in
      if a.attr_type == AttrType.error_code
      then (do ec ← map_err codec (parse_error_code lossy a.value); ok (error ec.code ec.reason))
      else rest

  unfoldable pub parse_create_permission_response : List ℕ → List ℕ → Result CpError CpOutcome
  parse_create_permission_response buf txid = do
    header ← map_err codec (parse_header buf txid)
    if header.msg_type == create_permission_success
        then ok success
        else if header.msg_type == create_permission_error
        then (do attrs ← map_err codec (walk_attrs buf header.attrs_len); first_error_code attrs)
        else err (wrong_type header.msg_type)
