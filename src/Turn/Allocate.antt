-- ===== src/Turn/Allocate.antt =====
-- The Allocate request builders and the response parser of turn_codec.rs.
pub mod Requests
pub mod Responses
pub mod Written
pub mod Total
use webrtc_doctor.Prelude.{
  ℕ, List, [], ◌∷◌, Option, none, some, Result, ok, err, ◌>>=◌, map_err, ok_or, length, leb, ◌==◌,
  ◌&&◌, if◌then◌else◌,
}
use webrtc_doctor.Bytes.{be32, u32_at}
use webrtc_doctor.Stun.AttrType
use webrtc_doctor.Stun.Types.{CodecError, Header, Attr, SocketAddr}
use webrtc_doctor.Stun.Header.{parse_header}
use webrtc_doctor.Stun.Attrs.{walk_attrs}
use webrtc_doctor.Stun.Address.{parse_xor_address}
use webrtc_doctor.Stun.ErrorCode.{ErrorCode, parse_error_code}
use webrtc_doctor.Turn.Method.{allocate_request, allocate_success, allocate_error, transport_udp}
use webrtc_doctor.Turn.Message.{
  Digests, stun_header, append_attr, set_attrs_length, attach_message_integrity,
}

-- The builders return the id that `new_txid` gave, here `txid`, with the message.
unfoldable pub build_allocate_unauth {ε} : {E : Type ε} → List ℕ → Result E (List ℕ × List ℕ)
build_allocate_unauth txid = do
  let msg = stun_header allocate_request txid
  let with_transport = append_attr msg AttrType.requested_transport (be32 transport_udp)
  sized ← set_attrs_length with_transport
  ok (txid, sized)

unfoldable pub build_allocate_authed {ε} :
    {E : Type ε} → Digests → List ℕ → List ℕ → List ℕ → List ℕ → List ℕ → Result E (List ℕ × List ℕ)
build_allocate_authed digests txid username realm nonce key = do
  let msg = stun_header allocate_request txid
  let with_transport = append_attr msg AttrType.requested_transport (be32 transport_udp)
  let with_user = append_attr with_transport AttrType.username username
  let with_realm = append_attr with_user AttrType.realm realm
  let with_nonce = append_attr with_realm AttrType.nonce nonce
  signed ← attach_message_integrity digests with_nonce key
  ok (txid, signed)

pub data AllocateOutcome : Type 0 where
  success : SocketAddr → ℕ → AllocateOutcome
  unauthorized : List ℕ → List ℕ → AllocateOutcome
  error : ℕ → List ℕ → AllocateOutcome

-- The attribute that is missing, by its type.
pub data AllocateError : Type 0 where
  codec : CodecError → AllocateError
  wrong_type : ℕ → AllocateError
  missing_attr : ℕ → AllocateError

-- The variables of the loop over a success response.
pub record Granted : Type 0 where
  pub relayed : Option SocketAddr
  pub lifetime : ℕ

unfoldable pub success_attr : List ℕ → Attr → Granted → Result AllocateError Granted
success_attr txid a g =
    if a.attr_type == AttrType.xor_relayed_address
    then (do
      addr ← map_err codec (parse_xor_address a.value txid)
      ok (record g { relayed = some addr }))
    else if a.attr_type == AttrType.lifetime && leb 4 (length a.value)
    then (do seconds ← u32_at a.value 0; ok (record g { lifetime = seconds }))
    else ok g

unfoldable pub success_attrs : List ℕ → List Attr → Granted → Result AllocateError Granted
success_attrs txid [] g = ok g
success_attrs txid (a ∷ as') g = do next ← success_attr txid a g; success_attrs txid as' next

-- The variables of the loop over an error response.
pub record Refused : Type 0 where
  pub code : ℕ
  pub reason : List ℕ
  pub realm : Option (List ℕ)
  pub nonce : Option (List ℕ)

module _ (lossy : List ℕ → List ℕ) where
  unfoldable pub error_attr : Attr → Refused → Result AllocateError Refused
  error_attr a r =
      if a.attr_type == AttrType.error_code
      then (do
        ec ← map_err codec (parse_error_code lossy a.value)
        ok (record r { code = ec.code; reason = ec.reason }))
      else if a.attr_type == AttrType.realm
      then ok (record r { realm = some (lossy a.value) })
      else if a.attr_type == AttrType.nonce
      then ok (record r { nonce = some a.value })
      else ok r

  unfoldable pub error_attrs : List Attr → Refused → Result AllocateError Refused
  error_attrs [] r = ok r
  error_attrs (a ∷ as') r = do next ← error_attr a r; error_attrs as' next

  unfoldable pub granted_outcome : Granted → Result AllocateError AllocateOutcome
  granted_outcome g = do
    relayed ← ok_or g.relayed (missing_attr AttrType.xor_relayed_address)
    ok (success relayed g.lifetime)

  unfoldable pub refused_outcome : Refused → Result AllocateError AllocateOutcome
  refused_outcome r =
      if r.code == 401
      then (do
        realm ← ok_or r.realm (missing_attr AttrType.realm)
        nonce ← ok_or r.nonce (missing_attr AttrType.nonce)
        ok (unauthorized realm nonce))
      else ok (error r.code r.reason)

  -- The `match` on the message type.
  unfoldable pub response_outcome :
      List ℕ → Header → List Attr → Result AllocateError AllocateOutcome
  response_outcome txid header attrs =
      if header.msg_type == allocate_success
      then (do
        g ← success_attrs txid attrs (record { relayed = none; lifetime = 0 })
        granted_outcome g)
      else if header.msg_type == allocate_error
      then (do
        r ← error_attrs attrs (record { code = 0; reason = []; realm = none; nonce = none })
        refused_outcome r)
      else err (wrong_type header.msg_type)

  unfoldable pub parse_allocate_response : List ℕ → List ℕ → Result AllocateError AllocateOutcome
  parse_allocate_response buf txid = do
    header ← map_err codec (parse_header buf txid)
    attrs ← map_err codec (walk_attrs buf header.attrs_len)
    response_outcome txid header attrs
