-- ===== src/Tests/Codec.antt =====
-- The STUN codec, the binding request and the Allocate messages at concrete inputs.
use webrtc_doctor.Prelude.{some, ℕ, ◌+◌, ◌*◌, ◌%◌, ◌≡◌, ◌<◌, refl, arith, List, [], ◌∷◌, ◌++◌, ok}
use webrtc_doctor.Bytes.{be32}
use webrtc_doctor.Stun.AttrType
use webrtc_doctor.Stun.Types.{CodecError, Attr}
use webrtc_doctor.Stun.Header.Laws.{
  Describes, header_bytes, parse_header-header_bytes, parse_header-Describes,
}
use webrtc_doctor.Stun.Attrs.Laws.{tlv, tlvs}
use webrtc_doctor.Stun.Address.{parse_xor_address, build_xor_address}
use webrtc_doctor.Stun.Address.Laws.{parse_xor_address-build_xor_address}
use webrtc_doctor.Stun.ErrorCode.{parse_error_code}
use webrtc_doctor.Stun.ErrorCode.Laws.{parse_error_code-code}
use webrtc_doctor.Binding.{
  binding_request, binding_success, build_binding_request, parse_binding_response,
}
use webrtc_doctor.Binding.Laws.{
  BackedAddress, parse_binding_response-BackedAddress, parse_binding_response-written,
  build_binding_request-Carries,
}
use webrtc_doctor.Turn.Method.{allocate_request, allocate_success, allocate_error}
use webrtc_doctor.Turn.Message.Laws.{attr, message}
use webrtc_doctor.Turn.Allocate.{
  build_allocate_unauth, build_allocate_authed, parse_allocate_response, success,
}
use webrtc_doctor.Turn.Allocate.Requests.{
  transport, Carries, credentials, authenticated, build_allocate_unauth-Carries,
  build_allocate_authed-Carries,
}
use webrtc_doctor.Turn.Allocate.Responses.{
  BackedAllocation, parse_allocate_response-BackedAllocation,
}
use webrtc_doctor.Turn.Allocate.Written.{
  Reports, coded, parse_allocate_response-refused, parse_allocate_response-granted,
}
use webrtc_doctor.Tests.Inputs.{
  id_bytes, id_bytes-IsTxid, client, client-IsSocketAddr, relay, relay-IsSocketAddr, zero_digests,
  same_bytes,
}

parse_header-Describes_example :
    Describes
      (header_bytes 0x0101 0 id_bytes ++ [])
      id_bytes
      (record { msg_type = 0x0101; attrs_len = 0; txid = id_bytes })
parse_header-Describes_example =
    parse_header-Describes (header_bytes 0x0101 0 id_bytes ++ []) id_bytes
      (record { msg_type = 0x0101; attrs_len = 0; txid = id_bytes })
      (parse_header-header_bytes 0x0101 0 id_bytes [] (omega arith) (omega arith) refl
        (omega arith))

abbrev two_attrs : List Attr
two_attrs = attr 0x8022 (1 ∷ 2 ∷ 3 ∷ []) ∷ attr 0x0006 (4 ∷ []) ∷ []

parse_xor_address-build_xor_address_example :
    parse_xor_address (build_xor_address relay id_bytes) id_bytes ≡ ok relay
parse_xor_address-build_xor_address_example =
    parse_xor_address-build_xor_address relay id_bytes relay-IsSocketAddr id_bytes-IsTxid

parse_error_code-code_example :
    (parse_error_code same_bytes (0 ∷ 0 ∷ 12 ∷ 38 ∷ b'x' ∷ [])
      ≡ ok (record { code = 12 % 8 * 100 + 38; reason = b'x' ∷ [] }))
    × (12 % 8 * 100 + 38 < 65536)
parse_error_code-code_example =
    parse_error_code-code same_bytes 0 0 12 38 (b'x' ∷ []) (omega arith) (omega arith)

build_binding_request-Carries_example :
    (build_binding_request id_bytes ≡ (id_bytes, message binding_request id_bytes []))
    × Carries (message binding_request id_bytes []) binding_request id_bytes []
build_binding_request-Carries_example = build_binding_request-Carries id_bytes refl

abbrev software : List Attr
software = attr 0x8022 (b'a' ∷ []) ∷ []

abbrev mapped : Attr
mapped = attr AttrType.xor_mapped_address (build_xor_address client id_bytes)

parse_binding_response-written_example :
    parse_binding_response (message binding_success id_bytes (software ++ mapped ∷ [])) id_bytes
    ≡ ok client
unfolding build_xor_address tlvs tlv
parse_binding_response-written_example =
    parse_binding_response-written id_bytes client software [] id_bytes-IsTxid client-IsSocketAddr
      (ground arith) (ground arith) (omega arith)

parse_binding_response-BackedAddress_example :
    BackedAddress (message binding_success id_bytes (software ++ mapped ∷ [])) id_bytes client
unfolding build_xor_address tlvs tlv
parse_binding_response-BackedAddress_example =
    parse_binding_response-BackedAddress
      (message binding_success id_bytes (software ++ mapped ∷ [])) id_bytes client
      (parse_binding_response-written id_bytes client software [] id_bytes-IsTxid
        client-IsSocketAddr (ground arith) (ground arith) (omega arith))

build_allocate_unauth-Carries_example :
    (build_allocate_unauth {E = CodecError} id_bytes
      ≡ ok (id_bytes, message allocate_request id_bytes (transport ∷ [])))
    × Carries
        (message allocate_request id_bytes (transport ∷ []))
        allocate_request
        id_bytes
        (transport ∷ [])
build_allocate_unauth-Carries_example = build_allocate_unauth-Carries id_bytes refl

abbrev login : List Attr
login =
    authenticated zero_digests (5 ∷ []) allocate_request id_bytes
      (credentials transport (b'u' ∷ []) (b'r' ∷ []) (b'n' ∷ b'o' ∷ []))

build_allocate_authed-Carries_example :
    (build_allocate_authed {E = CodecError} zero_digests id_bytes
        (b'u' ∷ [])
        (b'r' ∷ [])
        (b'n' ∷ b'o' ∷ [])
        (5 ∷ [])
      ≡ ok (id_bytes, message allocate_request id_bytes login))
    × Carries (message allocate_request id_bytes login) allocate_request id_bytes login
build_allocate_authed-Carries_example =
    build_allocate_authed-Carries zero_digests id_bytes (b'u' ∷ []) (b'r' ∷ []) (b'n' ∷ b'o' ∷ [])
      (5 ∷ []) refl (omega arith)

abbrev granted_bytes : List ℕ
granted_bytes = message allocate_success id_bytes (
    attr AttrType.xor_relayed_address (build_xor_address relay id_bytes)
    ∷ attr AttrType.lifetime (be32 600)
    ∷ [])

parse_allocate_response-granted_example :
    parse_allocate_response same_bytes granted_bytes id_bytes ≡ ok (success relay 600)
parse_allocate_response-granted_example =
    parse_allocate_response-granted same_bytes id_bytes relay 600 id_bytes-IsTxid relay-IsSocketAddr
      (omega arith)

parse_allocate_response-BackedAllocation_example : BackedAllocation granted_bytes id_bytes relay
parse_allocate_response-BackedAllocation_example =
    parse_allocate_response-BackedAllocation same_bytes granted_bytes id_bytes relay 600 (
      parse_allocate_response-granted same_bytes id_bytes relay 600 id_bytes-IsTxid
        relay-IsSocketAddr (omega arith))

-- A SOFTWARE before the ERROR-CODE, a REALM and a NONCE after it.
abbrev before_code : List Attr
before_code = attr 0x8022 (b's' ∷ []) ∷ []

abbrev after_code : List Attr
after_code = attr AttrType.realm (b'r' ∷ b'.' ∷ []) ∷ attr AttrType.nonce (7 ∷ 200 ∷ []) ∷ []

-- 438 Stale Nonce
parse_allocate_response-refused_example :
    Reports same_bytes (4 * 100 + 38) (b'U' ∷ []) (some (b'r' ∷ b'.' ∷ [])) (some (7 ∷ 200 ∷ [])) (
      parse_allocate_response same_bytes
        (message allocate_error id_bytes
          (before_code ++ coded same_bytes 4 38 (b'U' ∷ []) ∷ after_code))
        id_bytes)
unfolding tlvs tlv
parse_allocate_response-refused_example =
    parse_allocate_response-refused same_bytes id_bytes (b'U' ∷ []) 4 38 before_code after_code refl
      (omega arith) (omega arith) (ground arith) (ground arith) (omega arith) (omega arith)
