-- ===== src/Tests/Relay.antt =====
-- The messages, payloads, statistics and the loop of the echo check at concrete inputs.
use webrtc_doctor.Prelude.{
  ℕ, ◌++◌, bytes_eq, ◌+◌, ◌*◌, ◌≡◌, ◌↔◌, refl, arith, List, [], ◌∷◌, none, some, ok, Returns,
  replicate,
}
use webrtc_doctor.Stun.AttrType
use webrtc_doctor.Prelude.Text.{text, utf8}
use webrtc_doctor.Bytes.{index, slice, u16_at, u32_at}
use webrtc_doctor.Stun.Types.{CodecError, Attr}
use webrtc_doctor.Stun.Attrs.Laws.{tlv, tlvs}
use webrtc_doctor.Turn.Method.{
  create_permission_request, create_permission_success, create_permission_error,
}
use webrtc_doctor.Turn.Message.Laws.{attr, message}
use webrtc_doctor.Turn.Allocate.Requests.{Carries, credentials, authenticated}
use webrtc_doctor.Echo.Permission.{
  build_create_permission, parse_create_permission_response, success, error,
}
use webrtc_doctor.Echo.Permission.Laws.{
  peer_address, build_create_permission-Carries, parse_create_permission_response-written,
}
use webrtc_doctor.Echo.Indication.{data_indication, data_from, parse_data_indication}
use webrtc_doctor.Echo.Indication.Laws.{
  first_data, parse_data_indication-Returns, parse_data_indication-message,
}
use webrtc_doctor.Echo.Payload.{echo_prefix, from_le32, make_payload, parse_seq, stats}
use webrtc_doctor.Echo.Payload.Laws.{parse_seq_iff, Summary, stats-Summary}
use webrtc_doctor.Echo.Collect.{
  Due, Echoes, record_echo, on_data, on_packet, Round, packet, elapsed, collect,
}
use webrtc_doctor.Echo.Collect.Heard.{Heard, collect-Heard}
use webrtc_doctor.Echo.Collect.Laws.{Keeps, collect-Keeps, start-Consistent}
use webrtc_doctor.Tests.Inputs.{
  id_bytes, id_bytes-IsTxid, client, client-IsSocketAddr, relay, zero_digests, same_bytes,
}

abbrev permission : List Attr
permission =
    authenticated zero_digests (5 ∷ []) create_permission_request id_bytes
      (credentials (peer_address client id_bytes) (b'u' ∷ []) (b'r' ∷ []) (b'n' ∷ []))

build_create_permission-Carries_example :
    (build_create_permission {E = CodecError} zero_digests id_bytes
        (b'u' ∷ [])
        (b'r' ∷ [])
        (b'n' ∷ [])
        (5 ∷ [])
        client
      ≡ ok (id_bytes, message create_permission_request id_bytes permission))
    × Carries
        (message create_permission_request id_bytes permission)
        create_permission_request
        id_bytes
        permission
build_create_permission-Carries_example =
    build_create_permission-Carries zero_digests id_bytes (b'u' ∷ []) (b'r' ∷ []) (b'n' ∷ [])
      (5 ∷ []) client id_bytes-IsTxid client-IsSocketAddr (omega arith)

-- SOFTWARE
abbrev software : List Attr
software = attr 0x8022 (b's' ∷ []) ∷ []

parse_create_permission_response-written_example :
    (parse_create_permission_response same_bytes
        (message create_permission_success id_bytes [])
        id_bytes
      ≡ ok success)
    × (parse_create_permission_response same_bytes
          (message create_permission_error id_bytes
            (software ++ attr AttrType.error_code (0 ∷ 0 ∷ 4 ∷ 3 ∷ b'F' ∷ []) ∷ software))
          id_bytes
        ≡ ok (error (4 * 100 + 3) (b'F' ∷ [])))
unfolding tlvs tlv
parse_create_permission_response-written_example =
    parse_create_permission_response-written same_bytes id_bytes (b'F' ∷ []) 4 3 [] software
      software refl (omega arith) (omega arith) (omega arith) tt (omega arith) (omega arith)
      (ground arith)

abbrev delivered : List Attr
delivered =
    attr AttrType.xor_peer_address (1 ∷ 2 ∷ []) ∷ attr AttrType.data_attr (7 ∷ 8 ∷ 9 ∷ []) ∷ []

parse_data_indication-Returns_example : Returns (parse_data_indication (0 ∷ 0x17 ∷ 0 ∷ []))
parse_data_indication-Returns_example = parse_data_indication-Returns (0 ∷ 0x17 ∷ 0 ∷ [])

parse_data_indication-message_example :
    parse_data_indication (message data_indication id_bytes delivered) ≡ ok (first_data delivered)
unfolding tlvs tlv
parse_data_indication-message_example =
    parse_data_indication-message id_bytes delivered refl (omega arith) (omega arith)

parse_seq_iff_example :
    (parse_seq (make_payload 258) ≡ some 258) ↔ (make_payload 258 ≡ make_payload 258)
unfolding make_payload echo_prefix text utf8
parse_seq_iff_example = parse_seq_iff (make_payload 258) 258 (ground arith) (omega arith)

stats-Summary_example : Summary (20 ∷ 10 ∷ 33 ∷ []) (stats (20 ∷ 10 ∷ 33 ∷ []))
stats-Summary_example = stats-Summary 20 (10 ∷ 33 ∷ []) (omega arith)

abbrev echo_rounds : List Round
echo_rounds =
    record {
      now = 1;
      event =
          packet (message data_indication id_bytes (attr AttrType.data_attr (make_payload 1) ∷ []))
            relay 3;
    }
    ∷ record { now = 4; event = packet (0 ∷ []) client 5 }
    ∷ record { now = 100; event = elapsed }
    ∷ []

collect-Keeps_example : Keeps 2 (Due 100 echo_rounds) (
    collect relay
      (some 0 ∷ some 1 ∷ [])
      2
      100
      echo_rounds
      (record { rtts = replicate 2 none; received = 0; duplicates = 0 }))
collect-Keeps_example =
    collect-Keeps relay (some 0 ∷ some 1 ∷ []) 2 refl 100 echo_rounds
      (record { rtts = replicate 2 none; received = 0; duplicates = 0 }) (start-Consistent 2)

abbrev indication : List ℕ
indication =
    0
    ∷ 0x17
    ∷ 0
    ∷ 32
    ∷ 0x21
    ∷ 0x12
    ∷ 0xA4
    ∷ 0x42
    ∷ (id_bytes ++ (0 ∷ 0x13 ∷ 0 ∷ 28 ∷ make_payload 1))

abbrev heard_rounds : List Round
heard_rounds =
    record { now = 1; event = packet indication relay 3 } ∷ record { now = 3; event = elapsed } ∷ []

abbrev heard_echoes : Echoes
heard_echoes = record { rtts = none ∷ some 2 ∷ []; received = 1; duplicates = 0 }

collect_run :
    collect relay
      (some 0 ∷ some 1 ∷ [])
      2
      100
      heard_rounds
      (record { rtts = replicate 2 none; received = 0; duplicates = 0 })
    ≡ ok heard_echoes
unfolding collect on_packet on_data record_echo parse_data_indication data_from u16_at u32_at index
    slice parse_seq from_le32 make_payload echo_prefix text utf8 bytes_eq
collect_run = refl

collect-Heard_example : Heard relay heard_rounds 1
collect-Heard_example =
    collect-Heard relay (some 0 ∷ some 1 ∷ []) 2 100 heard_rounds heard_echoes 1 2 collect_run refl
