-- ===== src/Tests/Inputs.antt =====
-- The inputs of the tests: an id, addresses, digests, a platform and its world.
use webrtc_doctor.Prelude.{ℕ, refl, arith, inl, inr, ◌++◌, List, [], ◌∷◌, none, some, replicate}
use webrtc_doctor.Prelude.Text.{Text, text}
use webrtc_doctor.Stun.AttrType
use webrtc_doctor.Stun.Types.{IpAddr, v4, v6, SocketAddr, IsTxid, IsSocketAddr}
use webrtc_doctor.Stun.Header.{new_txid}
use webrtc_doctor.Stun.Address.{build_xor_address}
use webrtc_doctor.Bytes.{be32}
use webrtc_doctor.Turn.Method.{allocate_success, allocate_error, create_permission_success}
use webrtc_doctor.Turn.Message.{Digests}
use webrtc_doctor.Turn.Message.Laws.{attr, message}
use webrtc_doctor.Binding.{binding_success}
use webrtc_doctor.Echo.Indication.{data_indication}
use webrtc_doctor.Echo.Payload.{make_payload}
use webrtc_doctor.Echo.Collect.{Round, packet, elapsed}
use webrtc_doctor.Probe.Context.{ProbeContext}
use webrtc_doctor.Probe.Platform.{Platform, given, Received, datagram}

abbrev pub id_bytes : List ℕ
id_bytes = 1 ∷ 2 ∷ 3 ∷ 4 ∷ 5 ∷ 6 ∷ 7 ∷ 8 ∷ 9 ∷ 10 ∷ 11 ∷ 12 ∷ []

pub id_bytes-IsTxid : IsTxid id_bytes
id_bytes-IsTxid = (refl, ground arith)

-- 192.0.2.1:1234
abbrev pub client : SocketAddr
client = record { ip = v4 0xC0000201; port = 1234 }

pub client-IsSocketAddr : IsSocketAddr client
client-IsSocketAddr = ground arith

-- 2001:db8::1, port 3478
abbrev pub relay : SocketAddr
relay = record {
  ip = v6 (0x20 ∷ 0x01 ∷ 0x0d ∷ 0xb8 ∷ 0 ∷ 0 ∷ 0 ∷ 0 ∷ 0 ∷ 0 ∷ 0 ∷ 0 ∷ 0 ∷ 0 ∷ 0 ∷ 1 ∷ []);
  port = 3478;
}

pub relay-IsSocketAddr : IsSocketAddr relay
relay-IsSocketAddr = ground arith

abbrev pub zero_digests : Digests
zero_digests = record {
  hmac_sha1 = λ key msg. replicate 20 0;
  md5 = λ msg. replicate 16 0;
  length-hmac_sha1 = λ key msg. refl;
  length-md5 = λ msg. refl;
}

abbrev pub same_bytes : List ℕ → Text
same_bytes b = b

abbrev pub interfaces : List (Text × IpAddr)
interfaces = (text "eth0", v4 0xC0A8012A) ∷ (text "lo", v4 0x7F000001) ∷ []

-- Both packets come back, the second before the first.
abbrev pub echoes : List Round
echoes =
    record {
      now = 1;
      event =
          packet (message data_indication id_bytes (attr AttrType.data_attr (make_payload 1) ∷ []))
            relay 3;
    }
    ∷ record {
      now = 4;
      event =
          packet (message data_indication id_bytes (attr AttrType.data_attr (make_payload 0) ∷ []))
            relay 5;
    }
    ∷ []

-- A world is what the network will deliver: one address, and the datagrams still to come.
abbrev pub pop : List Received → Received × List Received
pop [] = (Received.elapsed, [])
pop (r ∷ rs) = (r, rs)

abbrev pub test_platform : Platform
test_platform = record {
  World = List Received;
  Socket = ℕ;
  now = λ w. (0, w);
  since_epoch = λ w. (some 5, w);
  stack_addr = λ w. (7, w);
  lookup_host = λ host w. (given (client ∷ client ∷ relay ∷ []), w);
  bind = λ addr w. (given 3, w);
  send_to = λ sock bytes addr w. (given tt, w);
  recv_from = λ sock size time w. pop w;
  sleep = λ time w. (tt, w);
  rounds = λ sock deadline w. (echoes ++ record { now = deadline; event = elapsed } ∷ [], w);
  rounds-Due = λ sock deadline w. inr (inr (inl (omega arith)));
  get_if_addrs = λ w. (given interfaces, w);
  digests = zero_digests;
  lossy = same_bytes;
  show_ip = λ ip. [];
  show_addr = λ addr. text "192.0.2.1:1234";
  parse_addr = λ t. some client;
  show_duration = λ d. [];
  show_rounded = λ n d. [];
  show_binding_error = λ e. [];
  show_allocate_error = λ e. [];
  show_cp_error = λ e. [];
}

-- The id that every message of the platform has.
abbrev pub platform_id : List ℕ
platform_id = new_txid (some 5) 7

abbrev pub challenge : List ℕ
challenge = message allocate_error platform_id (
    attr AttrType.error_code (0 ∷ 0 ∷ 4 ∷ 1 ∷ [])
    ∷ attr AttrType.realm (text "example.org")
    ∷ attr AttrType.nonce (9 ∷ 8 ∷ 7 ∷ [])
    ∷ [])

abbrev pub grant : List ℕ
grant = message allocate_success platform_id (
    attr AttrType.xor_relayed_address (build_xor_address relay platform_id)
    ∷ attr AttrType.lifetime (be32 600)
    ∷ [])

abbrev pub mapping : List ℕ
mapping =
    message binding_success platform_id
      (attr AttrType.xor_mapped_address (build_xor_address client platform_id) ∷ [])

abbrev pub permission : List Received
permission = datagram (message create_permission_success platform_id []) relay ∷ []

abbrev pub deliveries : List Received
deliveries = datagram mapping relay ∷ datagram challenge relay ∷ datagram grant relay ∷ permission

abbrev pub test_context : ProbeContext ℕ
test_context = record {
  default_timeout = 5000000000;
  host = some (text "turn.example.org");
  port = some 3478;
  resolved_ips = client.ip ∷ [];
  turn_user = some (text "user");
  turn_pass = some (text "pass");
  echo_count = 2;
  turn_session = none;
  scratch = [];
}

abbrev pub session_context : ProbeContext ℕ
session_context = record test_context {
  turn_session = some (record {
    socket = 3;
    server = relay;
    relayed = relay;
    realm = text "example.org";
    nonce = 9 ∷ 8 ∷ 7 ∷ [];
    key = replicate 16 0;
    username = text "user";
  });
  scratch = (text "srflx", text "192.0.2.1:1234") ∷ [];
}
