-- ===== src/Tests/Services.antt =====
-- A TLS stream, a WebSocket and a DTLS peer for the tests, on the world of the test platform.
use webrtc_doctor.Prelude.{ℕ, true, refl, arith, List, [], ◌∷◌, ◌++◌, some, replicate}
use webrtc_doctor.Prelude.Text.{Text, text}
use webrtc_doctor.Probe.Platform.{given, Received, datagram}
use webrtc_doctor.Probe.Timed.{Timed, finished, broke, timed_out, Array}
use webrtc_doctor.Checks.Framing.Laws.{read_end, framed}
use webrtc_doctor.Checks.Tls.{Tls}
use webrtc_doctor.Checks.Signaling.{WebSockets}
use webrtc_doctor.Checks.Dtls.Fingerprint.{Sha256}
use webrtc_doctor.Checks.Dtls.Handshake.{Dtls}
use webrtc_doctor.Command.Services.{Services}
use webrtc_doctor.Tests.Inputs.{relay, test_platform, challenge, grant}

-- The bytes of the first datagram are the stream.
unfoldable pub read_stream : (n : ℕ) → List Received → Timed (Array n) × List Received
read_stream n [] = (timed_out, [])
read_stream n (datagram bytes from ∷ rs) =
    let r = read_end.read_exact n bytes in (r.0, datagram r.1 from ∷ rs)
read_stream n (_ ∷ rs) = (broke [], rs)

abbrev pub test_tls : Tls (List Received)
test_tls = record {
  ServerName = Text;
  TcpStream = ℕ;
  TlsStream = ℕ;
  server_name = λ host. some host;
  tcp_connect = λ time addr w. (finished 4, w);
  tls_connect = λ time server_name tcp w. (finished 5, w);
  writer = λ s. record { write_all = λ bytes w. (given tt, w); flush = λ w. (given tt, w) };
  reader = λ s deadline. record { read_exact = read_stream };
}

-- The answers of a TURN server, framed.
abbrev pub tls_deliveries : List Received
tls_deliveries = datagram (framed challenge ++ framed grant) relay ∷ []

abbrev pub test_sockets : WebSockets (List Received)
test_sockets = record {
  Request = Text;
  HeaderValue = Text;
  WebSocket = ℕ;
  uri_host = λ url. some (text "signal.example.org");
  into_client_request = λ url. given url;
  header_value = λ t. given t;
  insert_authorization = λ v r. r ++ v;
  connect = λ time r w. (finished (6, 101), w);
  close = λ s w. (tt, w);
}

abbrev pub zero_sha256 : Sha256
zero_sha256 = record {
  digest = λ message. replicate 32 0xA7;
  length-digest = λ message. refl;
  digest-IsBytes = λ message. ground arith;
}

abbrev pub test_dtls : Dtls (List Received)
test_dtls = record {
  Certificate = Text;
  UdpSocket = ℕ;
  Listener = ℕ;
  Server = ℕ;
  Conn = ℕ;
  sha256 = zero_sha256;
  generate_self_signed = λ name w. (given name, w);
  bind = λ time addr w. (finished 7, w);
  connect = λ time s addr w. (finished tt, w);
  handshake = λ time s cert w. (finished 8, w);
  peer_certificates = λ time c w. (finished ((1 ∷ 2 ∷ []) ∷ []), w);
  srtp_profile = λ c. text "Unsupported";
  close = λ time c w. (finished tt, w);
  listen = λ time addr cert w. (finished 9, w);
  addr = λ l w. (given relay, w);
  spawn_server = λ l w. (10, w);
  accepts = λ l w. (given relay ∷ [], w);
  join = λ time s w. (finished tt, w);
}

-- Stdin has one line, again and again.
abbrev pub test_services : Services
test_services = record {
  platform = test_platform;
  tls = test_tls;
  sockets = test_sockets;
  dtls = test_dtls;
  read_line = λ w. (given (text "pass\r\n"), w);
  version = text "0.1.0";
  to_string_pretty = λ report. given (text "{}");
  paint = λ styles width t. t;
  println = λ t w. (true, w);
  clock = λ w. 0;
}
