-- ===== src/Checks/TurnsAlloc.antt =====
-- `TurnsAllocateCheck` of checks/turns_alloc.rs: the allocation of TurnAlloc, on a TLS stream.
pub mod Outcomes
pub mod Link
pub mod Granted
pub mod Laws
use webrtc_doctor.Prelude.{ℕ, ◌+◌, List, [], ◌∷◌, ◌++◌}
use webrtc_doctor.Prelude.Text.{Text, text}
use webrtc_doctor.Report.CheckResult
use webrtc_doctor.Stun.Types.{SocketAddr}
use webrtc_doctor.Turn.Message.{long_term_key}
use webrtc_doctor.Turn.Allocate.{
  AllocateOutcome, build_allocate_unauth, build_allocate_authed, parse_allocate_response,
}
use webrtc_doctor.Pipeline.{Check}
use webrtc_doctor.Probe.Context.{ProbeContext}
use webrtc_doctor.Probe.Platform.{Platform}
use webrtc_doctor.Probe.Body.{◌>>=◌, ask, pure, or_return, or_else, outcome}
use webrtc_doctor.Checks.Common.{
  Probe, elapsed_ms, fail_now, or_io, or_timed, or_none, fresh_txid, first_ip, patient_timeout,
}
use webrtc_doctor.Checks.Framing.{send_framed, recv_framed}
use webrtc_doctor.Checks.Tls.{Tls}
use webrtc_doctor.Checks.TurnAlloc.{both}
use webrtc_doctor.Checks.TurnsAlloc.Outcomes.{
  id, name, tls_challenge_of, tls_credentials_of, tls_conclude,
}

module _ (platform : Platform) (tls : Tls platform.World) where
  -- The stream, and the time that its handshake took.
  unfoldable pub tls_connected :
      ProbeContext platform.Socket → SocketAddr → Text → ℕ → ℕ → Probe platform (tls.TlsStream × ℕ)
  tls_connected ctx server host started recv_timeout = do
    server_name ← or_none platform (tls.server_name host) (
        fail_now platform id name started ctx
          (text "`" ++ host ++ text "` is not a valid TLS server name"))
    tls_started ← ask platform.now
    connected ← ask (tls.tcp_connect recv_timeout server)
    tcp ←
        or_timed platform connected
          (λ e.
            fail_now platform id name started ctx
              (text "TCP connect to " ++ platform.show_addr server ++ text " failed: " ++ e))
          (fail_now platform id name started ctx
            (text "TCP connect to " ++ platform.show_addr server ++ text " timeout"))
    shaken ← ask (tls.tls_connect recv_timeout server_name tcp)
    stream ←
        or_timed platform shaken
          (λ e. fail_now platform id name started ctx (text "TLS handshake failed: " ++ e))
          (fail_now platform id name started ctx (text "TLS handshake timeout"))
    tls_ms ← elapsed_ms platform tls_started
    pure (stream, tls_ms)

  -- One message and its answer. The timeout starts when the reading does.
  unfoldable pub tls_exchange :
      ProbeContext platform.Socket
      → ℕ
      → tls.TlsStream
      → ℕ
      → Text
      → Text
      → List ℕ
      → Probe platform (List ℕ)
  tls_exchange ctx started stream recv_timeout kind missing request = do
    sent ← ask (send_framed (tls.writer stream) request)
    done ← or_io platform sent (λ e.
        fail_now platform id name started ctx (text "send (" ++ kind ++ text ") failed: " ++ e))
    waiting ← ask platform.now
    received ← ask (recv_framed (tls.reader stream (waiting + recv_timeout)))
    or_timed platform received
        (λ e.
          fail_now platform id name started ctx (text "recv (" ++ kind ++ text ") failed: " ++ e))
        (fail_now platform id name started ctx
          (missing ++ text " in " ++ platform.show_duration recv_timeout))

  unfoldable pub tls_round_1 :
      ProbeContext platform.Socket → ℕ → tls.TlsStream → ℕ → Probe platform AllocateOutcome
  tls_round_1 ctx started stream recv_timeout = do
    txid ← fresh_txid platform
    message ← or_else (build_allocate_unauth {E = ⊥} txid) (λ e. absurd e)
    reply ←
        tls_exchange ctx started stream recv_timeout (text "unauth") (text "no Allocate response")
          message.1
    or_else (parse_allocate_response platform.lossy reply txid) (λ e.
        fail_now platform id name started ctx
          (text "malformed Allocate response: " ++ platform.show_allocate_error e))

  unfoldable pub tls_round_2 :
      ProbeContext platform.Socket
      → ℕ
      → tls.TlsStream
      → ℕ
      → Text
      → Text
      → List ℕ
      → List ℕ
      → Probe platform AllocateOutcome
  tls_round_2 ctx started stream recv_timeout user realm nonce key = do
    txid ← fresh_txid platform
    message ←
        or_else (build_allocate_authed {E = ⊥} platform.digests txid user realm nonce key)
          (λ e. absurd e)
    reply ←
        tls_exchange ctx started stream recv_timeout (text "authed")
          (text "no authed Allocate response") message.1
    or_else (parse_allocate_response platform.lossy reply txid) (λ e.
        fail_now platform id name started ctx
          (text "malformed authed Allocate response: " ++ platform.show_allocate_error e))

  unfoldable pub run : ProbeContext platform.Socket → Probe platform (Unit {0})
  run ctx = do
    port ← or_return ctx.port (CheckResult.skip id name (text "no port supplied")) ctx
    ip ←
        or_return (first_ip ctx.resolved_ips) (CheckResult.skip id name (text "no resolved IP")) ctx
    host ← or_return ctx.host (CheckResult.skip id name (text "no hostname for SNI")) ctx
    let server : SocketAddr = record { ip = ip; port = port }
    started ← ask platform.now
    let recv_timeout = patient_timeout ctx.default_timeout
    link ← tls_connected ctx server host started recv_timeout
    outcome1 ← tls_round_1 ctx started link.0 recv_timeout
    challenge ← tls_challenge_of platform ctx server host started link.1 outcome1
    login ←
        tls_credentials_of platform ctx server host started link.1 challenge.0
          (both ctx.turn_user ctx.turn_pass)
    let key = long_term_key platform.digests login.0 challenge.0 login.1
    outcome2 ← tls_round_2 ctx started link.0 recv_timeout login.0 challenge.0 challenge.1 key
    ms ← elapsed_ms platform started
    tls_conclude platform ctx server host started link.1 ms challenge.0 outcome2

  abbrev pub check : Check (ProbeContext platform.Socket × platform.World)
  check = record {
    id = id;
    name = name;
    requires = text "dns" ∷ [];
    run = λ s. outcome (run s.0 s.1);
  }
