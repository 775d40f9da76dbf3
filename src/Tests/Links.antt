-- ===== src/Tests/Links.antt =====
-- Frames, and the checks over TLS, WebSocket and DTLS, at concrete inputs.
use webrtc_doctor.Prelude.{ℕ, ◌≡◌, ◌⊎◌, arith, List, [], ◌∷◌, ◌++◌, length}
use webrtc_doctor.Prelude.Text.{text}
use webrtc_doctor.Probe.Platform.{given}
use webrtc_doctor.Probe.Timed.{finished}
use webrtc_doctor.Probe.Body.Laws.{Ended}
use webrtc_doctor.Checks.Common.Laws.{Settles}
use webrtc_doctor.Checks.Framing.{send_framed, recv_framed}
use webrtc_doctor.Checks.Framing.Laws.{write_end, read_end, recv_framed-send_framed}
use webrtc_doctor.Checks.TurnsAlloc as TurnsAlloc
use webrtc_doctor.Checks.TurnsAlloc.Outcomes as TurnsOutcomes
use webrtc_doctor.Checks.TurnsAlloc.Granted.{TlsAllocated}
use webrtc_doctor.Checks.TurnsAlloc.Laws.{run-TlsAllocated}
use webrtc_doctor.Checks.Signaling as Signaling
use webrtc_doctor.Checks.Signaling.{SignalingCheck}
use webrtc_doctor.Checks.Signaling.Laws.{Upgraded, run-Upgraded}
use webrtc_doctor.Checks.Dtls.{loopback_id, remote_id, run_loopback, run_remote}
use webrtc_doctor.Checks.Dtls.Laws.{RemotePassed, LoopbackPassed, run-Passed}
use webrtc_doctor.Checks.Dtls.Fingerprint.{sha256_fingerprint}
use webrtc_doctor.Checks.Dtls.Fingerprint.Laws.{Colons, read_pairs, sha256_fingerprint-Colons}
use webrtc_doctor.Tests.Inputs.{id_bytes, test_platform, test_context}
use webrtc_doctor.Tests.Services.{test_tls, tls_deliveries, test_sockets, zero_sha256, test_dtls}

recv_framed-send_framed_example :
    (s : List ℕ) × (send_framed write_end id_bytes (1 ∷ []) ≡ (given tt, 1 ∷ s))
    × (recv_framed read_end (s ++ 2 ∷ []) ≡ (finished id_bytes, 2 ∷ []))
recv_framed-send_framed_example = recv_framed-send_framed id_bytes (1 ∷ []) (2 ∷ []) (omega arith)

run-TlsAllocated_example :
    Ended
      (Settles TurnsOutcomes.id (TlsAllocated test_platform test_tls test_context) test_context)
      (TurnsAlloc.run test_platform test_tls test_context tls_deliveries)
run-TlsAllocated_example = run-TlsAllocated test_platform test_tls test_context tls_deliveries

abbrev wss_check : SignalingCheck
wss_check =
    Signaling.with_auth_header (Signaling.new (text "wss://signal.example.org/")) (text "Bearer x")

run-Upgraded_example :
    Ended
      (Settles Signaling.id
        (Upgraded test_platform test_sockets wss_check test_context)
        test_context)
      (Signaling.run test_platform test_sockets wss_check test_context [])
run-Upgraded_example = run-Upgraded test_platform test_sockets wss_check test_context []

run-Passed_example :
    Ended
      (Settles remote_id (RemotePassed test_platform test_dtls test_context) test_context)
      (run_remote test_platform test_dtls test_context [])
    × Ended
        (Settles loopback_id (LoopbackPassed test_platform test_dtls test_context) test_context)
        (run_loopback test_platform test_dtls test_context [])
run-Passed_example = run-Passed test_platform test_dtls test_context []

abbrev certificate : List ℕ
certificate = 1 ∷ 2 ∷ []

sha256_fingerprint-Colons_example :
    (sha256_fingerprint zero_sha256 [] ≡ [])
    × ((certificate ≡ [])
        ⊎ (Colons (sha256_fingerprint zero_sha256 certificate)
            × (length (sha256_fingerprint zero_sha256 certificate) ≡ 95)
            × (read_pairs (sha256_fingerprint zero_sha256 certificate)
                ≡ zero_sha256.digest certificate)))
sha256_fingerprint-Colons_example = sha256_fingerprint-Colons zero_sha256 certificate
