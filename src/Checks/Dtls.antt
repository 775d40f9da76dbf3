-- ===== src/Checks/Dtls.antt =====
-- The DTLS checks of checks/dtls.rs; the handshake is that of the webrtc-dtls crate.
pub mod Fingerprint
pub mod Handshake
pub mod Serve
pub mod Laws
use webrtc_doctor.Prelude.{ℕ, List, [], ◌∷◌, ◌++◌, Option, none, some, take}
use webrtc_doctor.Prelude.Text.{Text, text, show_nat}
use webrtc_doctor.Report.Json.{Json, num, str, obj, end, field}
use webrtc_doctor.Report.CheckResult
use webrtc_doctor.Report.Status.{CheckResult}
use webrtc_doctor.Stun.Types.{SocketAddr}
use webrtc_doctor.Pipeline.{Check}
use webrtc_doctor.Probe.Context.{ProbeContext}
use webrtc_doctor.Probe.Platform.{Platform, timeout_or_default}
use webrtc_doctor.Probe.Timed.{Timed, finished, broke, timed_out}
use webrtc_doctor.Probe.Body.{◌>>=◌, ask, exit_with, or_return, outcome}
use webrtc_doctor.Checks.Common.{Probe, elapsed_ms, fail_now, first_ip}
use webrtc_doctor.Checks.Dtls.Handshake.{
  Dtls, Outcome, run_remote_handshake, run_loopback_handshake,
}

abbrev pub loopback_id : Text
loopback_id = text "dtls.loopback"

abbrev pub loopback_name : Text
loopback_name = text "DTLS handshake (loopback)"

abbrev pub remote_id : Text
remote_id = text "dtls.remote"

abbrev pub remote_name : Text
remote_name = text "DTLS handshake (remote)"

-- `budget_from`
abbrev pub budget_from : {Socket : Type 0} → ProbeContext Socket → ℕ
budget_from ctx = timeout_or_default ctx.default_timeout

-- The result of `finish_pass`.
abbrev pub passed_result : Text → Text → Text → Outcome → ℕ → CheckResult
passed_result id name transport_label o total_ms =
    CheckResult.with_detail
      (CheckResult.pass id name total_ms (
        text "handshake OK in "
        ++ show_nat o.handshake_ms
        ++ text " ms ("
        ++ transport_label
        ++ text "); peer fp sha-256 "
        ++ take 23 o.fingerprint_sha256))
      (obj (
        field (text "handshake_ms") (num o.handshake_ms) (
          field (text "fingerprint_sha256") (str o.fingerprint_sha256) (
            field (text "srtp_profile") (str o.srtp_profile) (
              field (text "peer_cert_der_bytes") (num o.peer_cert_len)
                (field (text "transport") (str transport_label) end))))))

module _ (platform : Platform) (dtls : Dtls platform.World) where
  unfoldable pub finish_pass :
      ProbeContext platform.Socket → Text → Text → ℕ → Outcome → Text → Probe platform (Unit {0})
  finish_pass ctx id name started o transport_label = do
    total_ms ← elapsed_ms platform started
    exit_with (passed_result id name transport_label o total_ms) ctx

  -- `match timeout(budget, …).await`
  unfoldable pub settle :
      ProbeContext platform.Socket
      → Text
      → Text
      → ℕ
      → Text
      → Text
      → Timed Outcome
      → Probe platform (Unit {0})
  settle ctx id name started label target (finished o) = finish_pass ctx id name started o label
  settle ctx id name started label target (broke e) =
      fail_now platform id name started ctx
        (text "DTLS handshake" ++ target ++ text " failed: " ++ e)
  settle ctx id name started label target timed_out = fail_now platform id name started ctx (
      text "DTLS handshake"
      ++ target
      ++ text " timed out after "
      ++ platform.show_duration (budget_from ctx))

  -- `DtlsLoopbackCheck::run`.
  unfoldable pub run_loopback : ProbeContext platform.Socket → Probe platform (Unit {0})
  run_loopback ctx = do
    started ← ask platform.now
    done ← ask (run_loopback_handshake platform dtls (budget_from ctx))
    settle ctx loopback_id loopback_name started (text "loopback") [] done

  -- `DtlsRemoteCheck::run`
  unfoldable pub run_remote : ProbeContext platform.Socket → Probe platform (Unit {0})
  run_remote ctx = do
    port ← or_return ctx.port (CheckResult.skip remote_id remote_name (text "no port supplied")) ctx
    ip ←
        or_return (first_ip ctx.resolved_ips)
          (CheckResult.skip remote_id remote_name (text "no resolved IP")) ctx
    let target : SocketAddr = record { ip = ip; port = port }
    started ← ask platform.now
    done ← ask (run_remote_handshake platform dtls (budget_from ctx) target)
    settle ctx remote_id remote_name started (text "via " ++ platform.show_addr target)
        (text " to " ++ platform.show_addr target) done

  abbrev pub loopback_check : Check (ProbeContext platform.Socket × platform.World)
  loopback_check = record {
    id = loopback_id;
    name = loopback_name;
    requires = [];
    run = λ s. outcome (run_loopback s.0 s.1);
  }

  abbrev pub remote_check : Check (ProbeContext platform.Socket × platform.World)
  remote_check = record {
    id = remote_id;
    name = remote_name;
    requires = text "dns" ∷ [];
    run = λ s. outcome (run_remote s.0 s.1);
  }
