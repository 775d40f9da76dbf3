-- ===== src/Checks/Stun.antt =====
-- `StunBindingCheck` of checks/stun.rs; its request and its parser are in Binding.
pub mod Laws
use webrtc_doctor.Prelude.{
  ℕ, List, [], ◌∷◌, ◌++◌, Option, none, some, Result, ok, err, panic, stuck,
}
use webrtc_doctor.Prelude.Text.{Text, text, show_nat}
use webrtc_doctor.Report.Json.{Json, str, obj, end, field}
use webrtc_doctor.Report.CheckResult
use webrtc_doctor.Stun.Types.{IpAddr, SocketAddr}
use webrtc_doctor.Binding.{build_binding_request, parse_binding_response}
use webrtc_doctor.Pipeline.{Check}
use webrtc_doctor.Probe.Context.{ProbeContext, insert}
use webrtc_doctor.Probe.Platform.{Platform, timeout_or_default}
use webrtc_doctor.Probe.Body.{◌>>=◌, ask, exit_with, or_return, or_else, outcome}
use webrtc_doctor.Checks.Common.{
  Probe, elapsed_ms, fail_now, or_io, or_received, local_bind, fresh_txid, first_ip,
}

abbrev pub id : Text
id = text "stun.binding"

abbrev pub name : Text
name = text "STUN binding"

module _ (platform : Platform) where
  -- The `Ok` arm of the last `match`.
  unfoldable pub conclude :
      ProbeContext platform.Socket → SocketAddr → ℕ → SocketAddr → Probe platform (Unit {0})
  conclude ctx server latency_ms srflx =
      exit_with
        (CheckResult.with_detail
          (CheckResult.pass id name latency_ms (
            text "srflx "
            ++ platform.show_addr srflx
            ++ text " ("
            ++ show_nat latency_ms
            ++ text " ms)"))
          (obj (
            field (text "server") (str (platform.show_addr server))
              (field (text "srflx") (str (platform.show_addr srflx)) end))))
        (record ctx { scratch = insert (text "srflx") (platform.show_addr srflx) ctx.scratch })

  unfoldable pub run : ProbeContext platform.Socket → Probe platform (Unit {0})
  run ctx = do
    port ← or_return ctx.port (CheckResult.skip id name (text "no port supplied")) ctx
    ip ←
        or_return (first_ip ctx.resolved_ips) (CheckResult.skip id name (text "no resolved IP")) ctx
    let server : SocketAddr = record { ip = ip; port = port }
    started ← ask platform.now
    txid ← fresh_txid platform
    let request = (build_binding_request txid).1
    bound ← ask (platform.bind (local_bind platform ip))
    sock ←
        or_io platform bound
          (λ e. fail_now platform id name started ctx (text "local UDP bind failed: " ++ e))
    sent ← ask (platform.send_to sock request server)
    done ← or_io platform sent (λ e.
        fail_now platform id name started ctx
          (text "send to " ++ platform.show_addr server ++ text " failed: " ++ e))
    let recv_timeout = timeout_or_default ctx.default_timeout
    received ← ask (platform.recv_from sock 1500 recv_timeout)
    reply ←
        or_received platform received
          (λ e. fail_now platform id name started ctx (text "recv failed: " ++ e))
          (fail_now platform id name started ctx (
            text "no response from "
            ++ platform.show_addr server
            ++ text " in "
            ++ platform.show_duration recv_timeout))
    latency_ms ← elapsed_ms platform started
    srflx ← or_else (parse_binding_response reply txid) (λ e.
        exit_with
          (CheckResult.fail id name latency_ms
            (text "bad response: " ++ platform.show_binding_error e))
          ctx)
    conclude ctx server latency_ms srflx

  abbrev pub check : Check (ProbeContext platform.Socket × platform.World)
  check = record {
    id = id;
    name = name;
    requires = text "dns" ∷ [];
    run = λ s. outcome (run s.0 s.1);
  }
