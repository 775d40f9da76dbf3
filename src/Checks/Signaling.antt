-- ===== src/Checks/Signaling.antt =====
-- `SignalingCheck` and `host_from_url` of checks/signaling.rs.
pub mod Laws
use webrtc_doctor.Prelude.{
  ℕ, Bool, true, false, List, [], ◌∷◌, ◌++◌, Option, none, some, if◌then◌else◌,
}
use webrtc_doctor.Prelude.Text.{Text, text, show_nat}
use webrtc_doctor.Report.Json.{Json, bool, num, str, obj, end, field}
use webrtc_doctor.Report.CheckResult
use webrtc_doctor.Pipeline.{Check}
use webrtc_doctor.Probe.Context.{ProbeContext}
use webrtc_doctor.Probe.Platform.{Platform, Answer, given, io_failed}
use webrtc_doctor.Probe.Timed.{Timed, finished, broke, timed_out, Task}
use webrtc_doctor.Probe.Body.{◌>>=◌, ask, pure, exit_with, outcome}
use webrtc_doctor.Checks.Common.{Probe, elapsed_ms, fail_now, or_io, patient_timeout}
use webrtc_doctor.Command.Split.{starts_with}

-- What the check uses of tungstenite and of the http crate that it stands on.
pub record WebSockets (World : Type 0) : Type 1 where
  pub Request : Type 0
  pub HeaderValue : Type 0
  pub WebSocket : Type 0
  -- `Uri::try_from` and `host`
  pub uri_host : Text → Option Text
  pub into_client_request : Text → Answer Request
  pub header_value : Text → Answer HeaderValue
  -- `headers_mut().insert("authorization", v)`
  pub insert_authorization : HeaderValue → Request → Request
  -- under a timeout; the status of the response comes with the socket
  pub connect : ℕ → Request → Task World (WebSocket × ℕ)
  pub close : WebSocket → World → Unit {0} × World

abbrev pub id : Text
id = text "signaling"

abbrev pub name : Text
name = text "Signaling endpoint"

pub record SignalingCheck : Type 0 where
  pub url : Text
  pub auth_header : Option Text

-- `SignalingCheck::new`
abbrev pub new : Text → SignalingCheck
new url = record { url = url; auth_header = none }

abbrev pub with_auth_header : SignalingCheck → Text → SignalingCheck
with_auth_header check header = record check { auth_header = some header }

abbrev pub is_some {ℓ} : {A : Type ℓ} → Option A → Bool
is_some none = false
is_some (some a) = true

-- The scheme of the report.
unfoldable pub scheme_of : Text → Text
scheme_of url = if starts_with (text "wss") url then text "wss" else text "ws"

module _ (platform : Platform) (sockets : WebSockets platform.World) where
  abbrev pub host_from_url : Text → Option Text
  host_from_url = sockets.uri_host

  -- `if let Some(auth) = &self.auth_header`
  unfoldable pub authorized :
      ProbeContext platform.Socket
      → ℕ
      → sockets.Request
      → Option Text
      → Probe platform sockets.Request
  authorized ctx started request none = pure request
  authorized ctx started request (some auth) = do
    v ← or_io platform (sockets.header_value auth) (λ e.
        fail_now platform id name started ctx (text "invalid Authorization header value: " ++ e))
    pure (sockets.insert_authorization v request)

  -- `match connect`
  unfoldable pub connected :
      ProbeContext platform.Socket
      → SignalingCheck
      → ℕ
      → ℕ
      → Timed (sockets.WebSocket × ℕ)
      → Probe platform (Unit {0})
  connected ctx check time latency_ms (finished (ws, status)) = do
    closed ← ask (sockets.close ws)
    let auth_used = is_some check.auth_header
    exit_with
        (CheckResult.with_detail
          (CheckResult.pass id name latency_ms (
            scheme_of check.url
            ++ text " connected, HTTP "
            ++ show_nat status
            ++ text " ("
            ++ show_nat latency_ms
            ++ text " ms"
            ++ (if auth_used then text ", auth OK" else [])
            ++ text ")"))
          (obj (
            field (text "scheme") (str (scheme_of check.url)) (
              field (text "http_status") (num status) (
                field (text "auth_header") (bool auth_used)
                  (field (text "url") (str check.url) end))))))
        ctx
  connected ctx check time latency_ms (broke e) =
      exit_with (CheckResult.fail id name latency_ms (text "WS handshake failed: " ++ e)) ctx
  connected ctx check time latency_ms timed_out =
      exit_with
        (CheckResult.fail id name latency_ms
          (text "connect timeout after " ++ platform.show_duration time))
        ctx

  unfoldable pub run : SignalingCheck → ProbeContext platform.Socket → Probe platform (Unit {0})
  run check ctx = do
    started ← ask platform.now
    plain ←
        or_io platform (sockets.into_client_request check.url)
          (λ e. fail_now platform id name started ctx (text "invalid signaling URL: " ++ e))
    request ← authorized ctx started plain check.auth_header
    let connect_timeout = patient_timeout ctx.default_timeout
    connect ← ask (sockets.connect connect_timeout request)
    latency_ms ← elapsed_ms platform started
    connected ctx check connect_timeout latency_ms connect

  -- `requires` is the trait's own: nothing.
  abbrev pub check : SignalingCheck → Check (ProbeContext platform.Socket × platform.World)
  check this = record { id = id; name = name; requires = []; run = λ s. outcome (run this s.0 s.1) }
