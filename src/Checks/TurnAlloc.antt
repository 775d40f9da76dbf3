-- ===== src/Checks/TurnAlloc.antt =====
-- `TurnAllocateCheck` of checks/turn_alloc.rs; its messages are in Turn.
pub mod Allocated
pub mod Laws
use webrtc_doctor.Prelude.{ℕ, List, [], ◌∷◌, ◌++◌, Option, none, some, Result}
use webrtc_doctor.Prelude.Text.{Text, text, show_nat}
use webrtc_doctor.Report.Json.{Json, num, str, obj, end, field}
use webrtc_doctor.Report.CheckResult
use webrtc_doctor.Stun.Types.{SocketAddr}
use webrtc_doctor.Turn.Message.{long_term_key}
use webrtc_doctor.Turn.Allocate.{
  AllocateOutcome, success, unauthorized, error, AllocateError, build_allocate_unauth,
  build_allocate_authed, parse_allocate_response,
}
use webrtc_doctor.Pipeline.{Check}
use webrtc_doctor.Probe.Context.{ProbeContext, insert}
use webrtc_doctor.Probe.Platform.{Platform, timeout_or_default}
use webrtc_doctor.Probe.Body.{◌>>=◌, ask, pure, exit_with, or_return, or_else, outcome}
use webrtc_doctor.Checks.Common.{
  Probe, elapsed_ms, fail_now, or_io, or_received, local_bind, fresh_txid, first_ip,
}

abbrev pub id : Text
id = text "turn.alloc.udp"

abbrev pub name : Text
name = text "TURN allocation (UDP)"

-- `match (ctx.turn_user, ctx.turn_pass)`
abbrev pub both : Option Text → Option Text → Option (Text × Text)
both (some u) (some p) = some (u, p)
both _ _ = none

module _ (platform : Platform) where
  abbrev pub say : SocketAddr → Text
  say = platform.show_addr

  -- The first `match outcome1`: a challenge is answered, anything else ends the check.
  unfoldable pub challenge_of :
      ProbeContext platform.Socket
      → SocketAddr
      → ℕ
      → AllocateOutcome
      → Probe platform (Text × List ℕ)
  challenge_of ctx server started (unauthorized realm nonce) = pure (realm, nonce)
  challenge_of ctx server started (success relayed lifetime) = do
    ms ← elapsed_ms platform started
    exit_with
        (CheckResult.with_detail
          (CheckResult.pass id name ms (
            text "relay "
            ++ say relayed
            ++ text " (anonymous alloc, "
            ++ show_nat ms
            ++ text " ms)"))
          (obj (
            field (text "server") (str (say server)) (
              field (text "relayed") (str (say relayed))
                (field (text "auth") (str (text "none")) end)))))
        (record ctx { scratch = insert (text "relayed") (say relayed) ctx.scratch })
  challenge_of ctx server started (error code reason) = do
    ms ← elapsed_ms platform started
    exit_with
        (CheckResult.fail id name ms
          (text "server returned " ++ show_nat code ++ text " " ++ reason))
        ctx

  -- The user and the password, or the warning that there are none.
  unfoldable pub credentials_of :
      ProbeContext platform.Socket
      → SocketAddr
      → ℕ
      → Text
      → Option (Text × Text)
      → Probe platform (Text × Text)
  credentials_of ctx server started realm (some c) = pure c
  credentials_of ctx server started realm none = do
    ms ← elapsed_ms platform started
    exit_with
        (CheckResult.with_detail
          (CheckResult.warn id name ms
            (text "auth challenge from realm \"" ++ realm ++ text "\" — no --user/--pass supplied"))
          (obj (
            field (text "server") (str (say server)) (
              field (text "realm") (str realm)
                (field (text "auth") (str (text "challenge-only")) end)))))
        ctx

  -- The context after an authenticated success.
  abbrev pub granted :
      ProbeContext platform.Socket
      → platform.Socket
      → SocketAddr
      → SocketAddr
      → Text
      → List ℕ
      → List ℕ
      → Text
      → ProbeContext platform.Socket
  granted ctx sock server relayed realm nonce key user = record ctx {
    scratch = insert (text "relayed") (say relayed) ctx.scratch;
    turn_session = some (record {
      socket = sock;
      server = server;
      relayed = relayed;
      realm = realm;
      nonce = nonce;
      key = key;
      username = user;
    });
  }

  -- The last `match outcome2`.
  unfoldable pub conclude :
      ProbeContext platform.Socket
      → platform.Socket
      → SocketAddr
      → ℕ
      → Text
      → List ℕ
      → List ℕ
      → Text
      → AllocateOutcome
      → Probe platform (Unit {0})
  conclude ctx sock server ms realm nonce key user (success relayed lifetime) =
      exit_with
        (CheckResult.with_detail
          (CheckResult.pass id name ms (
            text "relay "
            ++ say relayed
            ++ text " (lifetime "
            ++ show_nat lifetime
            ++ text "s, "
            ++ show_nat ms
            ++ text " ms)"))
          (obj (
            field (text "server") (str (say server)) (
              field (text "relayed") (str (say relayed)) (
                field (text "lifetime_s") (num lifetime) (
                  field (text "realm") (str realm)
                    (field (text "auth") (str (text "long-term")) end)))))))
        (granted ctx sock server relayed realm nonce key user)
  conclude ctx sock server ms realm nonce key user (unauthorized _ _) =
      exit_with
        (CheckResult.fail id name ms
          (text "server rejected long-term credentials (401 after auth)"))
        ctx
  conclude ctx sock server ms realm nonce key user (error code reason) =
      exit_with
        (CheckResult.fail id name ms
          (text "allocate rejected: " ++ show_nat code ++ text " " ++ reason))
        ctx

  -- Round 1, up to the outcome of the unauthenticated request.
  unfoldable pub round_1 :
      ProbeContext platform.Socket
      → SocketAddr
      → ℕ
      → platform.Socket
      → ℕ
      → Probe platform AllocateOutcome
  round_1 ctx server started sock recv_timeout = do
    txid ← fresh_txid platform
    message ← or_else (build_allocate_unauth {E = ⊥} txid) (λ e. absurd e)
    sent ← ask (platform.send_to sock message.1 server)
    done ← or_io platform sent (λ e.
        fail_now platform id name started ctx
          (text "send (unauth) to " ++ say server ++ text " failed: " ++ e))
    received ← ask (platform.recv_from sock 1500 recv_timeout)
    reply ←
        or_received platform received
          (λ e. fail_now platform id name started ctx (text "recv (unauth) failed: " ++ e))
          (fail_now platform id name started ctx (
            text "no Allocate response from "
            ++ say server
            ++ text " in "
            ++ platform.show_duration recv_timeout))
    or_else (parse_allocate_response platform.lossy reply txid) (λ e.
        fail_now platform id name started ctx
          (text "malformed Allocate response: " ++ platform.show_allocate_error e))

  -- Round 2, up to the outcome of the authenticated request.
  unfoldable pub round_2 :
      ProbeContext platform.Socket
      → SocketAddr
      → ℕ
      → platform.Socket
      → ℕ
      → Text
      → Text
      → List ℕ
      → List ℕ
      → Probe platform AllocateOutcome
  round_2 ctx server started sock recv_timeout user realm nonce key = do
    txid ← fresh_txid platform
    message ←
        or_else (build_allocate_authed {E = ⊥} platform.digests txid user realm nonce key)
          (λ e. absurd e)
    sent ← ask (platform.send_to sock message.1 server)
    done ← or_io platform sent (λ e.
        fail_now platform id name started ctx
          (text "send (authed) to " ++ say server ++ text " failed: " ++ e))
    received ← ask (platform.recv_from sock 1500 recv_timeout)
    reply ←
        or_received platform received
          (λ e. fail_now platform id name started ctx (text "recv (authed) failed: " ++ e))
          (fail_now platform id name started ctx
            (text "no authed Allocate response in " ++ platform.show_duration recv_timeout))
    or_else (parse_allocate_response platform.lossy reply txid) (λ e.
        fail_now platform id name started ctx
          (text "malformed authed Allocate response: " ++ platform.show_allocate_error e))

  unfoldable pub run : ProbeContext platform.Socket → Probe platform (Unit {0})
  run ctx = do
    port ← or_return ctx.port (CheckResult.skip id name (text "no port supplied")) ctx
    ip ←
        or_return (first_ip ctx.resolved_ips) (CheckResult.skip id name (text "no resolved IP")) ctx
    let server : SocketAddr = record { ip = ip; port = port }
    started ← ask platform.now
    bound ← ask (platform.bind (local_bind platform ip))
    sock ←
        or_io platform bound
          (λ e. fail_now platform id name started ctx (text "local UDP bind failed: " ++ e))
    let recv_timeout = timeout_or_default ctx.default_timeout
    outcome1 ← round_1 ctx server started sock recv_timeout
    challenge ← challenge_of ctx server started outcome1
    login ← credentials_of ctx server started challenge.0 (both ctx.turn_user ctx.turn_pass)
    let key = long_term_key platform.digests login.0 challenge.0 login.1
    outcome2 ← round_2 ctx server started sock recv_timeout login.0 challenge.0 challenge.1 key
    ms ← elapsed_ms platform started
    conclude ctx sock server ms challenge.0 challenge.1 key login.0 outcome2

  abbrev pub check : Check (ProbeContext platform.Socket × platform.World)
  check = record {
    id = id;
    name = name;
    requires = text "dns" ∷ [];
    run = λ s. outcome (run s.0 s.1);
  }
