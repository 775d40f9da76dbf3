-- ===== src/Checks/TurnsAlloc/Outcomes.antt =====
-- What `TurnsAllocateCheck::run` makes of the two outcomes and of the credentials.
use webrtc_doctor.Prelude.{ℕ, List, ◌++◌, Option, none, some}
use webrtc_doctor.Prelude.Text.{Text, text, show_nat}
use webrtc_doctor.Report.Json.{num, str, obj, end, field}
use webrtc_doctor.Report.CheckResult
use webrtc_doctor.Stun.Types.{SocketAddr}
use webrtc_doctor.Turn.Allocate.{AllocateOutcome, success, unauthorized, error}
use webrtc_doctor.Probe.Context.{ProbeContext, insert}
use webrtc_doctor.Probe.Platform.{Platform}
use webrtc_doctor.Probe.Body.{◌>>=◌, pure, exit_with}
use webrtc_doctor.Checks.Common.{Probe, elapsed_ms}

abbrev pub id : Text
id = text "turn.alloc.tls"

abbrev pub name : Text
name = text "TURN allocation (TLS)"

module _ (platform : Platform) (ctx : ProbeContext platform.Socket) where
  -- `ctx.scratch.insert("relayed".into(), relayed.to_string())`
  abbrev pub with_relayed : SocketAddr → ProbeContext platform.Socket
  with_relayed relayed = record ctx {
    scratch = insert (text "relayed") (platform.show_addr relayed) ctx.scratch;
  }

module _ (platform : Platform) (ctx : ProbeContext platform.Socket) (server : SocketAddr)
    (host : Text) (started tls_ms : ℕ) where
  abbrev say : SocketAddr → Text
  say = platform.show_addr

  -- The first `match outcome1`.
  unfoldable pub tls_challenge_of : AllocateOutcome → Probe platform (Text × List ℕ)
  tls_challenge_of (unauthorized realm nonce) = pure (realm, nonce)
  tls_challenge_of (success relayed lifetime) = do
    ms ← elapsed_ms platform started
    exit_with
        (CheckResult.with_detail
          (CheckResult.pass id name ms (
            text "relay "
            ++ say relayed
            ++ text " (anonymous alloc, TLS "
            ++ show_nat tls_ms
            ++ text " ms, total "
            ++ show_nat ms
            ++ text " ms)"))
          (obj (
            field (text "server") (str (say server)) (
              field (text "sni") (str host) (
                field (text "relayed") (str (say relayed)) (
                  field (text "lifetime_s") (num lifetime) (
                    field (text "tls_handshake_ms") (num tls_ms)
                      (field (text "auth") (str (text "none")) end))))))))
        (with_relayed platform ctx relayed)
  tls_challenge_of (error code reason) = do
    ms ← elapsed_ms platform started
    exit_with
        (CheckResult.fail id name ms
          (text "server returned " ++ show_nat code ++ text " " ++ reason))
        ctx

  -- `match (ctx.turn_user, ctx.turn_pass)`
  unfoldable pub tls_credentials_of : Text → Option (Text × Text) → Probe platform (Text × Text)
  tls_credentials_of realm (some c) = pure c
  tls_credentials_of realm none = do
    ms ← elapsed_ms platform started
    exit_with
        (CheckResult.with_detail
          (CheckResult.warn id name ms (
            text "auth challenge from realm \""
            ++ realm
            ++ text "\" — no --user/--pass supplied (TLS "
            ++ show_nat tls_ms
            ++ text " ms)"))
          (obj (
            field (text "server") (str (say server)) (
              field (text "sni") (str host) (
                field (text "realm") (str realm) (
                  field (text "tls_handshake_ms") (num tls_ms)
                    (field (text "auth") (str (text "challenge-only")) end)))))))
        ctx

  -- The last `match outcome2`.
  unfoldable pub tls_conclude : ℕ → Text → AllocateOutcome → Probe platform (Unit {0})
  tls_conclude ms realm (success relayed lifetime) =
      exit_with
        (CheckResult.with_detail
          (CheckResult.pass id name ms (
            text "relay "
            ++ say relayed
            ++ text " (lifetime "
            ++ show_nat lifetime
            ++ text "s, TLS "
            ++ show_nat tls_ms
            ++ text " ms, total "
            ++ show_nat ms
            ++ text " ms)"))
          (obj (
            field (text "server") (str (say server)) (
              field (text "sni") (str host) (
                field (text "relayed") (str (say relayed)) (
                  field (text "lifetime_s") (num lifetime) (
                    field (text "realm") (str realm) (
                      field (text "tls_handshake_ms") (num tls_ms)
                        (field (text "auth") (str (text "long-term")) end)))))))))
        (with_relayed platform ctx relayed)
  tls_conclude ms realm (unauthorized _ _) =
      exit_with
        (CheckResult.fail id name ms
          (text "server rejected long-term credentials (401 after auth)"))
        ctx
  tls_conclude ms realm (error code reason) =
      exit_with
        (CheckResult.fail id name ms
          (text "allocate rejected: " ++ show_nat code ++ text " " ++ reason))
        ctx
