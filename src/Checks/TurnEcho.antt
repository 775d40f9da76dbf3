-- ===== src/Checks/TurnEcho.antt =====
-- `TurnEchoCheck` of checks/turn_echo.rs; its messages and its loop are in Echo.
pub mod Laws
pub mod Sends
use webrtc_doctor.Prelude.{
  ℕ, zero, suc, ◌+◌, ◌-◌, ◌*◌, ◌%◌, ◌^◌, max, List, [], ◌∷◌, ◌++◌, map, Option, none, some, Result,
  length, replicate, ltb, ◌==◌, if◌then◌else◌,
}
use webrtc_doctor.Prelude.Text.{Text, text, show_nat}
use webrtc_doctor.Report.Json.{Json, null, num, float, str, arr, obj, end, field, items}
use webrtc_doctor.Report.CheckResult
use webrtc_doctor.Stun.Types.{SocketAddr}
use webrtc_doctor.Echo.Permission.{
  CpOutcome, success, error, build_create_permission, parse_create_permission_response,
}
use webrtc_doctor.Echo.Payload.{make_payload, stats}
use webrtc_doctor.Echo.Collect.{Echoes, collect}
use webrtc_doctor.Pipeline.{Check}
use webrtc_doctor.Probe.Context.{TurnSession, ProbeContext, get}
use webrtc_doctor.Probe.Platform.{Platform, millis, timeout_or_default}
use webrtc_doctor.Probe.Body.{◌>>=◌, ask, pure, exit_with, or_return, or_else, outcome}
use webrtc_doctor.Checks.Common.{Probe, elapsed_ms, fail_now, or_io, or_received, fresh_txid}

abbrev pub id : Text
id = text "turn.echo.udp"

abbrev pub name : Text
name = text "TURN echo (UDP)"

-- `ECHO_INTERVAL`, in nanoseconds.
abbrev pub echo_interval : ℕ
echo_interval = 20000000

-- The latest of the times, `none` if there is none.
abbrev pub latest : List (Option ℕ) → Option ℕ
latest [] = none
latest (none ∷ ts) = latest ts
latest (some t ∷ ts) = elim (latest ts) [ none ↦ some t | some u ↦ some (max t u) ]

-- `iter().filter_map(|x| *x)`
abbrev pub present : List (Option ℕ) → List ℕ
present [] = []
present (none ∷ xs) = present xs
present (some x ∷ xs) = x ∷ present xs

abbrev pub map_millis : Option ℕ → Option ℕ
map_millis none = none
map_millis (some d) = some (millis d)

module _ (platform : Platform) where
  -- `ctx.scratch.get("srflx").and_then(|s| s.parse().ok())`
  abbrev pub peer_of : Option Text → Option SocketAddr
  peer_of none = none
  peer_of (some t) = platform.parse_addr t

  abbrev pub fail_echo : ℕ → ProbeContext platform.Socket → {A : Type 0} → Text → Probe platform A
  fail_echo started ctx msg = fail_now platform id name started ctx msg

  -- Step 1: the permission.
  unfoldable pub accept : ProbeContext platform.Socket → ℕ → CpOutcome → Probe platform (Unit {0})
  accept ctx started success = pure tt
  accept ctx started (error code reason) =
      fail_now platform id name started ctx
        (text "CreatePermission rejected: " ++ show_nat code ++ text " " ++ reason)

  unfoldable pub permit :
      ProbeContext platform.Socket
      → TurnSession platform.Socket
      → SocketAddr
      → ℕ
      → ℕ
      → Probe platform (Unit {0})
  permit ctx session srflx started recv_timeout = do
    txid ← fresh_txid platform
    message ←
        or_else
          (build_create_permission {E = ⊥} platform.digests txid session.username session.realm
            session.nonce session.key srflx)
          (λ e. absurd e)
    sent ← ask (platform.send_to session.socket message.1 session.server)
    done ←
        or_io platform sent
          (λ e. fail_now platform id name started ctx (text "send CreatePermission failed: " ++ e))
    received ← ask (platform.recv_from session.socket 1500 recv_timeout)
    reply ←
        or_received platform received
          (λ e. fail_now platform id name started ctx (text "recv CreatePermission failed: " ++ e))
          (fail_now platform id name started ctx (
            text "no CreatePermission response in "
            ++ platform.show_duration recv_timeout
            ++ text " (server: "
            ++ platform.show_addr session.server
            ++ text ")"))
    answer ← or_else (parse_create_permission_response platform.lossy reply txid) (λ e.
        fail_now platform id name started ctx
          (text "malformed CreatePermission resp: " ++ platform.show_cp_error e))
    accept ctx started answer

  -- The pause before the packets that are left, if any are.
  unfoldable pub pause_before : ℕ → Probe platform (Unit {0})
  pause_before zero = pure tt
  pause_before (suc left) = ask (platform.sleep echo_interval)

  -- Step 2: packets `seq`, `seq + 1`, ..., `left` of them, with the time of each. No pause follows
  -- the last.
  unfoldable pub send_all :
      ProbeContext platform.Socket
      → TurnSession platform.Socket
      → ℕ
      → ℕ
      → ℕ
      → Probe platform (List (Option ℕ))
  send_all ctx session started zero seq = pure []
  send_all ctx session started (suc left) seq = do
    t ← ask platform.now
    sent ← ask (platform.send_to session.socket (make_payload seq) session.relayed)
    done ← or_io platform sent (λ e.
        fail_now platform id name started ctx
          (text "send packet " ++ show_nat seq ++ text " to relay failed: " ++ e))
    rested ← pause_before left
    rest ← send_all ctx session started left (seq + 1)
    pure (some t ∷ rest)

  -- `unwrap_or_else(Instant::now)`
  unfoldable pub or_now : Option ℕ → Probe platform ℕ
  or_now (some t) = pure t
  or_now none = ask platform.now

  abbrev pub detail : TurnSession platform.Socket → SocketAddr → ℕ → Echoes → Json
  detail session srflx count st = obj (
      field (text "server") (str (platform.show_addr session.server)) (
        field (text "relayed") (str (platform.show_addr session.relayed)) (
          field (text "peer") (str (platform.show_addr srflx)) (
            field (text "sent") (num count) (
              field (text "received") (num st.received) (
                field (text "duplicates") (num st.duplicates) (
                  field (text "loss_pct") (float ((count - st.received) * 100) count) (
                    field (text "rtt_ms")
                      (arr (
                        items (λ x. elim x [ none ↦ null | some ms ↦ num ms ])
                          (map map_millis st.rtts)))
                      (field (text "path") (str (text "client→relay→data-indication")) end)))))))))

  abbrev pub summary : TurnSession platform.Socket → ℕ → Echoes → Text
  summary session count st =
      let s = stats (present (map map_millis st.rtts)) in
      show_nat st.received
      ++ text "/"
      ++ show_nat count
      ++ text " echoes, loss "
      ++ platform.show_rounded ((count - st.received) * 100) count
      ++ text "%, rtt min/avg/max = "
      ++ show_nat s.0
      ++ text "/"
      ++ show_nat s.1
      ++ text "/"
      ++ show_nat s.2
      ++ text " ms via "
      ++ platform.show_addr session.relayed

  -- From the counters to the result.
  unfoldable pub conclude :
      ProbeContext platform.Socket
      → TurnSession platform.Socket
      → SocketAddr
      → ℕ
      → ℕ
      → ℕ
      → Echoes
      → Probe platform (Unit {0})
  conclude ctx session srflx count recv_timeout total_ms st =
      let report = detail session srflx count st in
      if st.received == 0
      then exit_with
          (CheckResult.with_detail
            (CheckResult.fail id name total_ms (
              text "0/"
              ++ show_nat count
              ++ text " echoes received within "
              ++ platform.show_duration recv_timeout
              ++ text " (relay: "
              ++ platform.show_addr session.relayed
              ++ text ")"))
            report)
          ctx
      else if st.received == count
      then exit_with
          (CheckResult.with_detail (CheckResult.pass id name total_ms (summary session count st))
            report)
          ctx
      else exit_with
          (CheckResult.with_detail (CheckResult.warn id name total_ms (summary session count st))
            report)
          ctx

  unfoldable pub run : ProbeContext platform.Socket → Probe platform (Unit {0})
  run ctx = do
    session ←
        or_return ctx.turn_session (CheckResult.skip id name (text "no TURN session in context"))
          ctx
    srflx ←
        or_return (peer_of (get (text "srflx") ctx.scratch))
          (CheckResult.skip id name (text "no srflx in context")) ctx
    started ← ask platform.now
    let recv_timeout = timeout_or_default ctx.default_timeout
    let count = max ctx.echo_count 1
    permitted ← permit ctx session srflx started recv_timeout
    send_times ← send_all ctx session started count 0
    last_send ← or_now (latest send_times)
    let recv_deadline = last_send + recv_timeout
    rounds ← ask (platform.rounds session.socket recv_deadline)
    st ←
        or_else
          (collect session.server send_times count recv_deadline rounds
            (record { rtts = replicate count none; received = 0; duplicates = 0 }))
          (λ e. fail_now platform id name started ctx (text "recv echo failed: " ++ e))
    total_ms ← elapsed_ms platform started
    conclude ctx session srflx count recv_timeout total_ms st

  abbrev pub check : Check (ProbeContext platform.Socket × platform.World)
  check = record {
    id = id;
    name = name;
    requires = text "turn.alloc.udp" ∷ text "stun.binding" ∷ [];
    run = λ s. outcome (run s.0 s.1);
  }
