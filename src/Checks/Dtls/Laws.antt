-- ===== src/Checks/Dtls/Laws.antt =====
-- What a run of the DTLS checks shows.
use webrtc_doctor.Prelude.{ℕ, List, ◌≡◌, ◌∙◌, refl, inl, ◌++◌, some, length}
use webrtc_doctor.Prelude.Text.{Text, text}
use webrtc_doctor.Report.Json.{num, str, obj, end, field}
use webrtc_doctor.Report.Status.{CheckResult}
use webrtc_doctor.Stun.Types.{SocketAddr}
use webrtc_doctor.Probe.Context.{ProbeContext}
use webrtc_doctor.Probe.Platform.{Platform, given}
use webrtc_doctor.Probe.Timed.{
  Timed, finished, broke, timed_out, Yields, bind-Yields, task-Yields, at_once-Yields, read-Yields,
  done-Yields,
}
use webrtc_doctor.Probe.Body.Laws.{
  Ends, bind-Holds, ask-Holds, exit-Holds, or_return-Holds, outcome-Ends, Ended,
}
use webrtc_doctor.Checks.Common.{first_ip}
use webrtc_doctor.Checks.Common.Laws.{elapsed-Holds, fail_now-Settles, Settles, skip-Settles}
use webrtc_doctor.Checks.Dtls.{
  loopback_id, remote_id, budget_from, passed_result, finish_pass, settle, run_loopback, run_remote,
}
use webrtc_doctor.Checks.Dtls.Fingerprint.{sha256_fingerprint}
use webrtc_doctor.Checks.Dtls.Handshake.{
  Dtls, Outcome, first_or_empty, dial, run_loopback_handshake,
}

-- The detail of a result that reports an outcome.
abbrev pub Reports : Outcome → Text → CheckResult → Type 0
Reports o label r =
    r.detail
    ≡ some (
        obj (
          field (text "handshake_ms") (num o.handshake_ms) (
            field (text "fingerprint_sha256") (str o.fingerprint_sha256) (
              field (text "srtp_profile") (str o.srtp_profile) (
                field (text "peer_cert_der_bytes") (num o.peer_cert_len)
                  (field (text "transport") (str label) end))))))

module _ (platform : Platform) (dtls : Dtls platform.World) where
  -- A handshake with the target that gave this outcome: the certificate is the first of the peer's.
  pub record Dialed (budget : ℕ) (target : SocketAddr) (o : Outcome) : Type 0 where
    pub sock : dtls.UdpSocket
    pub before : platform.World
    pub linked : (dtls.connect budget sock target before).0 ≡ finished tt
    pub certificate : dtls.Certificate
    pub start : platform.World
    pub conn : dtls.Conn
    pub shaken : (dtls.handshake budget sock certificate start).0 ≡ finished conn
    pub after : platform.World
    pub certificates : List (List ℕ)
    pub shown : (dtls.peer_certificates budget conn after).0 ≡ finished certificates
    pub fingerprint :
        o.fingerprint_sha256 ≡ sha256_fingerprint dtls.sha256 (first_or_empty certificates)
    pub size : o.peer_cert_len ≡ length (first_or_empty certificates)

  dial-Yields :
      (budget : ℕ) (target : SocketAddr)
      → Yields (Dialed budget target) (dial platform dtls budget target)
  unfolding dial
  dial-Yields budget target = bind-Yields (task-Yields _) λ sock e₁.
      bind-Yields (task-Yields _) λ u e₂. bind-Yields (task-Yields _) λ cert e₃.
        bind-Yields (read-Yields _) λ start e₄. bind-Yields (task-Yields _) λ conn e₅.
          bind-Yields (read-Yields _) λ now e₆. bind-Yields (task-Yields _) λ certificates e₇.
            bind-Yields (task-Yields _) λ closed e₈. done-Yields _ (record {
              sock = sock;
              before = e₂.0;
              linked = e₂.1;
              certificate = cert;
              start = e₅.0;
              conn = conn;
              shaken = e₅.1;
              after = e₇.0;
              certificates = certificates;
              shown = e₇.1;
              fingerprint = refl;
              size = refl;
            })

  -- A handshake with the address of a listener, whose server has accepted it and ended.
  pub record LoopedBack (budget : ℕ) (o : Outcome) : Type 0 where
    pub listener : dtls.Listener
    pub server : dtls.Server
    pub target : SocketAddr
    pub asked : platform.World
    pub address : (dtls.addr listener asked).0 ≡ given target
    pub spawned : platform.World
    pub serving : (dtls.spawn_server listener spawned).0 ≡ server
    pub dialed : Dialed budget target o
    pub waited : platform.World
    pub joined : (dtls.join budget server waited).0 ≡ finished tt

  loopback-Yields :
      (budget : ℕ) → Yields (LoopedBack budget) (run_loopback_handshake platform dtls budget)
  unfolding run_loopback_handshake
  loopback-Yields budget = bind-Yields (task-Yields _) λ cert e₁.
      bind-Yields (task-Yields _) λ listener e₂. bind-Yields (at_once-Yields _) λ addr e₃.
        bind-Yields (read-Yields _) λ server e₄. bind-Yields (dial-Yields budget addr) λ o dialed.
          bind-Yields (task-Yields _) λ u e₅. done-Yields o (record {
            listener = listener;
            server = server;
            target = addr;
            asked = e₃.0;
            address = e₃.1;
            spawned = e₄.0;
            serving = e₄.1;
            dialed = dialed;
            waited = e₅.0;
            joined = e₅.1;
          })

module _ (platform : Platform) (dtls : Dtls platform.World)
    {Passed : CheckResult → ProbeContext platform.Socket → Type 0} where
  -- A check passes with the outcome of a handshake that has finished.
  settle-Ends :
      (ctx : ProbeContext platform.Socket) (id name label target : Text) (started : ℕ)
      (t : Timed Outcome)
      → ((o : Outcome) (ms : ℕ) → t ≡ finished o → Passed (passed_result id name label o ms) ctx)
      → Ends (Settles id Passed ctx) (settle platform dtls ctx id name started label target t)
  unfolding settle finish_pass
  settle-Ends ctx id name label target started (finished o) h =
      bind-Holds (elapsed-Holds platform _)
        λ ms e. exit-Holds _ _ (record { named = refl; left = inl (refl, h o ms refl) })
  settle-Ends ctx id name label target started (broke e) h = fail_now-Settles platform _ _ _ _ _
  settle-Ends ctx id name label target started timed_out h = fail_now-Settles platform _ _ _ _ _

module _ (platform : Platform) (dtls : Dtls platform.World) where
  -- A pass of the remote check: a handshake with the first address and the port.
  pub record RemotePassed (ctx : ProbeContext platform.Socket) (r : CheckResult)
      (c : ProbeContext platform.Socket) : Type 0 where
    pub target : SocketAddr
    pub port : ctx.port ≡ some target.port
    pub ip : first_ip ctx.resolved_ips ≡ some target.ip
    pub outcome : Outcome
    pub dialed : Dialed platform dtls (budget_from ctx) target outcome
    pub reported : Reports outcome (text "via " ++ platform.show_addr target) r
    pub same : c ≡ ctx

  pub record LoopbackPassed (ctx : ProbeContext platform.Socket) (r : CheckResult)
      (c : ProbeContext platform.Socket) : Type 0 where
    pub outcome : Outcome
    pub looped : LoopedBack platform dtls (budget_from ctx) outcome
    pub reported : Reports outcome (text "loopback") r
    pub same : c ≡ ctx

  remote-Ends :
      (ctx : ProbeContext platform.Socket)
      → Ends (Settles remote_id (RemotePassed ctx) ctx) (run_remote platform dtls ctx)
  unfolding run_remote
  remote-Ends ctx = bind-Holds (or_return-Holds _ _ _ skip-Settles) λ port e₀.
      bind-Holds (or_return-Holds _ _ _ skip-Settles) λ ip e₁.
        bind-Holds (ask-Holds _) λ started e₂. bind-Holds (ask-Holds _) λ t e₃.
          settle-Ends platform dtls ctx _ _ _ _ started t λ o ms e. record {
            target = record { ip = ip; port = port };
            port = e₀;
            ip = e₁;
            outcome = o;
            dialed = (dial-Yields platform dtls (budget_from ctx) _).from e₃.0 o (e₃.1 ∙ e);
            reported = refl;
            same = refl;
          }

  loopback-Ends :
      (ctx : ProbeContext platform.Socket)
      → Ends (Settles loopback_id (LoopbackPassed ctx) ctx) (run_loopback platform dtls ctx)
  unfolding run_loopback
  loopback-Ends ctx = bind-Holds (ask-Holds _) λ started e₂. bind-Holds (ask-Holds _) λ t e₃.
      settle-Ends platform dtls ctx _ _ _ _ started t λ o ms e. record {
        outcome = o;
        looped = (loopback-Yields platform dtls (budget_from ctx)).from e₃.0 o (e₃.1 ∙ e);
        reported = refl;
        same = refl;
      }

  -- The DTLS checks always end in a result with their ids, and never change the context. They pass
  -- only with a handshake that was made within the timeout: the remote check with the first address of
  -- the context and its port, the loopback check with the address of its own listener, whose server
  -- then ended. A pass reports the fingerprint and the size of the first certificate of the peer on
  -- that connection.
  pub run-Passed :
      (ctx : ProbeContext platform.Socket) (w : platform.World)
      → Ended (Settles remote_id (RemotePassed ctx) ctx) (run_remote platform dtls ctx w)
        × Ended (Settles loopback_id (LoopbackPassed ctx) ctx) (run_loopback platform dtls ctx w)
  run-Passed ctx w = (
    outcome-Ends (run_remote platform dtls ctx) w (remote-Ends ctx),
    outcome-Ends (run_loopback platform dtls ctx) w (loopback-Ends ctx),
  )
