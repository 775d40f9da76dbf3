-- ===== src/Checks/TurnsAlloc/Link.antt =====
-- The TLS stream of `TurnsAllocateCheck` and one exchange of messages on it.
use webrtc_doctor.Prelude.{ℕ, ◌+◌, ◌≡◌, ◌∙◌, List, some}
use webrtc_doctor.Prelude.Text.{Text}
use webrtc_doctor.Report.Status.{CheckResult}
use webrtc_doctor.Stun.Types.{SocketAddr}
use webrtc_doctor.Probe.Context.{ProbeContext}
use webrtc_doctor.Probe.Platform.{Platform, given}
use webrtc_doctor.Probe.Timed.{finished}
use webrtc_doctor.Probe.Body.Laws.{Holds, bind-Holds, ask-Holds, pure-Holds, map-Holds}
use webrtc_doctor.Checks.Common.Laws.{
  elapsed-Holds, fail_now-Settles, or_io-Holds, or_timed-Holds, or_none-Holds, Settles,
}
use webrtc_doctor.Checks.Framing.{send_framed, recv_framed}
use webrtc_doctor.Checks.Tls.{Tls}
use webrtc_doctor.Checks.TurnsAlloc.{tls_connected, tls_exchange}
use webrtc_doctor.Checks.TurnsAlloc.Outcomes.{id}

module _ (platform : Platform) (tls : Tls platform.World) where
  -- A TLS stream whose server proved that it has the name of the host.
  pub record Secured (host : Text) (server : SocketAddr) (stream : tls.TlsStream) : Type 0 where
    pub server_name : tls.ServerName
    pub valid : tls.server_name host ≡ some server_name
    pub time : ℕ
    pub tcp : tls.TcpStream
    pub before : platform.World
    pub connected : (tls.tcp_connect time server before).0 ≡ finished tcp
    pub after : platform.World
    pub shaken : (tls.tls_connect time server_name tcp after).0 ≡ finished stream

  -- A request that went out in a frame, and a frame that came in behind it.
  pub record Framed (stream : tls.TlsStream) (request reply : List ℕ) : Type 0 where
    pub before : platform.World
    pub sent : (send_framed (tls.writer stream) request before).0 ≡ given tt
    pub deadline : ℕ
    pub after : platform.World
    pub received : (recv_framed (tls.reader stream deadline) after).0 ≡ finished reply

module _ (platform : Platform) (tls : Tls platform.World)
    {Passed : CheckResult → ProbeContext platform.Socket → Type 0} where
  pub tls_connected-Holds :
      (ctx : ProbeContext platform.Socket) (server : SocketAddr) (host : Text) (started time : ℕ)
      → Holds
          (Settles id Passed ctx)
          (λ link. Secured platform tls host server link.0)
          (tls_connected platform tls ctx server host started time)
  unfolding tls_connected
  tls_connected-Holds ctx server host started time =
      bind-Holds (or_none-Holds platform _ _ (fail_now-Settles platform _ _ _ _ _))
        λ server_name valid. bind-Holds (ask-Holds _) λ tls_started e₀.
          bind-Holds (ask-Holds _) λ connected e₁.
            bind-Holds
              (or_timed-Holds platform _ _ _ (λ e. fail_now-Settles platform _ _ _ _ _)
                (fail_now-Settles platform _ _ _ _ _))
              λ tcp e₂. bind-Holds (ask-Holds _) λ shaken e₃.
                bind-Holds
                  (or_timed-Holds platform _ _ _ (λ e. fail_now-Settles platform _ _ _ _ _)
                    (fail_now-Settles platform _ _ _ _ _))
                  λ stream e₄. bind-Holds (elapsed-Holds platform _) λ ms e₅. pure-Holds _ (record {
                    server_name = server_name;
                    valid = valid;
                    time = time;
                    tcp = tcp;
                    before = e₁.0;
                    connected = e₁.1 ∙ e₂;
                    after = e₃.0;
                    shaken = e₃.1 ∙ e₄;
                  })

  pub tls_exchange-Holds :
      (ctx : ProbeContext platform.Socket) (started : ℕ) (stream : tls.TlsStream) (time : ℕ)
      (kind missing : Text) (request : List ℕ)
      → Holds
          (Settles id Passed ctx)
          (Framed platform tls stream request)
          (tls_exchange platform tls ctx started stream time kind missing request)
  unfolding tls_exchange
  tls_exchange-Holds ctx started stream time kind missing request =
      bind-Holds (ask-Holds _) λ sent e₁.
        bind-Holds (or_io-Holds platform _ _ (λ e. fail_now-Settles platform _ _ _ _ _)) λ done e₂.
          bind-Holds (ask-Holds _) λ waiting e₃. bind-Holds (ask-Holds _) λ received e₄.
            map-Holds
              (or_timed-Holds platform _ _ _ (λ e. fail_now-Settles platform _ _ _ _ _)
                (fail_now-Settles platform _ _ _ _ _))
              λ reply e₅. record {
                before = e₁.0;
                sent = e₁.1 ∙ e₂;
                deadline = waiting + time;
                after = e₄.0;
                received = e₄.1 ∙ e₅;
              }
