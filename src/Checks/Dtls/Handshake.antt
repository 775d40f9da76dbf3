-- ===== src/Checks/Dtls/Handshake.antt =====
-- `dial`, `run_remote_handshake` and `run_loopback_handshake` of checks/dtls.rs. They run under a
-- timeout, so that what they wait for can be cut off.
use webrtc_doctor.Prelude.{ℕ, ◌-◌, List, [], ◌∷◌, length, Option, some}
use webrtc_doctor.Prelude.Text.{Text, text}
use webrtc_doctor.Stun.Types.{v4, SocketAddr}
use webrtc_doctor.Probe.Platform.{Platform, Answer, millis}
use webrtc_doctor.Probe.Timed.{Io, Task, ◌>>=◌, at_once, read, done, ignore_error}
use webrtc_doctor.Checks.Common.{local_bind}
use webrtc_doctor.Checks.Dtls.Fingerprint.{Sha256, sha256_fingerprint}

-- What the checks use of tokio and webrtc-dtls. Where an operation waits, it is given the time that
-- the whole handshake is allowed.
pub record Dtls (World : Type 0) : Type 1 where
  pub Certificate : Type 0
  pub UdpSocket : Type 0
  pub Listener : Type 0
  pub Server : Type 0
  pub Conn : Type 0
  pub sha256 : Sha256
  pub generate_self_signed : Text → Io World Certificate
  pub bind : ℕ → SocketAddr → Task World UdpSocket
  pub connect : ℕ → UdpSocket → SocketAddr → Task World (Unit {0})
  -- the handshake as a client, with the certificate and no verification of the peer's
  pub handshake : ℕ → UdpSocket → Certificate → Task World Conn
  -- those of `connection_state`
  pub peer_certificates : ℕ → Conn → Task World (List (List ℕ))
  pub srtp_profile : Conn → Text
  pub close : ℕ → Conn → Task World (Unit {0})
  -- the time allowed, where there is a limit
  pub listen : Option ℕ → SocketAddr → Certificate → Task World Listener
  pub addr : Listener → Io World SocketAddr
  -- the task that accepts one connection and closes it, and its end
  pub spawn_server : Listener → World → Server × World
  -- what `accept` gives, again and again, until the process is killed
  pub accepts : Listener → World → List (Answer SocketAddr) × World
  pub join : ℕ → Server → Task World (Unit {0})

pub record Outcome : Type 0 where
  pub handshake_ms : ℕ
  pub fingerprint_sha256 : Text
  pub srtp_profile : Text
  pub peer_cert_len : ℕ

-- `first().cloned().unwrap_or_default()`
abbrev pub first_or_empty : List (List ℕ) → List ℕ
first_or_empty [] = []
first_or_empty (c ∷ cs) = c

module _ (platform : Platform) (dtls : Dtls platform.World) (budget : ℕ) where
  unfoldable pub dial : SocketAddr → Task platform.World Outcome
  dial target = do
    sock ← dtls.bind budget (local_bind platform target.ip)
    u ← dtls.connect budget sock target
    cert ← at_once (dtls.generate_self_signed (text "webrtc-doctor-client"))
    handshake_started ← read platform.now
    conn ← dtls.handshake budget sock cert
    now ← read platform.now
    certificates ← dtls.peer_certificates budget conn
    closed ← ignore_error (dtls.close budget conn)
    done (record {
      handshake_ms = millis (now - handshake_started);
      fingerprint_sha256 = sha256_fingerprint dtls.sha256 (first_or_empty certificates);
      srtp_profile = dtls.srtp_profile conn;
      peer_cert_len = length (first_or_empty certificates);
    })

  abbrev pub run_remote_handshake : SocketAddr → Task platform.World Outcome
  run_remote_handshake = dial

  unfoldable pub run_loopback_handshake : Task platform.World Outcome
  run_loopback_handshake = do
    server_cert ← at_once (dtls.generate_self_signed (text "webrtc-doctor-server"))
    listener ← dtls.listen (some budget) (record { ip = v4 0x7F000001; port = 0 }) server_cert
    server_addr ← at_once (dtls.addr listener)
    server ← read (dtls.spawn_server listener)
    outcome ← dial server_addr
    joined ← dtls.join budget server
    done outcome
