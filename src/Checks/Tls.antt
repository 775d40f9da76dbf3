-- ===== src/Checks/Tls.antt =====
-- What `TurnsAllocateCheck` uses of tokio and rustls, with the web's root certificates.
use webrtc_doctor.Prelude.{ℕ, Option}
use webrtc_doctor.Prelude.Text.{Text}
use webrtc_doctor.Stun.Types.{SocketAddr}
use webrtc_doctor.Probe.Timed.{Task}
use webrtc_doctor.Checks.Framing.{Writer, Reader}

pub record Tls (World : Type 0) : Type 1 where
  pub ServerName : Type 0
  pub TcpStream : Type 0
  pub TlsStream : Type 0
  -- `ServerName::try_from`
  pub server_name : Text → Option ServerName
  -- under a timeout
  pub tcp_connect : ℕ → SocketAddr → Task World TcpStream
  pub tls_connect : ℕ → ServerName → TcpStream → Task World TlsStream
  pub writer : TlsStream → Writer World
  -- the instant at which the timeout around the reads ends
  pub reader : TlsStream → ℕ → Reader World
