-- ===== src/Command/Services.antt =====
-- Everything outside of the program that a command can use.
use webrtc_doctor.Prelude.{ℕ, Bool, List}
use webrtc_doctor.Report.Verdict.{Report}
use webrtc_doctor.Prelude.Text.{Text}
use webrtc_doctor.Probe.Platform.{Platform, Answer}
use webrtc_doctor.Probe.Timed.{Io}
use webrtc_doctor.Checks.Tls.{Tls}
use webrtc_doctor.Checks.Signaling.{WebSockets}
use webrtc_doctor.Checks.Dtls.Handshake.{Dtls}

-- The colours and styles of `colored`.
pub data Style : Type 0 where
  green yellow red dimmed cyan magenta blue bold normal : Style

pub record Services : Type 1 where
  pub platform : Platform
  pub tls : Tls platform.World
  pub sockets : WebSockets platform.World
  pub dtls : Dtls platform.World
  -- `stdin().lock().read_line(&mut line)`
  pub read_line : Io platform.World Text
  -- `env!("CARGO_PKG_VERSION")`
  pub version : Text
  -- `serde_json::to_string_pretty`
  pub to_string_pretty : Report → Answer Text
  -- a text in styles, at the left of a column of this width
  pub paint : List Style → ℕ → Text → Text
  -- whether standard output takes a line
  pub println : Text → platform.World → Bool × platform.World
  -- `Instant::now`, in nanoseconds
  pub clock : platform.World → ℕ
