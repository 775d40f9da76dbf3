-- ===== src/Probe/Platform.antt =====
-- What the checks use of tokio, std, if-addrs, the digest crates and the derived formatting. The
-- world is whatever the operations read and change.
use webrtc_doctor.Prelude.{ℕ, List, Option, ◌/◌, ◌%◌, ◌^◌, ◌==◌, if◌then◌else◌}
use webrtc_doctor.Prelude.Text.{Text}
use webrtc_doctor.Stun.Types.{IpAddr, SocketAddr}
use webrtc_doctor.Turn.Message.{Digests}
use webrtc_doctor.Turn.Allocate.{AllocateError}
use webrtc_doctor.Binding.{BindingError}
use webrtc_doctor.Echo.Permission.{CpError}
use webrtc_doctor.Echo.Collect.{Round, Due}

-- An `io::Result`, with the text of the error.
pub data Answer {ℓ} (A : Type ℓ) : Type ℓ where
  given : A → Answer A
  io_failed : Text → Answer A

-- What `timeout(d, recv_from(&mut buf))` gives, with the bytes that it wrote.
pub data Received : Type 0 where
  datagram : List ℕ → SocketAddr → Received
  recv_failed : Text → Received
  elapsed : Received

pub record Platform : Type 1 where
  pub World : Type 0
  pub Socket : Type 0
  -- `Instant::now`, `SystemTime::now` since the epoch, and the address of a local variable
  pub now : World → ℕ × World
  pub since_epoch : World → Option ℕ × World
  pub stack_addr : World → ℕ × World
  pub lookup_host : Text → World → Answer (List SocketAddr) × World
  pub bind : SocketAddr → World → Answer Socket × World
  pub send_to : Socket → List ℕ → SocketAddr → World → Answer (Unit {0}) × World
  -- the size of the buffer, the time allowed
  pub recv_from : Socket → ℕ → ℕ → World → Received × World
  pub sleep : ℕ → World → Unit {0} × World
  -- what a loop that reads the clock and then the socket, again and again, would be given until the
  -- clock has reached a deadline, which it does after finitely many rounds
  pub rounds : Socket → ℕ → World → List Round × World
  pub rounds-Due :
      (sock : Socket) (deadline : ℕ) (w : World) → Due deadline ((rounds sock deadline w).0)
  -- name and address
  pub get_if_addrs : World → Answer (List (Text × IpAddr)) × World
  pub digests : Digests
  pub lossy : List ℕ → Text
  pub show_ip : IpAddr → Text
  pub show_addr : SocketAddr → Text
  pub parse_addr : Text → Option SocketAddr
  pub show_duration : ℕ → Text
  -- `{:.0}` of the quotient
  pub show_rounded : ℕ → ℕ → Text
  pub show_binding_error : BindingError → Text
  pub show_allocate_error : AllocateError → Text
  pub show_cp_error : CpError → Text

-- `as_millis() as u64`
abbrev pub millis : ℕ → ℕ
millis d = d / 1000000 % 2 ^ 64

-- The timeout of a check: five seconds where none is set.
abbrev pub timeout_or_default : ℕ → ℕ
timeout_or_default d = if d == 0 then 5000000000 else d
