-- ===== src/Checks/Framing.antt =====
-- `send_framed` and `recv_framed` of checks/turns_alloc.rs: a message on a byte stream, behind its
-- length.
pub mod Laws
use webrtc_doctor.Prelude.{ℕ, ◌+◌, ◌*◌, List, [], ◌∷◌, length}
use webrtc_doctor.Bytes.{as_u16, be16}
use webrtc_doctor.Probe.Platform.{Answer}
use webrtc_doctor.Probe.Timed.{Timed, Array, Io, io_then, Task, ◌>>=◌, done}

-- What `AsyncWriteExt` and `AsyncReadExt` give on a stream.
pub record Writer (W : Type 0) : Type 0 where
  pub write_all : List ℕ → Io W (Unit {0})
  pub flush : Io W (Unit {0})

pub record Reader (W : Type 0) : Type 0 where
  pub read_exact : (n : ℕ) → Task W (Array n)

-- `u16::from_be_bytes`
unfoldable pub from_be_bytes : List ℕ → ℕ → ℕ
from_be_bytes [] n = n
from_be_bytes (b ∷ bs) n = from_be_bytes bs (n * 256 + b)

unfoldable pub send_framed : {W : Type 0} → Writer W → List ℕ → Io W (Unit {0})
send_framed w msg =
    io_then (w.write_all (be16 (as_u16 (length msg)))) λ u. io_then (w.write_all msg) λ v. w.flush

unfoldable pub recv_framed : {W : Type 0} → Reader W → Task W (List ℕ)
recv_framed r = do
  len_buf ← r.read_exact 2
  msg ← r.read_exact (from_be_bytes len_buf.0 0)
  done msg.0
