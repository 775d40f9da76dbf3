-- ===== src/Command/HostPort.antt =====
-- `parse_host_port` of main.rs: the target of the `dtls` command and the address of `serve`.
pub mod Laws
use webrtc_doctor.Prelude.{
  ℕ, Bool, true, false, List, [], ◌∷◌, ◌++◌, Option, none, some, ok, err, Result, ◌>>=◌, ok_or,
  map_err, if◌then◌else◌,
}
use webrtc_doctor.Prelude.Text.{Text, text}
use webrtc_doctor.Command.Split.{split_once, rsplit_once, has, strip_prefix}
use webrtc_doctor.Command.Number.{parse_u16, show_parse_int_error}

-- After the `[` of a bracketed address: the address, and what stands after `]:`.
unfoldable pub bracketed : Text → Result Text (Text × Text)
bracketed rest = do
  p ← ok_or (split_once b']' rest) (text "missing closing `]` for IPv6 literal")
  port ← ok_or (strip_prefix b':' p.1) (text "expected `:port` after `]`")
  ok (p.0, port)

-- Split on the last colon, where it is the only one.
unfoldable pub bare : Text → Result Text (Text × Text)
bare s = do
  p ← ok_or (rsplit_once b':' s) (text "expected `host:port`")
  if has b':' p.0 then err (text "IPv6 literal must be bracketed, e.g. `[::1]:5684`") else ok p

unfoldable pub numbered : Text × Text → Result Text (Text × ℕ)
numbered ([], p) = err (text "empty host")
numbered (c ∷ host, p) = do
  port ← map_err (λ e. text "bad port: " ++ show_parse_int_error e) (parse_u16 p)
  ok (c ∷ host, port)

unfoldable pub parse_host_port : Text → Result Text (Text × ℕ)
unfolding bracketed bare numbered
parse_host_port s = do
  p ← elim (strip_prefix b'[' s) [ some rest ↦ bracketed rest | none ↦ bare s ]
  numbered p
