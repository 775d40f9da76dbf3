-- ===== src/Command/Target.antt =====
-- target.rs: the target of the `stun`, `turn`, `turns` and `ice` commands.
pub mod Laws
use webrtc_doctor.Prelude.{
  ℕ, Bool, true, false, ◌||◌, List, [], ◌∷◌, ◌++◌, Option, none, some, ok, err, Result, ◌>>=◌,
  ok_or, map_err, map, ◌==◌, if◌then◌else◌,
}
use webrtc_doctor.Prelude.Text.{Text, text}
use webrtc_doctor.Command.Split.{split_once, rsplit_once, to_ascii_lowercase, trim_matches, any_eq}
use webrtc_doctor.Command.Number.{ParseIntError, parse_u16}

-- An `anyhow::Error`: its message, and the error under it.
pub data CliError : Type 0 where
  message : Text → CliError
  context : Text → ParseIntError → CliError

pub record Target : Type 0 where
  pub host : Text
  pub port : ℕ

abbrev pub is_bracket : ℕ → Bool
is_bracket c = (c == b'[') || (c == b']')

-- `join(", ")`
unfoldable pub join_comma : List Text → Text
join_comma [] = []
join_comma (s ∷ []) = s
join_comma (s ∷ t ∷ ss) = s ++ text ", " ++ join_comma (t ∷ ss)

unfoldable pub expected : List Text → Text
unfolding join_comma
expected (one ∷ []) = text "a '" ++ one ++ text ":' URI"
expected many = text "one of: " ++ join_comma (map (λ s. text "'" ++ s ++ text ":'") many)

-- `match rest.rsplit_once(':')`
unfoldable pub host_and_port : Text → Text → ℕ → Option (Text × Text) → Result CliError (Text × ℕ)
host_and_port url rest default_port (some (h, p)) = do
  port ← map_err (context (text "invalid port in `" ++ url ++ text "`")) (parse_u16 p)
  ok (trim_matches is_bracket h, port)
host_and_port url rest default_port none = ok (rest, default_port)

unfoldable pub nonempty : Text → Text → ℕ → Result CliError Target
nonempty url [] port = err (message (text "empty host in `" ++ url ++ text "`"))
nonempty url (c ∷ cs) port = ok (record { host = c ∷ cs; port = port })

-- The scheme is one of those that the caller accepts, in any case.
unfoldable pub check_scheme : Text → Text → List Text → Result CliError (Unit {0})
check_scheme url scheme allowed_schemes =
    if any_eq (to_ascii_lowercase scheme) allowed_schemes
    then ok tt
    else err (
        message (
          text "this subcommand expects "
          ++ expected allowed_schemes
          ++ text ", got '"
          ++ scheme
          ++ text ":' (in `"
          ++ url
          ++ text "`)"))

unfoldable pub parse_stun_like : Text → List Text → ℕ → Result CliError Target
unfolding host_and_port nonempty check_scheme expected
parse_stun_like url allowed_schemes default_port = do
  p ←
      ok_or (split_once b':' url)
        (message (text "missing scheme in `" ++ url ++ text "` (expected e.g. stun:host:port)"))
  known ← check_scheme url p.0 allowed_schemes
  t ← host_and_port url p.1 default_port (rsplit_once b':' p.1)
  nonempty url t.0 t.1
