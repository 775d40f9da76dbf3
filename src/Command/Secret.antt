-- ===== src/Command/Secret.antt =====
-- `resolve_secret` and `read_line_from_stdin` of main.rs. The prompt on a terminal is left out.
pub mod Laws
use webrtc_doctor.Prelude.{
  ℕ, Bool, true, false, ◌||◌, List, [], ◌∷◌, ◌++◌, Option, none, some, ◌==◌, if◌then◌else◌,
}
use webrtc_doctor.Prelude.Text.{Text, text}
use webrtc_doctor.Probe.Timed.{Io}
use webrtc_doctor.Command.Split.{trim_end_matches}
use webrtc_doctor.Command.Target.{message}
use webrtc_doctor.Command.Program.{Program, ◌>>=◌, pure, bail, io}

abbrev pub is_newline : ℕ → Bool
is_newline c = (c == b'\n') || (c == b'\r')

-- A line without the newlines at its end, which may not be empty.
unfoldable pub nonempty_line : {W : Type 0} → Text → Text → Program W Text
nonempty_line label [] = bail (message (text "got empty input for " ++ label ++ text " on stdin"))
nonempty_line label (c ∷ cs) = pure (c ∷ cs)

unfoldable pub read_line_from_stdin : {W : Type 0} → Io W Text → Text → Program W Text
unfolding nonempty_line
read_line_from_stdin read_line label = do
  line ← io read_line
  nonempty_line label (trim_end_matches is_newline line)

unfoldable pub resolve_secret :
    {W : Type 0} → Io W Text → Option Text → Bool → Text → Program W (Option Text)
resolve_secret read_line flag_value from_stdin label =
    let line = (do s ← read_line_from_stdin read_line label; pure (some s)) in
    if from_stdin then line else pure flag_value
