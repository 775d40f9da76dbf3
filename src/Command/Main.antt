-- ===== src/Command/Main.antt =====
-- `main` of main.rs, from the parsed command line to the exit code of the process.
pub mod Laws
use webrtc_doctor.Prelude.{ℕ, Option, none, some, Bool, [], if◌then◌else◌}
use webrtc_doctor.Prelude.Text.{Text}
use webrtc_doctor.Command.Render.Pretty.{pretty, json}
use webrtc_doctor.Report.Verdict.{Report, verdict, exit_code}
use webrtc_doctor.Command.Program.{Progress, reached, bailed, panicked, ◌>>=◌, pure}
use webrtc_doctor.Command.Services.{Services}
use webrtc_doctor.Command.Single.{Command, Plan, probe, serve, plan, probe_plan, Planning}
use webrtc_doctor.Command.Full.{FullArgs, run_full}

pub data Invocation : Type 0 where
  single : Command → Invocation
  full : FullArgs → Invocation

-- `--json` and `--quiet`
pub record Flags : Type 0 where
  pub json : Bool
  pub quiet : Bool

unfoldable pub render : (services : Services) → Flags → Text → Report → Planning services (Unit {0})
render services flags header report =
    if flags.json
    then json services report
    else if flags.quiet
    then pure tt
    else pretty services report header

-- The header and the report of a command, which are rendered. The server mode has none.
abbrev pub Ending : Type 0
Ending = Option (Text × Report)

abbrev headed : Text → Option Report → Ending
headed header none = none
headed header (some report) = some (header, report)

abbrev header_of : (services : Services) → Plan services → Text
header_of services (probe header ctx checks) = header
header_of services (serve addr) = []

unfoldable pub finish : (services : Services) → Flags → Ending → Planning services (Option Report)
finish services flags none = pure none
finish services flags (some (header, report)) = do
  u ← render services flags header report
  pure (some report)

unfoldable pub run_command : (services : Services) → Invocation → Planning services Ending
run_command services (single command) = do
  p ← plan services command
  o ← probe_plan services p
  pure (headed (header_of services p) o)
run_command services (full args) = do p ← run_full services args; pure (some p)

-- `main`, up to the report that decides the exit code.
unfoldable pub main : (services : Services) → Flags → Invocation → Planning services (Option Report)
main services flags invocation = do o ← run_command services invocation; finish services flags o

-- `exit(report.verdict().exit_code())`, the code of an `Err` that `main` returns, and of a panic. A
-- process in the server mode does not exit by itself.
unfoldable pub process_exit : {W : Type 0} → Progress W (Option Report) → Option ℕ
process_exit (reached (some report) w) = some (exit_code (verdict report))
process_exit (reached none w) = none
process_exit (bailed e w) = some 1
process_exit panicked = some 101
