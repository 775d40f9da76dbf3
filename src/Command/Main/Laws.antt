-- ===== src/Command/Main/Laws.antt =====
-- How the process of main.rs exits.
use webrtc_doctor.Prelude.{◌≡◌, some, false}
use webrtc_doctor.Prelude.Text.{Text}
use webrtc_doctor.Report.Status.{fail, warn}
use webrtc_doctor.Report.Verdict.{Verdict, Report}
use webrtc_doctor.Report.Verdict.Laws.{count_status}
use webrtc_doctor.Command.Program.{Program, reached, panicked}
use webrtc_doctor.Command.Services.{Services}
use webrtc_doctor.Command.Main.{Invocation, Flags, render, run_command}

-- A line that standard output did not take, in some world.
pub record Refused (services : Services) : Type 0 where
  pub line : Text
  pub before : services.platform.World
  pub refused : (services.println line before).0 ≡ false

module _ (services : Services) where
  -- Code that panics only if standard output has refused a line.
  record Blames {A : Type 0} (m : Program services.platform.World A) : Type 0 where
    pub from : (w : services.platform.World) → m w ≡ panicked → Refused services

-- The command has ended in a report in which no result failed and none warned, and the report has been
-- rendered.
pub record Clean (services : Services) (flags : Flags) (invocation : Invocation)
    (w : services.platform.World) : Type 0 where
  pub header : Text
  pub report : Report
  pub ended : services.platform.World
  pub ran : run_command services invocation w ≡ reached (some (header, report)) ended
  pub final : services.platform.World
  pub rendered : render services flags header report ended ≡ reached tt final
  pub no_failure : count_status fail report.results ≡ 0
  pub no_warning : count_status warn report.results ≡ 0
