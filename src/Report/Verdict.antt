-- ===== src/Report/Verdict.antt =====
-- `Verdict` and `Report` of pipeline.rs.
pub mod Laws
use webrtc_doctor.Prelude.{ℕ, zero, suc, ◌+◌, Bool, true, false, List, [], ◌∷◌, if◌then◌else◌}
use webrtc_doctor.Report.Status.{CheckStatus, pass, warn, fail, skip, CheckResult}

pub data Verdict : Type 0 where
  healthy warnings failed : Verdict

abbrev pub exit_code : Verdict → ℕ
exit_code healthy = 0
exit_code failed = 1
exit_code warnings = 2

pub record Report : Type 0 where
  pub results : List CheckResult
  pub total_ms : ℕ

-- The loop of `Report::verdict`, with its early return.

verdict_from : List CheckResult → Bool → Verdict
verdict_from [] any_warn = if any_warn then warnings else healthy
verdict_from (r ∷ rs) any_warn = elim r.status [
  | fail ↦ failed
  | warn ↦ verdict_from rs true
  | _ ↦ verdict_from rs any_warn
]

unfoldable pub verdict : Report → Verdict
unfolding verdict_from
verdict report = verdict_from report.results false

-- (pass, warn, fail, skip)
abbrev pub Counts : Type 0
Counts = ℕ × ℕ × ℕ × ℕ

abbrev tally : CheckStatus → Counts → Counts
tally pass (p, w, f, s) = (p + 1, w, f, s)
tally warn (p, w, f, s) = (p, w + 1, f, s)
tally fail (p, w, f, s) = (p, w, f + 1, s)
tally skip (p, w, f, s) = (p, w, f, s + 1)

counts_from : List CheckResult → Counts → Counts
counts_from [] c = c
counts_from (r ∷ rs) c = counts_from rs (tally r.status c)

unfoldable pub counts : Report → Counts
unfolding counts_from
counts report = counts_from report.results (0, 0, 0, 0)
