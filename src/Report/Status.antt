-- ===== src/Report/Status.antt =====
-- `CheckStatus` and `CheckResult` of result.rs.
use webrtc_doctor.Prelude.{ℕ, Bool, true, false, Option}
use webrtc_doctor.Prelude.Text.{Text}
use webrtc_doctor.Report.Json.{Json}

pub data CheckStatus : Type 0 where
  pass warn fail skip : CheckStatus

abbrev pub is_failure : CheckStatus → Bool
is_failure fail = true
is_failure _ = false

-- `status == CheckStatus::Pass`
abbrev pub is_pass : CheckStatus → Bool
is_pass pass = true
is_pass _ = false

pub record CheckResult : Type 0 where
  pub id : Text
  pub name : Text
  pub status : CheckStatus
  pub latency_ms : ℕ
  pub summary : Text
  pub detail : Option Json
