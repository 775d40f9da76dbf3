-- ===== src/Report/CheckResult.antt =====
-- The constructors of `CheckResult`, result.rs.
use webrtc_doctor.Prelude.{ℕ, none, some}
use webrtc_doctor.Prelude.Text.{Text}
use webrtc_doctor.Report.Json.{Json}
use webrtc_doctor.Report.Status.{CheckStatus, CheckResult}

abbrev build : CheckStatus → Text → Text → ℕ → Text → CheckResult
build status id name latency_ms summary = record {
  id = id;
  name = name;
  status = status;
  latency_ms = latency_ms;
  summary = summary;
  detail = none;
}

abbrev pub pass : Text → Text → ℕ → Text → CheckResult
pass = build CheckStatus.pass

abbrev pub fail : Text → Text → ℕ → Text → CheckResult
fail = build CheckStatus.fail

abbrev pub warn : Text → Text → ℕ → Text → CheckResult
warn = build CheckStatus.warn

abbrev pub skip : Text → Text → Text → CheckResult
skip id name summary = build CheckStatus.skip id name 0 summary

abbrev pub with_detail : CheckResult → Json → CheckResult
with_detail r detail = record r { detail = some detail }
