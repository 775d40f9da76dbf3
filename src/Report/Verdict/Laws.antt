-- ===== src/Report/Verdict/Laws.antt =====
-- The verdict is the worst status of the results, and the counts are those of the results.
use webrtc_doctor.Prelude.{
  ℕ, zero, suc, ◌+◌, ◌≡◌, ◌↔◌, refl, arith, Bool, true, false, List, [], ◌∷◌, ◌++◌, length,
  if◌then◌else◌,
}
use webrtc_doctor.Report.Status.{CheckStatus, pass, warn, fail, skip, CheckResult}
use webrtc_doctor.Report.Verdict.{
  Verdict, healthy, warnings, failed, exit_code, Report, verdict_from, verdict, counts_from, counts,
}

-- How many results have a status.
abbrev weight : CheckStatus → CheckStatus → ℕ
weight pass pass = 1
weight warn warn = 1
weight fail fail = 1
weight skip skip = 1
weight _ _ = 0

abbrev pub count_status : CheckStatus → List CheckResult → ℕ
count_status x [] = 0
count_status x (r ∷ rs) = weight x r.status + count_status x rs

-- The verdict for a number of failures and a number of warnings.
abbrev pub verdict_of : ℕ → ℕ → Verdict
verdict_of zero zero = healthy
verdict_of zero (suc warns) = warnings
verdict_of (suc fails) warns = failed

verdict_from-verdict_of :
    (rs : List CheckResult) (any_warn : Bool)
    → verdict_from rs any_warn
      ≡ verdict_of (count_status fail rs) ((if any_warn then 1 else 0) + count_status warn rs)
unfolding verdict_from
verdict_from-verdict_of [] true = refl
verdict_from-verdict_of [] false = refl
verdict_from-verdict_of (r ∷ rs) any_warn =
    ground (arith, verdict_from-verdict_of rs true, verdict_from-verdict_of rs any_warn)

counts_from-count_status :
    (rs : List CheckResult) (p w f s : ℕ)
    → counts_from rs (p, w, f, s) ≡ (
      p + count_status pass rs,
      w + count_status warn rs,
      f + count_status fail rs,
      s + count_status skip rs,
    )
unfolding counts_from
counts_from-count_status [] p w f s = ground arith
counts_from-count_status (r ∷ rs) p w f s = ground (
  arith,
  counts_from-count_status rs (p + 1) w f s,
  counts_from-count_status rs p (w + 1) f s,
  counts_from-count_status rs p w (f + 1) s,
  counts_from-count_status rs p w f (s + 1),
)

count_status-length :
    (rs : List CheckResult)
    → count_status pass rs + count_status warn rs + count_status fail rs + count_status skip rs
      ≡ length rs
count_status-length [] = omega arith
count_status-length (r ∷ rs) = ground (arith, count_status-length rs)

-- The verdict is `failed` if a result failed, else `warnings` if one warned, else `healthy`; the
-- counts are the numbers of results with each status, and together the number of results.
pub verdict-counts :
    (report : Report)
    → (verdict report
        ≡ verdict_of (count_status fail report.results) (count_status warn report.results))
      × (counts report ≡ (
        count_status pass report.results,
        count_status warn report.results,
        count_status fail report.results,
        count_status skip report.results,
      ))
      × (count_status pass report.results
            + count_status warn report.results
            + count_status fail report.results
            + count_status skip report.results
          ≡ length report.results)
unfolding verdict counts
verdict-counts report = (
  ground (arith, verdict_from-verdict_of report.results false),
  ground (arith, counts_from-count_status report.results 0 0 0 0),
  count_status-length report.results,
)

-- The process exits with 0 exactly when no result failed and none warned.
pub exit_code-zero :
    (report : Report)
    → (exit_code (verdict report) ≡ 0)
      ↔ ((count_status fail report.results ≡ 0) × (count_status warn report.results ≡ 0))
unfolding verdict
exit_code-zero report = ground (arith, verdict_from-verdict_of report.results false)

count_status-append :
    (x : CheckStatus) (rs ss : List CheckResult)
    → count_status x (rs ++ ss) ≡ count_status x rs + count_status x ss
count_status-append x [] ss = omega arith
count_status-append x (r ∷ rs) ss = omega (arith, count_status-append x rs ss)

-- The worse of two verdicts.
abbrev pub worse : Verdict → Verdict → Verdict
worse failed v = failed
worse warnings failed = failed
worse warnings _ = warnings
worse healthy v = v

-- The verdict on results that are put together is the worse of the two verdicts.
pub verdict-append :
    (rs ss : List CheckResult) (m n k : ℕ)
    → verdict (record { results = rs ++ ss; total_ms = m })
      ≡ worse
          (verdict (record { results = rs; total_ms = n }))
          (verdict (record { results = ss; total_ms = k }))
unfolding verdict
verdict-append rs ss m n k = ground (
  arith,
  verdict_from-verdict_of (rs ++ ss) false,
  verdict_from-verdict_of rs false,
  verdict_from-verdict_of ss false,
  count_status-append fail rs ss,
  count_status-append warn rs ss,
)
