-- ===== src/Tests/Runs.antt =====
-- The checks, the pipelines and the reports at concrete inputs.
use webrtc_doctor.Prelude.{
  ℕ, ◌+◌, ◌≡◌, ◌↔◌, refl, arith, true, List, [], ◌∷◌, ◌++◌, some, length, bytes_eq, All,
}
use webrtc_doctor.Prelude.Text.{Text, text}
use webrtc_doctor.Report.Status.{pass, warn, fail, skip, CheckResult}
use webrtc_doctor.Report.CheckResult as Results
use webrtc_doctor.Report.Verdict.{Report, verdict, counts}
use webrtc_doctor.Report.Verdict.Laws.{verdict_of, count_status, verdict-counts}
use webrtc_doctor.Pipeline.{Check, run, run_from, run_check, missing_of, join}
use webrtc_doctor.Pipeline.Execution.{IsNamed, Execution}
use webrtc_doctor.Pipeline.Laws.{run-Execution}
use webrtc_doctor.Probe.Context.{ProbeContext}
use webrtc_doctor.Probe.Body.Laws.{Ended}
use webrtc_doctor.Checks.Common.Laws.{Settles}
use webrtc_doctor.Checks.Dns as Dns
use webrtc_doctor.Checks.Stun as Stun
use webrtc_doctor.Checks.TurnAlloc as TurnAlloc
use webrtc_doctor.Checks.TurnEcho as TurnEcho
use webrtc_doctor.Checks.IceGather as IceGather
use webrtc_doctor.Checks.Dns.Laws.{Resolved, run-Resolved}
use webrtc_doctor.Checks.Stun.Laws.{Mapped, run-Mapped}
use webrtc_doctor.Checks.TurnAlloc.Allocated.{Allocated}
use webrtc_doctor.Checks.TurnAlloc.Laws.{run-Allocated}
use webrtc_doctor.Checks.IceGather.Laws.{Tally, count_kinds-gather, run-Unchanged}
use webrtc_doctor.Checks.IceGather.{is_useful_host_address}
use webrtc_doctor.Checks.IceGather.Ranges.{IsDropped, is_useful_host_address_iff}
use webrtc_doctor.Checks.Runs.{stun_checks, turn_checks, ice_checks, Completed, pipelines-Completed}
use webrtc_doctor.Stun.Types.{IsIp}
use webrtc_doctor.Probe.Platform.{Received}
use webrtc_doctor.Tests.Inputs.{
  relay, relay-IsSocketAddr, test_platform, deliveries, interfaces, test_context, session_context,
}

abbrev mixed : List CheckResult
mixed =
    Results.pass (1 ∷ []) [] 3 [] ∷ Results.warn (2 ∷ []) [] 4 [] ∷ Results.skip (3 ∷ []) [] [] ∷ []

abbrev mixed_report : Report
mixed_report = record { results = mixed; total_ms = 7 }

verdict-counts_example :
    (verdict mixed_report ≡ verdict_of (count_status fail mixed) (count_status warn mixed))
    × (counts mixed_report ≡ (
      count_status pass mixed,
      count_status warn mixed,
      count_status fail mixed,
      count_status skip mixed,
    ))
    × (count_status pass mixed
          + count_status warn mixed
          + count_status fail mixed
          + count_status skip mixed
        ≡ length mixed)
verdict-counts_example = verdict-counts mixed_report

-- Three checks on a counter: the second needs the first, the third needs one that is not there.
abbrev step : Text → List Text → Check ℕ
step id needs = record {
  id = id;
  name = [];
  requires = needs;
  run = λ n. some (Results.pass id [] n [], n + 1);
}

abbrev three : List (Check ℕ)
three = step (1 ∷ []) [] ∷ step (2 ∷ []) ((1 ∷ []) ∷ []) ∷ step (3 ∷ []) ((4 ∷ []) ∷ []) ∷ []

step-IsNamed : (id : Text) (needs : List Text) → IsNamed (step id needs)
step-IsNamed id needs s s' r e = ground arith

abbrev three_report : Report
three_report = record {
  results =
      Results.pass (1 ∷ []) [] 0 []
      ∷ Results.pass (2 ∷ []) [] 1 []
      ∷ Results.skip (3 ∷ []) [] (text "prerequisite not satisfied: " ++ (4 ∷ []))
      ∷ [];
  total_ms = 0;
}

three_run : run (λ n. n) three 0 ≡ some (three_report, 2)
unfolding run run_from run_check missing_of bytes_eq join
three_run = refl

run-Execution_example : Execution [] three 0 three_report.results 2
run-Execution_example =
    run-Execution (λ n. n) three 0 2 three_report
      (
        step-IsNamed (1 ∷ []) [],
        (step-IsNamed (2 ∷ []) ((1 ∷ []) ∷ []), (step-IsNamed (3 ∷ []) ((4 ∷ []) ∷ []), tt)),
      )
      three_run

abbrev State : Type 0
State = ProbeContext ℕ × List Received

abbrev start : State
start = (test_context, deliveries)

run-Resolved_example :
    Ended
      (Settles Dns.id (λ r c. Resolved test_platform test_context c) test_context)
      (Dns.run test_platform test_context deliveries)
run-Resolved_example = run-Resolved test_platform test_context deliveries

run-Mapped_example :
    Ended
      (Settles Stun.id (λ r c. Mapped test_platform test_context c) test_context)
      (Stun.run test_platform test_context deliveries)
run-Mapped_example = run-Mapped test_platform test_context deliveries

run-Allocated_example :
    Ended
      (Settles TurnAlloc.id (Allocated test_platform test_context) test_context)
      (TurnAlloc.run test_platform test_context deliveries)
run-Allocated_example = run-Allocated test_platform test_context deliveries

run-Unchanged_example :
    Ended
      (Settles IceGather.id (λ r c. c ≡ test_context) test_context)
      (IceGather.run test_platform test_context deliveries)
run-Unchanged_example = run-Unchanged test_platform test_context deliveries

interfaces-IsIp : All (λ a. IsIp a.1) interfaces
interfaces-IsIp = ground arith

count_kinds-gather_example :
    Tally test_platform session_context interfaces
      (IceGather.count_kinds (IceGather.gather test_platform session_context interfaces))
count_kinds-gather_example =
    count_kinds-gather test_platform session_context interfaces interfaces-IsIp

pipelines-Completed_example :
    Completed test_platform (stun_checks test_platform) (λ s. 0) start
    × Completed test_platform (turn_checks test_platform) (λ s. 0) start
    × Completed test_platform (ice_checks test_platform true) (λ s. 0) start
pipelines-Completed_example = pipelines-Completed test_platform true (λ s. 0) start

is_useful_host_address_iff_example :
    (is_useful_host_address (relay.ip) ≡ true) ↔ (¬ IsDropped (relay.ip))
is_useful_host_address_iff_example = is_useful_host_address_iff (relay.ip) relay-IsSocketAddr.0
