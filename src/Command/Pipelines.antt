-- ===== src/Command/Pipelines.antt =====
-- The pipelines of the commands that have a check beyond STUN, TURN and ICE, and the run of one.
use webrtc_doctor.Prelude.{map, ◌≡◌, List, [], ◌∷◌, none, some, All}
use webrtc_doctor.Report.Verdict.{Report}
use webrtc_doctor.Pipeline as Pipeline
use webrtc_doctor.Pipeline.{Check}
use webrtc_doctor.Pipeline.Execution.{Execution}
use webrtc_doctor.Pipeline.Laws.{Execution-ids}
use webrtc_doctor.Probe.Context.{ProbeContext}
use webrtc_doctor.Checks.Dns as Dns
use webrtc_doctor.Checks.TurnsAlloc as TurnsAlloc
use webrtc_doctor.Checks.TurnsAlloc.Laws.{run-TlsAllocated}
use webrtc_doctor.Checks.Signaling as Signaling
use webrtc_doctor.Checks.Signaling.{SignalingCheck}
use webrtc_doctor.Checks.Signaling.Laws.{run-Upgraded}
use webrtc_doctor.Checks.Dtls.{remote_check, loopback_check}
use webrtc_doctor.Checks.Dtls.Laws.{run-Passed}
use webrtc_doctor.Checks.Runs.{
  State, IsDependable, dns-IsDependable, All-IsNamed, dependable-Completed,
}
use webrtc_doctor.Command.Program.{reached, panicked, Program, Safe, Post}
use webrtc_doctor.Command.Services.{Services}

module _ (services : Services) where
  abbrev pub Context : Type 0
  Context = ProbeContext services.platform.Socket

  abbrev pub Checks : Type 0
  Checks = List (Check (State services.platform))

  abbrev pub turns_checks : Checks
  turns_checks = Dns.check services.platform ∷ TurnsAlloc.check services.platform services.tls ∷ []

  abbrev pub signaling_checks : SignalingCheck → Checks
  signaling_checks sig =
      Dns.check services.platform ∷ Signaling.check services.platform services.sockets sig ∷ []

  abbrev pub dtls_checks : Checks
  dtls_checks = Dns.check services.platform ∷ remote_check services.platform services.dtls ∷ []

  abbrev pub loopback_checks : Checks
  loopback_checks = loopback_check services.platform services.dtls ∷ []

  -- `pipeline.run(&mut ctx)`
  unfoldable pub run_pipeline : Checks → Context → Program services.platform.World Report
  run_pipeline checks ctx w = elim (Pipeline.run (λ s. services.clock s.1) checks (ctx, w)) [
    | none ↦ panicked
    | some (report, s) ↦ reached report (s.1)
  ]

  -- A report of these checks, run one after the other on this context, with a result for each.
  abbrev pub Executed : Checks → Context → Report → Type 0
  Executed checks ctx report =
      (w : services.platform.World) × (final : State services.platform) × Execution [] checks
        (ctx, w) report.results final
      × (map (λ r. r.id) report.results ≡ map (λ c. c.id) checks)

  turns-IsDependable :
      IsDependable services.platform (TurnsAlloc.check services.platform services.tls)
  turns-IsDependable s =
      let e = run-TlsAllocated services.platform services.tls s.0 s.1 in
      (e.result, (e.context, e.world), e.returns, e.holds.named)

  signaling-IsDependable :
      (sig : SignalingCheck)
      → IsDependable services.platform (Signaling.check services.platform services.sockets sig)
  signaling-IsDependable sig s =
      let e = run-Upgraded services.platform services.sockets sig s.0 s.1 in
      (e.result, (e.context, e.world), e.returns, e.holds.named)

  remote-IsDependable :
      IsDependable services.platform (remote_check services.platform services.dtls)
  remote-IsDependable s =
      let e = (run-Passed services.platform services.dtls s.0 s.1).0 in
      (e.result, (e.context, e.world), e.returns, e.holds.named)

  loopback-IsDependable :
      IsDependable services.platform (loopback_check services.platform services.dtls)
  loopback-IsDependable s =
      let e = (run-Passed services.platform services.dtls s.0 s.1).1 in
      (e.result, (e.context, e.world), e.returns, e.holds.named)

  abbrev pub Dependable : Checks → Type 0
  Dependable = All (IsDependable services.platform)

  pub turns-Dependable : Dependable turns_checks
  turns-Dependable = (dns-IsDependable services.platform, (turns-IsDependable, tt))

  pub signaling-Dependable : (sig : SignalingCheck) → Dependable (signaling_checks sig)
  signaling-Dependable sig = (dns-IsDependable services.platform, (signaling-IsDependable sig, tt))

  pub dtls-Dependable : Dependable dtls_checks
  dtls-Dependable = (dns-IsDependable services.platform, (remote-IsDependable, tt))

  pub loopback-Dependable : Dependable loopback_checks
  loopback-Dependable = (loopback-IsDependable, tt)

  -- Checks that always end give a report.
  pub run_pipeline-Executed :
      (checks : Checks) (ctx : Context)
      → Dependable checks
      → Safe (Executed checks ctx) (run_pipeline checks ctx)
  unfolding run_pipeline
  run_pipeline-Executed checks ctx d = record {
    from = λ w.
        let c =
          dependable-Completed services.platform checks (λ s. services.clock s.1) (ctx, w) d in
        rw (c.ends, Post)
          (
            w,
            c.final,
            c.execution,
            Execution-ids (All-IsNamed services.platform checks d) c.execution,
          );
  }
