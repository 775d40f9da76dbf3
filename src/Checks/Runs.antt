-- ===== src/Checks/Runs.antt =====
-- The pipelines that `main` and `run_full` of crates/webrtc-doctor/src/main.rs build for one target.
use webrtc_doctor.Prelude.{
  ℕ, ◌≡◌, ◌≢◌, ◌∙◌, sym, ap, inl, inr, Bool, true, false, List, [], ◌∷◌, none, some, All,
  Option-cases, if◌then◌else◌,
}
use webrtc_doctor.Report.Status.{CheckResult}
use webrtc_doctor.Report.Verdict.{Report}
use webrtc_doctor.Pipeline.{Check, run}
use webrtc_doctor.Pipeline.Execution.{IsNamed, Execution}
use webrtc_doctor.Pipeline.Laws.{run-Execution, run-ne-none}
use webrtc_doctor.Probe.Context.{ProbeContext}
use webrtc_doctor.Probe.Platform.{Platform}
use webrtc_doctor.Checks.Dns as Dns
use webrtc_doctor.Checks.Stun as Stun
use webrtc_doctor.Checks.TurnAlloc as TurnAlloc
use webrtc_doctor.Checks.TurnEcho as TurnEcho
use webrtc_doctor.Checks.IceGather as IceGather
use webrtc_doctor.Checks.Dns.Laws.{run-Resolved}
use webrtc_doctor.Checks.Stun.Laws.{run-Mapped}
use webrtc_doctor.Checks.TurnAlloc.Laws.{run-Allocated}
use webrtc_doctor.Checks.TurnEcho.Laws.{run-AllEchoed}
use webrtc_doctor.Checks.IceGather.Laws.{run-Unchanged}

module _ (platform : Platform) where
  abbrev pub State : Type 0
  State = ProbeContext platform.Socket × platform.World

  abbrev pub stun_checks : List (Check State)
  stun_checks = Dns.check platform ∷ Stun.check platform ∷ []

  abbrev pub turn_checks : List (Check State)
  turn_checks =
      Dns.check platform
      ∷ Stun.check platform
      ∷ TurnAlloc.check platform
      ∷ TurnEcho.check platform
      ∷ []

  -- `is_turn` adds the allocation.
  abbrev pub ice_checks : Bool → List (Check State)
  ice_checks is_turn =
      if is_turn
      then Dns.check platform
        ∷ Stun.check platform
        ∷ TurnAlloc.check platform
        ∷ IceGather.check platform
        ∷ []
      else Dns.check platform ∷ Stun.check platform ∷ IceGather.check platform ∷ []

  -- A check that always gives a result under its own id.
  abbrev pub IsDependable : Check State → Type 0
  IsDependable check =
      (s : State)
      → (r : CheckResult) × (s' : State) × (check.run s ≡ some (r, s')) × (r.id ≡ check.id)

  pub dns-IsDependable : IsDependable (Dns.check platform)
  dns-IsDependable s =
      let e = run-Resolved platform s.0 s.1 in
      (e.result, (e.context, e.world), e.returns, e.holds.named)

  stun-IsDependable : IsDependable (Stun.check platform)
  stun-IsDependable s =
      let e = run-Mapped platform s.0 s.1 in
      (e.result, (e.context, e.world), e.returns, e.holds.named)

  alloc-IsDependable : IsDependable (TurnAlloc.check platform)
  alloc-IsDependable s =
      let e = run-Allocated platform s.0 s.1 in
      (e.result, (e.context, e.world), e.returns, e.holds.named)

  echo-IsDependable : IsDependable (TurnEcho.check platform)
  echo-IsDependable s =
      let e = run-AllEchoed platform s.0 s.1 in
      (e.result, (e.context, e.world), e.returns, e.holds.named)

  ice-IsDependable : IsDependable (IceGather.check platform)
  ice-IsDependable s =
      let e = run-Unchanged platform s.0 s.1 in
      (e.result, (e.context, e.world), e.returns, e.holds.named)

  IsDependable-IsNamed : (check : Check State) → IsDependable check → IsNamed check
  IsDependable-IsNamed check d s s' r e =
      let (r₁, s₁, e₁, named) = d s in
      let same : some (r₁, s₁) ≡ some (r, s') = sym e₁ ∙ e in
      ap (λ o. elim o [ none ↦ r.id | some p ↦ p.0.id ]) (sym same) ∙ named

  IsDependable-ne-none :
      (check : Check State) → IsDependable check → (s : State) → check.run s ≢ none
  IsDependable-ne-none check d s e = let (r₁, s₁, e₁, named) = d s in cc (e, e₁)

  -- A run that has ended in a report.
  pub record Completed (checks : List (Check State)) (clock : State → ℕ) (s : State) : Type 0 where
    pub report : Report
    pub final : State
    pub ends : run clock checks s ≡ some (report, final)
    pub execution : Execution [] checks s report.results final

  pub All-IsNamed : (checks : List (Check State)) → All IsDependable checks → All IsNamed checks
  All-IsNamed [] h = tt
  All-IsNamed (c ∷ cs) (h, hs) = (IsDependable-IsNamed c h, All-IsNamed cs hs)

  All-ne-none :
      (checks : List (Check State))
      → All IsDependable checks
      → All (λ c. (s : State) → c.run s ≢ none) checks
  All-ne-none [] h = tt
  All-ne-none (c ∷ cs) (h, hs) = (IsDependable-ne-none c h, All-ne-none cs hs)

  pub dependable-Completed :
      (checks : List (Check State)) (clock : State → ℕ) (s : State)
      → All IsDependable checks
      → Completed checks clock s
  dependable-Completed checks clock s h = elim (Option-cases (run clock checks s)) [
    | inl panicked ↦ absurd (run-ne-none clock checks s (All-ne-none checks h) panicked)
    | inr ((report, s'), e) ↦ record {
      report = report;
      final = s';
      ends = e;
      execution = run-Execution clock checks s s' report (All-IsNamed checks h) e;
    }
  ]

  abbrev pub AllDependable : List (Check State) → Type 0
  AllDependable = All IsDependable

  pub stun-AllDependable : AllDependable stun_checks
  stun-AllDependable = (dns-IsDependable, (stun-IsDependable, tt))

  pub turn-AllDependable : AllDependable turn_checks
  turn-AllDependable =
      (dns-IsDependable, (stun-IsDependable, (alloc-IsDependable, (echo-IsDependable, tt))))

  pub ice-AllDependable : (is_turn : Bool) → AllDependable (ice_checks is_turn)
  ice-AllDependable true =
      (dns-IsDependable, (stun-IsDependable, (alloc-IsDependable, (ice-IsDependable, tt))))
  ice-AllDependable false = (dns-IsDependable, (stun-IsDependable, (ice-IsDependable, tt)))

  -- Whatever the context is and the network answers, as long as each operation of the platform returns
  -- and its clock reaches each deadline after finitely many rounds: the pipelines of the `stun`, `turn`
  -- and `ice` commands end in a report, with a result for each check; each check has run exactly if all
  -- that it requires passed before it, and was skipped otherwise.
  pub pipelines-Completed :
      (is_turn : Bool) (clock : State → ℕ) (s : State)
      → Completed stun_checks clock s
        × Completed turn_checks clock s
        × Completed (ice_checks is_turn) clock s
  pipelines-Completed is_turn clock s = (
    dependable-Completed stun_checks clock s stun-AllDependable,
    dependable-Completed turn_checks clock s turn-AllDependable,
    dependable-Completed (ice_checks is_turn) clock s (ice-AllDependable is_turn),
  )
