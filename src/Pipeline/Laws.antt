-- ===== src/Pipeline/Laws.antt =====
-- What a run of the pipeline is.
use webrtc_doctor.Prelude.{
  ℕ, ◌≡◌, ◌≢◌, ◌∙◌, refl, sym, ap₂, arith, ◌-◌, ◌/◌, ◌%◌, ◌^◌, inl, inr, ◌⊎◌, List, [], ◌∷◌, ◌++◌,
  append_assoc, append-nil, map, none, some, Option-cases, All, if◌then◌else◌,
}
use mathlib.Core.Path.{subst}
use webrtc_doctor.Prelude.Text.{Text, text}
use webrtc_doctor.Report.Status.{skip, CheckResult, is_pass}
use webrtc_doctor.Report.CheckResult as Results
use webrtc_doctor.Pipeline.{Check, missing_of, join, run_check, run_from, run}
use webrtc_doctor.Report.Verdict.{Report}
use webrtc_doctor.Pipeline.Execution.{
  PassedIn, IsNamed, Execution, finished, ran, skipped, Tracks, Tracks-insert, missing_of-All,
}

module _ {ℓ} {S : Type ℓ} where
  -- A check ran with all that it requires, or it was skipped.
  run_check_cases :
      (check : Check S) (passed : List Text) (history : List CheckResult) (s s' : S)
      (r : CheckResult)
      → Tracks passed history
      → run_check check passed s ≡ some (r, s')
      → (All (PassedIn history) check.requires × (check.run s ≡ some (r, s')))
        ⊎ ((¬ All (PassedIn history) check.requires)
            × ((r.status ≡ skip) × (r.id ≡ check.id))
            × (s ≡ s'))
  unfolding run_check
  run_check_cases check passed history s s' r t e = go (missing_of check.requires passed) refl
    where
      go :
          (m : List Text)
          → missing_of check.requires passed ≡ m
          → (All (PassedIn history) check.requires × (check.run s ≡ some (r, s')))
            ⊎ ((¬ All (PassedIn history) check.requires)
                × ((r.status ≡ skip) × (r.id ≡ check.id))
                × (s ≡ s'))
      go [] m = inl ((missing_of-All check.requires passed history t).0 m, (rw (m, run_check) at e))
      go (id ∷ ids) m =
          let e' : some (
            Results.skip check.id check.name
                (text "prerequisite not satisfied: " ++ join (id ∷ ids)),
            s,
          )
              ≡ some (r, s') =
            rw (m, run_check) at e in
          inr (
            λ h. cc (m, (missing_of-All check.requires passed history t).1 h),
            (ground arith, ground arith),
            ground arith,
          )

  run_from-cons :
      (check : Check S) (checks : List (Check S)) (passed : List Text)
      (history results : List CheckResult) (s s' : S)
      → run_from (check ∷ checks) passed history s ≡ some (results, s')
      → (r : CheckResult) × (next : S) × (run_check check passed s ≡ some (r, next))
        × (run_from checks
              (if is_pass r.status then check.id ∷ passed else passed)
              (history ++ r ∷ [])
              next
            ≡ some (results, s'))
  unfolding run_from
  run_from-cons check checks passed history results s s' e =
      elim (Option-cases (run_check check passed s)) [
        | inl panicked ↦ cc (rw (panicked, run_from) at e)
        | inr ((r, next), done) ↦ (r, next, done, rw (done, run_from) at e)
      ]

  run_from-Execution :
      (checks : List (Check S)) (passed : List Text) (history results : List CheckResult) (s s' : S)
      → All IsNamed checks
      → Tracks passed history
      → run_from checks passed history s ≡ some (results, s')
      → (rs : List CheckResult) × (results ≡ history ++ rs) × Execution history checks s rs s'
  unfolding run_from
  run_from-Execution [] passed history results s s' n t e =
      let same : results ≡ history = ground arith in
      let still : s ≡ s' = ground arith in
      ([], same ∙ sym (append-nil history), subst (λ z. Execution history [] s [] z) still finished)
  run_from-Execution (check ∷ checks) passed history results s s' (named, n) t e =
      let (r, next, done, later) = run_from-cons check checks passed history results s s' e in
      elim (run_check_cases check passed history s next r t done) [
        | inl (met, runs) ↦
            let t' = Tracks-insert passed history check.id r (named s next r runs) t in
            let (rs, split, rest) =
              run_from-Execution checks _ (history ++ r ∷ []) results next s' n t' later in
            (r ∷ rs, split ∙ append_assoc history (r ∷ []) rs, ran met runs rest)
        | inr (unmet, (skips, same_id), still) ↦
            let t' = Tracks-insert passed history check.id r same_id t in
            let (rs, split, rest) =
              run_from-Execution checks _ (history ++ r ∷ []) results next s' n t' later in
            (
              r ∷ rs,
              split ∙ append_assoc history (r ∷ []) rs,
              skipped unmet (skips, same_id)
                  (subst (λ z. Execution (history ++ r ∷ []) checks z rs s') (sym still) rest),
            )
      ]

  -- A run of named checks that ends is an execution from an empty history: each check has run, on the
  -- state that the checks before it left, exactly if all that it requires passed earlier, and was
  -- skipped otherwise.
  pub run-Execution :
      (clock : S → ℕ) (checks : List (Check S)) (s s' : S) (report : Report)
      → All IsNamed checks
      → run clock checks s ≡ some (report, s')
      → Execution [] checks s report.results s'
  unfolding run
  run-Execution clock checks s s' report n e = elim (Option-cases (run_from checks [] [] s)) [
    | inl panicked ↦ cc (rw (panicked, run) at e)
    | inr ((results, last), done) ↦
        let e' : some (
          record { results = results; total_ms = (clock last - clock s) / 1000000 % 2 ^ 64 },
          last,
        )
            ≡ some (report, s') =
          rw (done, run) at e in
        let (rs, split, x) =
          run_from-Execution checks [] [] results s last n (λ id. (λ h. cc, λ h. absurd h)) done in
        let same_state : last ≡ s' = ground arith in
        let same_results : rs ≡ report.results = ground arith in
        subst (λ z. Execution [] checks s z s') same_results
          (subst (λ z. Execution [] checks s rs z) same_state x)
  ]

  pub Execution-ids :
      {history results : List CheckResult} {checks : List (Check S)} {s s' : S}
      → All IsNamed checks
      → Execution history checks s results s'
      → map (λ r. r.id) results ≡ map (λ c. c.id) checks
  Execution-ids n finished = refl
  Execution-ids n (ran {check = c} {s = a} {s' = b} {r = r} met runs rest) =
      ap₂ ◌∷◌ (n.0 a b r runs) (Execution-ids n.1 rest)
  Execution-ids n (skipped unmet (skips, same_id) rest) = ap₂ ◌∷◌ same_id (Execution-ids n.1 rest)

  -- A run of named checks that ends has a result for each check, under its id and in order.
  pub run-ids :
      (clock : S → ℕ) (checks : List (Check S)) (s s' : S) (report : Report)
      → All IsNamed checks
      → run clock checks s ≡ some (report, s')
      → map (λ r. r.id) report.results ≡ map (λ c. c.id) checks
  run-ids clock checks s s' report n e =
      Execution-ids n (run-Execution clock checks s s' report n e)

  run_check-ne-none :
      (check : Check S) (passed : List Text) (s : S)
      → ((s : S) → check.run s ≢ none)
      → run_check check passed s ≢ none
  unfolding run_check
  run_check-ne-none check passed s total = go (missing_of check.requires passed) refl
    where
      go : (m : List Text) → missing_of check.requires passed ≡ m → run_check check passed s ≢ none
      go [] m = rw (m, run_check) (total s)
      go (id ∷ ids) m = rw (m, run_check) (λ e. cc)

  run_from-ne-none :
      (checks : List (Check S)) (passed : List Text) (history : List CheckResult) (s : S)
      → All (λ c. (s : S) → c.run s ≢ none) checks
      → run_from checks passed history s ≢ none
  unfolding run_from
  run_from-ne-none [] passed history s total = λ e. cc
  run_from-ne-none (check ∷ checks) passed history s (here, total) =
      elim (Option-cases (run_check check passed s)) [
        | inl panicked ↦ absurd (run_check-ne-none check passed s here panicked)
        | inr ((r, next), done) ↦
            rw (done, run_from) (run_from-ne-none checks _ (history ++ r ∷ []) next total)
      ]

  pub run-ne-none :
      (clock : S → ℕ) (checks : List (Check S)) (s : S)
      → All (λ c. (s : S) → c.run s ≢ none) checks
      → run clock checks s ≢ none
  unfolding run
  run-ne-none clock checks s total = elim (Option-cases (run_from checks [] [] s)) [
    | inl panicked ↦ absurd (run_from-ne-none checks [] [] s total panicked)
    | inr ((results, last), done) ↦ rw (done, run) (λ e. cc)
  ]
