-- ===== src/Pipeline.antt =====
-- `Check` of crates/probe-core/src/check.rs and `Pipeline` of crates/probe-core/src/pipeline.rs. `S` is
-- the state that `run` may change: the `ProbeContext` and the outside world. A check that panics
-- gives `none`, and the run of the pipeline with it.
pub mod Execution
pub mod Laws
use webrtc_doctor.Prelude.{
  ℕ, ◌-◌, ◌/◌, ◌%◌, ◌^◌, Bool, true, false, ◌||◌, List, [], ◌∷◌, ◌++◌, Option, none, some, bytes_eq,
  if◌then◌else◌,
}
use webrtc_doctor.Prelude.Text.{Text, text}
use webrtc_doctor.Report.Status.{CheckResult, is_pass}
use webrtc_doctor.Report.CheckResult
use webrtc_doctor.Report.Verdict.{Report}

pub record Check {ℓ} (S : Type ℓ) : Type ℓ where
  pub id : Text
  pub name : Text
  pub requires : List Text
  pub run : S → Option (CheckResult × S)

abbrev pub contains : List Text → Text → Bool
contains [] x = false
contains (y ∷ ys) x = bytes_eq y x || contains ys x

-- `requires().iter().filter(|id| !passed.contains(id))`
unfoldable pub missing_of : List Text → List Text → List Text
missing_of [] passed = []
missing_of (id ∷ ids) passed =
    let rest = missing_of ids passed in if contains passed id then rest else id ∷ rest

-- `missing.join(", ")`
unfoldable pub join : List Text → Text
join [] = []
join (x ∷ []) = x
join (x ∷ y ∷ ys) = x ++ (text ", " ++ join (y ∷ ys))

module _ {ℓ} {S : Type ℓ} where
  -- The result of one check, which is run only if nothing that it requires is missing.
  unfoldable pub run_check : Check S → List Text → S → Option (CheckResult × S)
  run_check check passed s = elim (missing_of check.requires passed) [
    | [] ↦ check.run s
    | id ∷ ids ↦ some (
      CheckResult.skip check.id check.name (text "prerequisite not satisfied: " ++ join (id ∷ ids)),
      s,
    )
  ]

  -- The loop over the checks, with the ids that have passed and the results so far.
  unfoldable pub run_from :
      List (Check S) → List Text → List CheckResult → S → Option (List CheckResult × S)
  run_from [] passed results s = some (results, s)
  run_from (check ∷ checks) passed results s = elim (run_check check passed s) [
    | none ↦ none
    | some (result, s') ↦
        run_from checks (if is_pass result.status then check.id ∷ passed else passed)
          (results ++ result ∷ []) s'
  ]

  -- `clock` reads the time in nanoseconds.
  unfoldable pub run : (S → ℕ) → List (Check S) → S → Option (Report × S)
  run clock checks s = elim (run_from checks [] [] s) [
    | none ↦ none
    | some (results, s') ↦
        some (record { results = results; total_ms = (clock s' - clock s) / 1000000 % 2 ^ 64 }, s')
  ]
