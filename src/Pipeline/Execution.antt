-- ===== src/Pipeline/Execution.antt =====
-- What it is for checks to run one after the other, and the set of passed ids in the code.
use webrtc_doctor.Prelude.{
  ◌≡◌, ◌↔◌, ◌∙◌, refl, sym, arith, inl, inr, ◌⊎◌, true, List, [], ◌∷◌, ◌++◌, some, bytes_eq,
  bytes_eq_iff, Bool-cases, All, if◌then◌else◌,
}
use webrtc_doctor.Prelude.Text.{Text}
use webrtc_doctor.Report.Status.{CheckStatus, pass, skip, CheckResult, is_pass}
use webrtc_doctor.Pipeline.{Check, contains, missing_of}

-- A result of the history passed under this id.
abbrev pub PassedIn : List CheckResult → Text → Type 0
PassedIn [] id = ⊥
PassedIn (r ∷ rs) id = ((r.status ≡ pass) × (r.id ≡ id)) ⊎ PassedIn rs id

-- What every check of the program does: its results carry its own id.
abbrev pub IsNamed {ℓ} : {S : Type ℓ} → Check S → Type ℓ
IsNamed {S} check = (s s' : S) (r : CheckResult) → check.run s ≡ some (r, s') → r.id ≡ check.id

-- The meaning of a run, with no set of passed ids: `Execution history checks s results s'`. A check
-- runs exactly when all that it requires has passed in the history; otherwise it is skipped, under
-- its own id, and the state stays as it is.
pub data Execution {ℓ} {S : Type ℓ}
    : List CheckResult → List (Check S) → S → List CheckResult → S → Type ℓ where
  finished : {history : List CheckResult} {s : S} → Execution history [] s [] s
  ran :
      {history results : List CheckResult} {check : Check S} {checks : List (Check S)}
      {s s' s'' : S} {r : CheckResult}
      → All (PassedIn history) check.requires
      → check.run s ≡ some (r, s')
      → Execution (history ++ r ∷ []) checks s' results s''
      → Execution history (check ∷ checks) s (r ∷ results) s''
  skipped :
      {history results : List CheckResult} {check : Check S} {checks : List (Check S)} {s s'' : S}
      {r : CheckResult}
      → ¬ All (PassedIn history) check.requires
      → (r.status ≡ skip) × (r.id ≡ check.id)
      → Execution (history ++ r ∷ []) checks s results s''
      → Execution history (check ∷ checks) s (r ∷ results) s''

-- The set of passed ids is that of the history.
abbrev pub Tracks : List Text → List CheckResult → Type 0
Tracks passed history = (id : Text) → (contains passed id ≡ true) ↔ PassedIn history id

PassedIn-append :
    (history : List CheckResult) (r : CheckResult) (id : Text)
    → PassedIn (history ++ r ∷ []) id ↔ (((r.status ≡ pass) × (r.id ≡ id)) ⊎ PassedIn history id)
PassedIn-append [] r id = (λ h. h, λ h. h)
PassedIn-append (x ∷ xs) r id =
    let (to, from) = PassedIn-append xs r id in
    (
      elim [ inl h ↦ inr (inl h) | inr h ↦ elim (to h) [ inl k ↦ inl k | inr k ↦ inr (inr k) ] ],
      elim [
        | inl h ↦ inr (from (inl h))
        | inr h ↦ elim h [ inl k ↦ inl k | inr k ↦ inr (from (inr k)) ]
      ],
    )

is_pass_iff : (x : CheckStatus) → (is_pass x ≡ true) ↔ (x ≡ pass)
is_pass_iff x = ground arith

pub Tracks-insert :
    (passed : List Text) (history : List CheckResult) (id : Text) (r : CheckResult)
    → r.id ≡ id
    → Tracks passed history
    → Tracks (if is_pass r.status then id ∷ passed else passed) (history ++ r ∷ [])
Tracks-insert passed history id r named t x =
    let (to, from) = PassedIn-append history r x in
    elim (Bool-cases (is_pass r.status)) [
      | inr other ↦ rw other (
        λ h. from (inr ((t x).0 h)),
        λ h. elim (to h) [ inl k ↦ cc (other, (is_pass_iff r.status).1 k.0) | inr k ↦ (t x).1 k ],
      )
      | inl good ↦ rw good (elim (Bool-cases (bytes_eq id x)) [
        | inl same ↦ rw same (
          λ h. from (inl ((is_pass_iff r.status).0 good, named ∙ (bytes_eq_iff id x).0 same)),
          λ h. refl,
        )
        | inr differ ↦ rw differ (
          λ h. from (inr ((t x).0 h)),
          λ h. elim (to h) [
            | inl k ↦ cc (differ, (bytes_eq_iff id x).1 (sym named ∙ k.1))
            | inr k ↦ (t x).1 k
          ],
        )
      ])
    ]

pub missing_of-All :
    (ids passed : List Text) (history : List CheckResult)
    → Tracks passed history
    → (missing_of ids passed ≡ []) ↔ All (PassedIn history) ids
unfolding missing_of
missing_of-All [] passed history t = (λ h. tt, λ h. refl)
missing_of-All (id ∷ ids) passed history t = elim (Bool-cases (contains passed id)) [
  | inl present ↦ rw present (
    λ h. ((t id).0 present, (missing_of-All ids passed history t).0 h),
    λ h. (missing_of-All ids passed history t).1 h.1,
  )
  | inr absent ↦ rw absent (λ h. cc, λ h. cc ((t id).1 h.0))
]
