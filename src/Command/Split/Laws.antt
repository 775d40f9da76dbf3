-- ===== src/Command/Split/Laws.antt =====
-- What the two ends of a split are, and when a trim changes nothing.
use webrtc_doctor.Prelude.{
  ℕ, ◌≡◌, ◌≢◌, refl, ◌∙◌, arith, Bool, true, false, ◌||◌, [], ◌∷◌, ◌++◌, none, some, All,
  Option-cases, inl, inr, if◌then◌else◌,
}
use webrtc_doctor.Prelude.Text.{Text}
use webrtc_doctor.Command.Split.{
  split_once, rsplit_once, has, strip_prefix, trim_start_matches, trim_end_matches, trim_matches,
}

pub split_once-append :
    (c : ℕ) (a b : Text) → has c a ≡ false → split_once c (a ++ c ∷ b) ≡ some (a, b)
unfolding split_once has
split_once-append c [] b h = ground arith
split_once-append c (x ∷ xs) b h = ground (arith, split_once-append c xs b)

pub rsplit_once-none : (c : ℕ) (s : Text) → has c s ≡ false → rsplit_once c s ≡ none
unfolding rsplit_once has
rsplit_once-none c [] h = refl
rsplit_once-none c (x ∷ xs) h = ground (arith, rsplit_once-none c xs)

pub none-rsplit_once : (c : ℕ) (s : Text) → rsplit_once c s ≡ none → has c s ≡ false
unfolding rsplit_once has
none-rsplit_once c [] h = refl
none-rsplit_once c (x ∷ xs) h = elim (Option-cases (rsplit_once c xs)) [
  | inl e ↦ ground (arith, none-rsplit_once c xs e)
  | inr (p, e) ↦ ground arith
]

pub rsplit_once-append :
    (c : ℕ) (a b : Text) → has c b ≡ false → rsplit_once c (a ++ c ∷ b) ≡ some (a, b)
unfolding rsplit_once
rsplit_once-append c [] b h = rw (rsplit_once-none c b h) (ground arith)
rsplit_once-append c (x ∷ xs) b h = rw (rsplit_once-append c xs b h) refl

-- A split puts the separator between its two halves.
pub split_once-eq-some :
    (c : ℕ) (s a b : Text) → split_once c s ≡ some (a, b) → (s ≡ a ++ c ∷ b) × (has c a ≡ false)
unfolding split_once has
split_once-eq-some c [] a b h = cc
split_once-eq-some c (x ∷ xs) a b h = elim (Option-cases (split_once c xs)) [
  | inl e ↦ ground arith
  | inr (p, e) ↦ ground (arith, split_once-eq-some c xs p.0 p.1 e)
]

pub rsplit_once-eq-some :
    (c : ℕ) (s a b : Text) → rsplit_once c s ≡ some (a, b) → (s ≡ a ++ c ∷ b) × (has c b ≡ false)
unfolding rsplit_once has
rsplit_once-eq-some c [] a b h = cc
rsplit_once-eq-some c (x ∷ xs) a b h = elim (Option-cases (rsplit_once c xs)) [
  | inl e ↦ ground (arith, none-rsplit_once c xs e)
  | inr (p, e) ↦ ground (arith, rsplit_once-eq-some c xs p.0 p.1 e)
]

pub has-append : (c : ℕ) (a b : Text) → has c (a ++ b) ≡ (has c a || has c b)
unfolding has
has-append c [] b = refl
has-append c (x ∷ xs) b = ground (arith, has-append c xs b)

pub strip_prefix-eq-some : (c : ℕ) (s rest : Text) → strip_prefix c s ≡ some rest → s ≡ c ∷ rest
unfolding strip_prefix
strip_prefix-eq-some c [] rest h = cc
strip_prefix-eq-some c (x ∷ xs) rest h = ground arith

-- A trim leaves a text alone that has nothing to be trimmed.
module _ (p : ℕ → Bool) where
  pub trim_start_matches_id : (s : Text) → All (λ x. p x ≡ false) s → trim_start_matches p s ≡ s
  unfolding trim_start_matches
  trim_start_matches_id [] h = refl
  trim_start_matches_id (x ∷ xs) (e, h) = rw e refl

  pub trim_end_matches_id : (s : Text) → All (λ x. p x ≡ false) s → trim_end_matches p s ≡ s
  unfolding trim_end_matches
  trim_end_matches_id [] h = refl
  trim_end_matches_id (x ∷ xs) (e, h) = rw (trim_end_matches_id xs h) (last xs)
    where
      last :
          (ys : Text)
          → elim ys as (λ _. Text) [ [] ↦ if p x then [] else x ∷ [] | y ∷ zs ↦ x ∷ y ∷ zs ]
            ≡ x ∷ ys
      last [] = rw e refl
      last (y ∷ zs) = refl

  pub trim_end_matches-last :
      (s : Text) (y : ℕ) → p y ≡ true → trim_end_matches p (s ++ y ∷ []) ≡ trim_end_matches p s
  unfolding trim_end_matches
  trim_end_matches-last [] y e = rw e refl
  trim_end_matches-last (x ∷ xs) y e = rw (trim_end_matches-last xs y e) refl

  pub trim_matches_id : (s : Text) → All (λ x. p x ≡ false) s → trim_matches p s ≡ s
  trim_matches_id s h = rw (trim_start_matches_id s h) (trim_end_matches_id s h)

  -- One character to trim at either end.
  pub trim_matches-around :
      (x : ℕ) (s : Text) (y : ℕ)
      → p x ≡ true
      → s ≢ []
      → All (λ x. p x ≡ false) s
      → p y ≡ true
      → trim_matches p (x ∷ s ++ y ∷ []) ≡ s
  unfolding trim_start_matches
  trim_matches-around x [] y ex ne h ey = absurd (ne refl)
  trim_matches-around x (c ∷ s) y ex ne h ey =
      rw ex (rw h.0 (trim_end_matches-last (c ∷ s) y ey ∙ trim_end_matches_id (c ∷ s) h))
