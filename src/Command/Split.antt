-- ===== src/Command/Split.antt =====
-- The `str` operations of std that target.rs and main.rs split their arguments with. Every
-- separator is ASCII, so that bytes can stand for chars.
pub mod Laws
use webrtc_doctor.Prelude.{
  ℕ, ◌+◌, Bool, true, false, ◌&&◌, ◌||◌, List, [], ◌∷◌, Option, none, some, leb, ◌==◌, bytes_eq,
  if◌then◌else◌,
}
use webrtc_doctor.Prelude.Text.{Text}

-- `split_once(c)`: before and after the first `c`
unfoldable pub split_once : ℕ → Text → Option (Text × Text)
split_once c [] = none
split_once c (x ∷ xs) =
    let more = split_once c xs in
    if x == c then some ([], xs) else elim more [ none ↦ none | some p ↦ some (x ∷ p.0, p.1) ]

-- `rsplit_once(c)`: before and after the last `c`
unfoldable pub rsplit_once : ℕ → Text → Option (Text × Text)
rsplit_once c [] = none
rsplit_once c (x ∷ xs) = elim (rsplit_once c xs) [
  | none ↦ if x == c then some ([], xs) else none
  | some p ↦ some (x ∷ p.0, p.1)
]

-- `contains(c)`
unfoldable pub has : ℕ → Text → Bool
has c [] = false
has c (x ∷ xs) = (x == c) || has c xs

-- `strip_prefix(c)`
unfoldable pub strip_prefix : ℕ → Text → Option Text
strip_prefix c [] = none
strip_prefix c (x ∷ xs) = if x == c then some xs else none

-- `starts_with`
unfoldable pub starts_with : Text → Text → Bool
starts_with [] s = true
starts_with (c ∷ cs) [] = false
starts_with (c ∷ cs) (x ∷ xs) = (x == c) && starts_with cs xs

abbrev pub is_upper : ℕ → Bool
is_upper c = leb b'A' c && leb c b'Z'

-- `to_ascii_lowercase`
unfoldable pub to_ascii_lowercase : Text → Text
to_ascii_lowercase [] = []
to_ascii_lowercase (c ∷ cs) = (if is_upper c then c + 32 else c) ∷ to_ascii_lowercase cs

-- `trim_start_matches(p)`, `trim_end_matches(p)` and `trim_matches(p)`
unfoldable pub trim_start_matches : (ℕ → Bool) → Text → Text
trim_start_matches p [] = []
trim_start_matches p (x ∷ xs) = let rest = trim_start_matches p xs in if p x then rest else x ∷ xs

unfoldable pub trim_end_matches : (ℕ → Bool) → Text → Text
trim_end_matches p [] = []
trim_end_matches p (x ∷ xs) = elim (trim_end_matches p xs) [
  | [] ↦ if p x then [] else x ∷ []
  | y ∷ ys ↦ x ∷ y ∷ ys
]

abbrev pub trim_matches : (ℕ → Bool) → Text → Text
trim_matches p s = trim_end_matches p (trim_start_matches p s)

-- `iter().any(|s| *s == t)`
unfoldable pub any_eq : Text → List Text → Bool
any_eq t [] = false
any_eq t (s ∷ ss) = bytes_eq s t || any_eq t ss
