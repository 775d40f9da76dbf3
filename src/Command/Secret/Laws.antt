-- ===== src/Command/Secret/Laws.antt =====
-- Where a secret comes from, and what is left of a line.
use webrtc_doctor.Prelude.{
  ℕ, ◌≡◌, ◌≢◌, ◌⊎◌, inl, inr, refl, sym, ap, ◌∙◌, arith, Bool, true, false, [], ◌∷◌, ◌++◌, Option,
  some, All, if◌then◌else◌,
}
use mathlib.Core.List.{cons-ne-nil}
use webrtc_doctor.Prelude.Text.{Text}
use webrtc_doctor.Probe.Platform.{given}
use webrtc_doctor.Probe.Timed.{Io}
use webrtc_doctor.Command.Split.{trim_end_matches}
use webrtc_doctor.Command.Program.{Safe, bind-Safe, pure-Safe, bail-Safe, io-Safe, map-Safe}
use webrtc_doctor.Command.Secret.{is_newline, nonempty_line, read_line_from_stdin, resolve_secret}

-- A line with its newlines cut off: what is left is not empty and has none at its end.
pub record Stripped (line secret : Text) : Type 0 where
  pub newlines : Text
  pub cut : line ≡ secret ++ newlines
  pub only : All (λ c. is_newline c ≡ true) newlines
  pub clean : (before : Text) (c : ℕ) → secret ≡ before ++ c ∷ [] → is_newline c ≡ false
  pub some_left : secret ≢ []

head-injective : {x y : ℕ} {xs ys : Text} → x ∷ xs ≡ y ∷ ys → x ≡ y
head-injective e = ground arith

tail-injective : {x y : ℕ} {xs ys : Text} → x ∷ xs ≡ y ∷ ys → xs ≡ ys
tail-injective e = ground arith

-- A trim cuts off all that it can.
module _ (p : ℕ → Bool) where
  trim_end_matches-cut :
      (s : Text) → (t : Text) × (s ≡ trim_end_matches p s ++ t) × All (λ c. p c ≡ true) t
  unfolding trim_end_matches
  trim_end_matches-cut [] = ([], refl, tt)
  trim_end_matches-cut (x ∷ xs) = go (trim_end_matches p xs) (p x) refl (trim_end_matches-cut xs)
    where
      go :
          (ys : Text) (b : Bool)
          → p x ≡ b
          → (t : Text) × (xs ≡ ys ++ t) × All (λ c. p c ≡ true) t
          → (t : Text) × (x ∷ xs
              ≡ elim ys as (λ _. Text) [ [] ↦ if b then [] else x ∷ [] | y ∷ zs ↦ x ∷ y ∷ zs ] ++ t)
            × All (λ c. p c ≡ true) t
      go [] true e (t, whole, all) = (x ∷ t, ap (λ z. x ∷ z) whole, (e, all))
      go [] false e (t, whole, all) = (t, ap (λ z. x ∷ z) whole, all)
      go (y ∷ zs) b e (t, whole, all) = (t, ap (λ z. x ∷ z) whole, all)

  trim_end_matches-clean :
      (s before : Text) (c : ℕ) → trim_end_matches p s ≡ before ++ c ∷ [] → p c ≡ false
  unfolding trim_end_matches
  trim_end_matches-clean [] [] c h = cc
  trim_end_matches-clean [] (b ∷ bs) c h = cc
  trim_end_matches-clean (x ∷ xs) before c h =
      go (trim_end_matches p xs) (p x) refl before h (λ b e. trim_end_matches-clean xs b c e)
    where
      go :
          (ys : Text) (b : Bool)
          → p x ≡ b
          → (front : Text)
          → elim ys as (λ _. Text) [ [] ↦ if b then [] else x ∷ [] | y ∷ zs ↦ x ∷ y ∷ zs ]
            ≡ front ++ c ∷ []
          → ((inner : Text) → ys ≡ inner ++ c ∷ [] → p c ≡ false)
          → p c ≡ false
      go [] true e [] k ih = cc
      go [] true e (f ∷ fs) k ih = cc
      go [] false e [] k ih = ap p (sym (head-injective k)) ∙ e
      go [] false e (f ∷ []) k ih = cc
      go [] false e (f ∷ g ∷ fs) k ih = cc
      go (y ∷ zs) b e [] k ih = cc
      go (y ∷ zs) b e (f ∷ fs) k ih = ih fs (tail-injective k)

nonempty_line-Safe :
    {W : Type 0} (label line : Text)
    → Safe {W = W} (λ s. (s ≡ line) × (line ≢ [])) (nonempty_line label line)
unfolding nonempty_line
nonempty_line-Safe label [] = bail-Safe _
nonempty_line-Safe label (c ∷ cs) = pure-Safe _ (refl, cons-ne-nil c cs)

read_line_from_stdin-Safe :
    {W : Type 0} (read_line : Io W Text) (label : Text)
    → Safe
        (λ s. (line : Text) × Stripped line s × (w : W) × ((read_line w).0 ≡ given line))
        (read_line_from_stdin read_line label)
unfolding read_line_from_stdin
read_line_from_stdin-Safe read_line label = bind-Safe (io-Safe read_line) λ line (w, e).
    map-Safe (nonempty_line-Safe label (trim_end_matches is_newline line)) λ s (same, ne).
      let (t, cut, only) = trim_end_matches-cut is_newline line in
      (
        line,
        record {
          newlines = t;
          cut = cut ∙ ap (λ z. z ++ t) (sym same);
          only = only;
          clean = λ b c k. trim_end_matches-clean is_newline line b c (sym same ∙ k);
          some_left = λ k. ne (sym same ∙ k);
        },
        w,
        e,
      )

-- A secret is the value of its flag, or a line of stdin without the newlines at its end, which is
-- not empty.
abbrev pub IsSecret : {W : Type 0} → Io W Text → Option Text → Bool → Option Text → Type 0
IsSecret {W} read_line flag from_stdin o =
    ((from_stdin ≡ false) × (o ≡ flag))
    ⊎ ((from_stdin ≡ true)
        × (line : Text) × (secret : Text) × (o ≡ some secret)
        × Stripped line secret
        × (w : W) × ((read_line w).0 ≡ given line))

-- `resolve_secret` does not panic. If it does not fail, then it gives the value of the flag where
-- stdin is not to be read, and otherwise a line that stdin gave, less the newlines at its end, which
-- is not empty then and does not end in one.
pub resolve_secret-Safe :
    {W : Type 0} (read_line : Io W Text) (flag : Option Text) (from_stdin : Bool) (label : Text)
    → Safe (IsSecret read_line flag from_stdin) (resolve_secret read_line flag from_stdin label)
unfolding resolve_secret
resolve_secret-Safe read_line flag false label = pure-Safe flag (inl (refl, refl))
resolve_secret-Safe read_line flag true label =
    bind-Safe (read_line_from_stdin-Safe read_line label)
      λ secret (line, h, w, e). pure-Safe (some secret) (inr (refl, line, secret, refl, h, w, e))
