-- ===== src/Command/Total.antt =====
-- The parsers of the command line return on every text.
use webrtc_doctor.Prelude.{
  ℕ, ◌+◌, ◌*◌, ◌-◌, Bool, true, false, List, [], ◌∷◌, Option, none, some, Result, err, ok_or,
  Returns, >>=-Returns, map_err-Returns, if◌then◌else◌, leb, ◌==◌,
}
use webrtc_doctor.Prelude.Text.{Text}
use webrtc_doctor.Command.Split.{
  split_once, rsplit_once, has, strip_prefix, any_eq, to_ascii_lowercase,
}
use webrtc_doctor.Command.Number.{pos_overflow, is_digit, scan, parse_u16}
use webrtc_doctor.Command.Target.{host_and_port, nonempty, check_scheme, parse_stun_like}
use webrtc_doctor.Command.HostPort.{bracketed, bare, numbered, parse_host_port}

pub ok_or-Returns {ε ℓ} : {E : Type ε} {A : Type ℓ} (o : Option A) (e : E) → Returns (ok_or o e)
ok_or-Returns none e = tt
ok_or-Returns (some a) e = tt

if-Returns {ε ℓ} :
    {E : Type ε} {A : Type ℓ} (b : Bool) (x y : Result E A)
    → Returns x
    → Returns y
    → Returns (if b then x else y)
if-Returns true x y h k = h
if-Returns false x y h k = k

scan-Returns : (s : Text) (n : ℕ) → Returns (scan s n)
unfolding scan
scan-Returns [] n = tt
scan-Returns (c ∷ s) n =
    if-Returns (is_digit c) _ _
      (if-Returns (leb 65536 (n * 10 + (c - b'0'))) (err pos_overflow) _ tt
        (scan-Returns s (n * 10 + (c - b'0'))))
      tt

parse_u16-Returns : (s : Text) → Returns (parse_u16 s)
unfolding parse_u16
parse_u16-Returns [] = tt
parse_u16-Returns (c ∷ []) = scan-Returns (c ∷ []) 0
parse_u16-Returns (c ∷ d ∷ s) =
    if-Returns (c == b'+') _ _ (scan-Returns (d ∷ s) 0) (scan-Returns (c ∷ d ∷ s) 0)

host_and_port-Returns :
    (url rest : Text) (default_port : ℕ) (o : Option (Text × Text))
    → Returns (host_and_port url rest default_port o)
unfolding host_and_port
host_and_port-Returns url rest default_port none = tt
host_and_port-Returns url rest default_port (some (h, p)) =
    >>=-Returns _ _ (map_err-Returns _ _ (parse_u16-Returns p)) (λ n e. tt)

nonempty-Returns : (url host : Text) (port : ℕ) → Returns (nonempty url host port)
unfolding nonempty
nonempty-Returns url [] port = tt
nonempty-Returns url (c ∷ cs) port = tt

check_scheme-Returns :
    (url scheme : Text) (allowed : List Text) → Returns (check_scheme url scheme allowed)
unfolding check_scheme
check_scheme-Returns url scheme allowed =
    if-Returns (any_eq (to_ascii_lowercase scheme) allowed) _ _ tt tt

pub parse_stun_like-Returns :
    (url : Text) (allowed : List Text) (default_port : ℕ)
    → Returns (parse_stun_like url allowed default_port)
unfolding parse_stun_like
parse_stun_like-Returns url allowed default_port =
    >>=-Returns (ok_or (split_once b':' url) _) _ (ok_or-Returns (split_once b':' url) _) λ p e₀.
      >>=-Returns (check_scheme url p.0 allowed) _ (check_scheme-Returns url p.0 allowed) λ u e₁.
        >>=-Returns (host_and_port url p.1 default_port (rsplit_once b':' p.1)) _
          (host_and_port-Returns url p.1 default_port (rsplit_once b':' p.1))
          λ t e₂. nonempty-Returns url t.0 t.1

bracketed-Returns : (rest : Text) → Returns (bracketed rest)
unfolding bracketed
bracketed-Returns rest =
    >>=-Returns (ok_or (split_once b']' rest) _) _ (ok_or-Returns (split_once b']' rest) _) λ p e₀.
      >>=-Returns (ok_or (strip_prefix b':' p.1) _) _ (ok_or-Returns (strip_prefix b':' p.1) _)
        λ port e₁. tt

bare-Returns : (s : Text) → Returns (bare s)
unfolding bare
bare-Returns s =
    >>=-Returns (ok_or (rsplit_once b':' s) _) _ (ok_or-Returns (rsplit_once b':' s) _)
      λ p e₀. if-Returns (has b':' p.0) _ _ tt tt

numbered-Returns : (p : Text × Text) → Returns (numbered p)
unfolding numbered
numbered-Returns ([], p) = tt
numbered-Returns (c ∷ host, p) =
    >>=-Returns _ _ (map_err-Returns _ _ (parse_u16-Returns p)) (λ n e. tt)

pub parse_host_port-Returns : (s : Text) → Returns (parse_host_port s)
unfolding parse_host_port
parse_host_port-Returns s = >>=-Returns _ _ (form (strip_prefix b'[' s)) λ p e. numbered-Returns p
  where
    form :
        (o : Option Text)
        → Returns (elim o as (λ _. Result Text (Text × Text)) [
          | some rest ↦ bracketed rest
          | none ↦ bare s
        ])
    form none = bare-Returns s
    form (some rest) = bracketed-Returns rest
