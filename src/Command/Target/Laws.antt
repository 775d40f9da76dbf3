-- ===== src/Command/Target/Laws.antt =====
-- The targets that `parse_stun_like` reads, and nothing else.
use webrtc_doctor.Prelude.{
  ℕ, ◌<◌, ◌≡◌, ◌≢◌, ◌⊎◌, inl, inr, refl, sym, ap, arith, true, false, ◌∙◌, List, [], ◌∷◌, ◌++◌,
  Option, none, some, ok, ◌>>=◌, All, ok_or, map_err, >>=-eq-ok, ok-injective, map_err-eq-ok,
  ok_or-eq-ok,
}
use mathlib.Core.Path.{subst}
use mathlib.Core.List.{cons-ne-nil}
use webrtc_doctor.Prelude.Text.{Text, show_nat}
use webrtc_doctor.Command.Split.{
  split_once, rsplit_once, has, to_ascii_lowercase, trim_matches, any_eq,
}
use webrtc_doctor.Command.Split.Laws.{
  split_once-append, rsplit_once-append, rsplit_once-none, split_once-eq-some, rsplit_once-eq-some,
  none-rsplit_once, trim_matches_id, trim_matches-around,
}
use webrtc_doctor.Command.Number.{parse_u16}
use webrtc_doctor.Command.Number.Laws.{parse_u16-lt, parse_u16-show_nat, has-show_nat}
use webrtc_doctor.Command.Target.{
  Target, is_bracket, host_and_port, nonempty, check_scheme, parse_stun_like,
}

-- A nonempty host without brackets.
abbrev pub IsHost : Text → Type 0
IsHost host = (host ≢ []) × All (λ c. is_bracket c ≡ false) host

-- A URI that is read back, its scheme in any case: with a port, and the host in brackets or not; or
-- without a port, and a host that has no colon.
pub data Spells (allowed : List Text) (default_port : ℕ) : Text → Target → Type 0 where
  with_port :
      (scheme host : Text) (port : ℕ)
      → has b':' scheme ≡ false
      → any_eq (to_ascii_lowercase scheme) allowed ≡ true
      → IsHost host
      → port < 65536
      → Spells allowed default_port
          (scheme ++ b':' ∷ (host ++ b':' ∷ show_nat port))
          (record { host = host; port = port })
  in_brackets :
      (scheme host : Text) (port : ℕ)
      → has b':' scheme ≡ false
      → any_eq (to_ascii_lowercase scheme) allowed ≡ true
      → IsHost host
      → port < 65536
      → Spells allowed default_port
          (scheme ++ b':' ∷ (b'[' ∷ host ++ b']' ∷ [] ++ b':' ∷ show_nat port))
          (record { host = host; port = port })
  without_port :
      (scheme host : Text)
      → has b':' scheme ≡ false
      → any_eq (to_ascii_lowercase scheme) allowed ≡ true
      → host ≢ []
      → has b':' host ≡ false
      → Spells allowed default_port
          (scheme ++ b':' ∷ host)
          (record { host = host; port = default_port })

nonempty_ok :
    (url host : Text) (port : ℕ)
    → host ≢ []
    → nonempty url host port ≡ ok (record { host = host; port = port })
unfolding nonempty
nonempty_ok url [] port h = absurd (h refl)
nonempty_ok url (c ∷ cs) port h = refl

-- The steps after the scheme.
parse_stun_like-rest :
    (scheme rest : Text) (allowed : List Text) (default_port : ℕ)
    → has b':' scheme ≡ false
    → any_eq (to_ascii_lowercase scheme) allowed ≡ true
    → parse_stun_like (scheme ++ b':' ∷ rest) allowed default_port ≡ (
        host_and_port (scheme ++ b':' ∷ rest) rest default_port (rsplit_once b':' rest) >>= λ t.
        nonempty (scheme ++ b':' ∷ rest) t.0 t.1)
unfolding parse_stun_like check_scheme
parse_stun_like-rest scheme rest allowed default_port h k =
    rw (split_once-append b':' scheme rest h) (rw k refl)

host_and_port-split :
    (url rest h : Text) (default_port port : ℕ)
    → port < 65536
    → host_and_port url rest default_port (rsplit_once b':' (h ++ b':' ∷ show_nat port))
      ≡ ok (trim_matches is_bracket h, port)
unfolding host_and_port
host_and_port-split url rest h default_port port fits =
    rw (rsplit_once-append b':' h (show_nat port) (has-show_nat b':' port refl))
      (rw (parse_u16-show_nat port fits) refl)

-- A URI with an accepted scheme in any case is read as its target: with a port of sixteen bits, where
-- the host has no brackets or stands between two; and without a port, where the host has no colon,
-- with the default.
pub parse_stun_like-Spells :
    (allowed : List Text) (default_port : ℕ) (url : Text) (t : Target)
    → Spells allowed default_port url t
    → parse_stun_like url allowed default_port ≡ ok t
unfolding host_and_port
parse_stun_like-Spells allowed default_port _ _ (with_port scheme host port h k clean fits) =
    rw (parse_stun_like-rest scheme _ allowed default_port h k) (
      rw (host_and_port-split _ _ host default_port port fits)
        (rw (trim_matches_id is_bracket host clean.1) (nonempty_ok _ host port clean.0)))
parse_stun_like-Spells allowed default_port _ _ (in_brackets scheme host port h k clean fits) =
    rw (parse_stun_like-rest scheme _ allowed default_port h k) (
      rw (host_and_port-split _ _ (b'[' ∷ host ++ b']' ∷ []) default_port port fits) (
        rw (trim_matches-around is_bracket b'[' host b']' refl clean.0 clean.1 refl)
          (nonempty_ok _ host port clean.0)))
parse_stun_like-Spells allowed default_port _ _ (without_port scheme host h k ne no_colon) =
    rw (parse_stun_like-rest scheme host allowed default_port h k)
      (rw (rsplit_once-none b':' host no_colon) (nonempty_ok _ host default_port ne))

-- Where the host and the port of a target came from.
pub record GivenPort (rest : Text) (t : Target) : Type 0 where
  pub before : Text
  pub number : Text
  pub split : rest ≡ before ++ b':' ∷ number
  pub last : has b':' number ≡ false
  pub read : parse_u16 number ≡ ok t.port
  pub trimmed : t.host ≡ trim_matches is_bracket before

abbrev pub Source : ℕ → Text → Target → Type 0
Source default_port rest t =
    GivenPort rest t ⊎ ((has b':' rest ≡ false) × (t.host ≡ rest) × (t.port ≡ default_port))

-- A URI that was read as a target.
pub record Accepted (url : Text) (allowed : List Text) (default_port : ℕ) (t : Target)
    : Type 0 where
  pub scheme : Text
  pub rest : Text
  pub whole : url ≡ scheme ++ b':' ∷ rest
  pub first : has b':' scheme ≡ false
  pub known : any_eq (to_ascii_lowercase scheme) allowed ≡ true
  pub source : Source default_port rest t
  pub named : t.host ≢ []
  pub fits : t.port < 65536

check_scheme-eq-ok :
    (url scheme : Text) (allowed : List Text)
    → check_scheme url scheme allowed ≡ ok tt
    → any_eq (to_ascii_lowercase scheme) allowed ≡ true
unfolding check_scheme
check_scheme-eq-ok url scheme allowed h = ground arith

nonempty-eq-ok :
    (url host : Text) (port : ℕ) (t : Target)
    → nonempty url host port ≡ ok t
    → (host ≢ []) × (t ≡ record { host = host; port = port })
unfolding nonempty
nonempty-eq-ok url [] port t h = cc
nonempty-eq-ok url (c ∷ cs) port t h = (cons-ne-nil c cs, sym (ok-injective h))

host_and_port-Source :
    (url rest : Text) (default_port : ℕ) (host : Text) (port : ℕ) (split : Option (Text × Text))
    → rsplit_once b':' rest ≡ split
    → default_port < 65536
    → host_and_port url rest default_port split ≡ ok (host, port)
    → Source default_port rest (record { host = host; port = port }) × (port < 65536)
unfolding host_and_port
host_and_port-Source url rest default_port host port none e small h =
    let same : (rest, default_port) ≡ (host, port) = ok-injective h in
    (
      inr (none-rsplit_once b':' rest e, ap (λ p. p.0) (sym same), ap (λ p. p.1) (sym same)),
      ground (arith, same),
    )
host_and_port-Source url rest default_port host port (some (before, number)) e small h =
    let (n, read, done) = >>=-eq-ok (map_err _ (parse_u16 number)) _ h in
    let parsed = map_err-eq-ok _ (parse_u16 number) read in
    let same : (trim_matches is_bracket before, n) ≡ (host, port) = ok-injective done in
    let (split, last) = rsplit_once-eq-some b':' rest before number e in
    (
      inl (record {
        before = before;
        number = number;
        split = split;
        last = last;
        read = parsed ∙ ap (λ p. ok p.1) same;
        trimmed = ap (λ p. p.0) (sym same);
      }),
      parse_u16-lt number port (parsed ∙ ap (λ p. ok p.1) same),
    )

-- With a default port of sixteen bits: a target comes from a URI whose scheme, up to its first colon, is an accepted one in some case,
-- and has a nonempty host. Where the rest has a colon, the port is the number after the last one and
-- the host is the text before it without brackets at its ends; otherwise the host is all of the rest
-- and the port the default. The port has sixteen bits.
pub parse_stun_like-Accepted :
    (url : Text) (allowed : List Text) (default_port : ℕ) (t : Target)
    → default_port < 65536
    → parse_stun_like url allowed default_port ≡ ok t
    → Accepted url allowed default_port t
unfolding parse_stun_like
parse_stun_like-Accepted url allowed default_port t small h =
    let (p, found, h₁) = >>=-eq-ok (ok_or (split_once b':' url) _) _ h in
    let (whole, first) = split_once-eq-some b':' url p.0 p.1 (ok_or-eq-ok _ _ found) in
    let (u, known, h₂) = >>=-eq-ok (check_scheme url p.0 allowed) _ h₁ in
    let (q, read, h₃) =
      >>=-eq-ok (host_and_port url p.1 default_port (rsplit_once b':' p.1)) _ h₂ in
    let (named, same) = nonempty-eq-ok url q.0 q.1 t h₃ in
    let (source, fits) = host_and_port-Source url p.1 default_port q.0 q.1 _ refl small read in
    subst (Accepted url allowed default_port) (sym same) (record {
      scheme = p.0;
      rest = p.1;
      whole = whole;
      first = first;
      known = check_scheme-eq-ok url p.0 allowed known;
      source = source;
      named = named;
      fits = fits;
    })
