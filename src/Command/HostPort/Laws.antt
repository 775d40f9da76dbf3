-- ===== src/Command/HostPort/Laws.antt =====
-- `parse_host_port` reads exactly the two forms of its documentation.
use webrtc_doctor.Prelude.{
  ℕ, ◌≡◌, ◌≢◌, ◌↔◌, refl, sym, ap, ◌∙◌, arith, false, [], ◌∷◌, ◌++◌, Option, none, some, ok, Result,
  ◌>>=◌, ok_or, map_err, >>=-eq-ok, map_err-eq-ok, ok_or-eq-ok, ok-injective,
}
use mathlib.Core.Path.{subst}
use mathlib.Core.List.{cons-ne-nil}
use webrtc_doctor.Prelude.Text.{Text}
use webrtc_doctor.Command.Split.{split_once, rsplit_once, has, strip_prefix}
use webrtc_doctor.Command.Split.Laws.{
  split_once-append, rsplit_once-append, split_once-eq-some, rsplit_once-eq-some,
  strip_prefix-eq-some,
}
use webrtc_doctor.Command.Number.{parse_u16}
use webrtc_doctor.Command.HostPort.{bracketed, bare, numbered, parse_host_port}

-- A text in one of the two forms: `[host]:port`, or `host:port` with one colon and no `[` in front.
pub data Spells : Text → Text → Text → Type 0 where
  in_brackets :
      (host port : Text)
      → has b']' host ≡ false
      → Spells (b'[' ∷ host ++ b']' ∷ b':' ∷ port) host port
  plain :
      (host port : Text)
      → has b':' host ≡ false
      → has b':' port ≡ false
      → strip_prefix b'[' (host ++ b':' ∷ port) ≡ none
      → Spells (host ++ b':' ∷ port) host port

numbered_ok :
    (host p : Text) (port : ℕ)
    → host ≢ []
    → parse_u16 p ≡ ok port
    → numbered (host, p) ≡ ok (host, port)
unfolding numbered
numbered_ok [] p port ne e = absurd (ne refl)
numbered_ok (c ∷ host) p port ne e = rw e refl

numbered-eq-ok :
    (host p h : Text) (port : ℕ)
    → numbered (host, p) ≡ ok (h, port)
    → (host ≢ []) × (host ≡ h) × (parse_u16 p ≡ ok port)
unfolding numbered
numbered-eq-ok [] p h port e = cc
numbered-eq-ok (c ∷ host) p h port e =
    let (n, read, done) = >>=-eq-ok (map_err _ (parse_u16 p)) _ e in
    let same : (c ∷ host, n) ≡ (h, port) = ok-injective done in
    (
      cons-ne-nil c host,
      ap (λ q. q.0) same,
      map_err-eq-ok _ (parse_u16 p) read ∙ ap (λ q. ok q.1) same,
    )

parse_host_port-split :
    (s host port : Text) → Spells s host port → parse_host_port s ≡ numbered (host, port)
unfolding parse_host_port bracketed bare strip_prefix
parse_host_port-split _ _ _ (in_brackets host port h) =
    rw (split_once-append b']' host (b':' ∷ port) h) refl
parse_host_port-split _ _ _ (plain host port h k e) =
    rw e (rw (rsplit_once-append b':' host port k) (rw h refl))

bracketed-Spells :
    (rest : Text) (p : Text × Text) → bracketed rest ≡ ok p → Spells (b'[' ∷ rest) p.0 p.1
unfolding bracketed
bracketed-Spells rest p h =
    let (q, found, h₁) = >>=-eq-ok (ok_or (split_once b']' rest) _) _ h in
    let (port, after, h₂) = >>=-eq-ok (ok_or (strip_prefix b':' q.1) _) _ h₁ in
    let (whole, first) = split_once-eq-some b']' rest q.0 q.1 (ok_or-eq-ok _ _ found) in
    let colon = strip_prefix-eq-some b':' q.1 port (ok_or-eq-ok _ _ after) in
    let same : (q.0, port) ≡ p = ok-injective h₂ in
    subst (λ t. Spells (b'[' ∷ t) p.0 p.1) (sym (whole ∙ ap (λ t. q.0 ++ b']' ∷ t) colon))
      (subst (λ r. Spells (b'[' ∷ q.0 ++ b']' ∷ b':' ∷ port) r.0 r.1) same
        (in_brackets q.0 port first))

bare-Spells :
    (s : Text) (p : Text × Text) → strip_prefix b'[' s ≡ none → bare s ≡ ok p → Spells s p.0 p.1
unfolding bare
bare-Spells s p open_ h =
    let (q, found, h₁) = >>=-eq-ok (ok_or (rsplit_once b':' s) _) _ h in
    let (whole, last) = rsplit_once-eq-some b':' s q.0 q.1 (ok_or-eq-ok _ _ found) in
    let only : has b':' q.0 ≡ false = ground arith in
    let same : q ≡ p = ground arith in
    subst (λ r. Spells s r.0 r.1) same
      (subst (λ t. Spells t q.0 q.1) (sym whole)
        (plain q.0 q.1 only last (sym (ap (strip_prefix b'[') whole) ∙ open_)))

parse_host_port-Spells :
    (s : Text) (host : Text) (port : ℕ) (o : Option Text)
    → strip_prefix b'[' s ≡ o
    → (elim o [ some rest ↦ bracketed rest | none ↦ bare s ] >>= numbered) ≡ ok (host, port)
    → (number : Text) × Spells s host number × (host ≢ []) × (parse_u16 number ≡ ok port)
parse_host_port-Spells s host port o e h =
    let (p, read, done) = >>=-eq-ok (elim o [ some rest ↦ bracketed rest | none ↦ bare s ]) _ h in
    let (named, same, parsed) = numbered-eq-ok p.0 p.1 host port done in
    (
      p.1,
      subst (λ t. Spells s t p.1) same (spelled o e p read),
      subst (λ t. t ≢ []) same named,
      parsed,
    )
  where
    spelled :
        (o' : Option Text)
        → strip_prefix b'[' s ≡ o'
        → (p : Text × Text)
        → elim o' as (λ _. Result Text (Text × Text)) [ some rest ↦ bracketed rest | none ↦ bare s ]
          ≡ ok p
        → Spells s p.0 p.1
    spelled none e' p h' = bare-Spells s p e' h'
    spelled (some rest) e' p h' =
        subst (λ t. Spells t p.0 p.1) (sym (strip_prefix-eq-some b'[' s rest e'))
          (bracketed-Spells rest p h')

-- A host and a port are read from exactly the texts that have one of the two forms, with a nonempty
-- host and a number that fits sixteen bits.
pub parse_host_port_iff :
    (s host : Text) (port : ℕ)
    → (parse_host_port s ≡ ok (host, port))
      ↔ ((number : Text) × Spells s host number × (host ≢ []) × (parse_u16 number ≡ ok port))
unfolding parse_host_port
parse_host_port_iff s host port = (
  λ h. parse_host_port-Spells s host port _ refl h,
  λ (number, spells, ne, e).
      parse_host_port-split s host number spells ∙ numbered_ok host number port ne e,
)
