-- ===== src/Checks/Dns/Laws.antt =====
-- The addresses that `DnsCheck` keeps, and what its run leaves behind.
use webrtc_doctor.Prelude.{
  ◌≡◌, ◌∙◌, refl, sym, ap, arith, inl, inr, true, false, ◌||◌, List, [], ◌∷◌, ◌++◌, map,
  bytes_eq_iff, bytes_eq_self, ==_iff, Bool-cases, ℕ, Option, none, some,
}
use webrtc_doctor.Prelude.Text.{Text, text, show_nat}
use webrtc_doctor.Stun.Types.{IpAddr, v4, v6, SocketAddr, ip_eq}
use webrtc_doctor.Probe.Context.{ProbeContext}
use webrtc_doctor.Probe.Platform.{Platform, given}
use webrtc_doctor.Probe.Body.Laws.{
  Ends, bind-Holds, ask-Holds, exit-Holds, or_return-Holds, outcome-Ends, Ended,
}
use webrtc_doctor.Checks.Common.Laws.{
  elapsed-Holds, fail_now-Settles, or_io-Holds, Settles, fail-Settles, skip-Settles,
}
use webrtc_doctor.Checks.Dns.{id, seen_in, dedupe, conclude, run}

pub ip_eq_sound : (a b : IpAddr) → ip_eq a b ≡ true → a ≡ b
ip_eq_sound (v4 a) (v4 b) h = ap v4 ((==_iff a b).0 h)
ip_eq_sound (v6 a) (v6 b) h = ap v6 ((bytes_eq_iff a b).0 h)
ip_eq_sound (v4 a) (v6 b) h = cc
ip_eq_sound (v6 a) (v4 b) h = cc

pub ip_eq_self : (a : IpAddr) → ip_eq a a ≡ true
ip_eq_self (v4 a) = (==_iff a a).1 refl
ip_eq_self (v6 a) = bytes_eq_self a

seen_in-append :
    (xs ys : List IpAddr) (ip : IpAddr) → seen_in (xs ++ ys) ip ≡ (seen_in xs ip || seen_in ys ip)
seen_in-append [] ys ip = refl
seen_in-append (x ∷ xs) ys ip = ground (arith, seen_in-append xs ys ip)

-- No address twice.
abbrev pub Distinct : List IpAddr → Type 0
Distinct [] = Unit
Distinct (x ∷ xs) = (seen_in xs x ≡ false) × Distinct xs

Distinct-append :
    (xs : List IpAddr) (y : IpAddr) → Distinct xs → seen_in xs y ≡ false → Distinct (xs ++ y ∷ [])
Distinct-append [] y h e = (refl, tt)
Distinct-append (x ∷ xs) y (h, hs) e =
    let differ : ip_eq x y ≡ false = ground (arith, e) in
    let absent : seen_in xs y ≡ false = ground (arith, e) in
    let back : ip_eq y x ≡ false = elim (Bool-cases (ip_eq y x)) [
      | inr differs ↦ differs
      | inl same ↦ absurd (cc (differ, ip_eq_self x, ip_eq_sound y x same))
    ] in
    (ground (arith, h, back, seen_in-append xs (y ∷ []) x), Distinct-append xs y hs absent)

-- The set and the list hold the same addresses.
abbrev Agree : List IpAddr → List IpAddr → Type 0
Agree seen ips = (ip : IpAddr) → seen_in seen ip ≡ seen_in ips ip

Agree-insert :
    (seen ips : List IpAddr) (x : IpAddr) → Agree seen ips → Agree (x ∷ seen) (ips ++ x ∷ [])
Agree-insert seen ips x h ip = ground (arith, h ip, seen_in-append ips (x ∷ []) ip)

dedupe-Distinct_from :
    (addrs : List SocketAddr) (seen ips : List IpAddr)
    → Agree seen ips
    → Distinct ips
    → Distinct (dedupe addrs seen ips)
unfolding dedupe
dedupe-Distinct_from [] seen ips h d = d
dedupe-Distinct_from (sa ∷ rest) seen ips h d = elim (Bool-cases (seen_in seen sa.ip)) [
  | inl known ↦ rw known (dedupe-Distinct_from rest seen ips h d)
  | inr fresh ↦ rw fresh (
      dedupe-Distinct_from rest (sa.ip ∷ seen) (ips ++ sa.ip ∷ []) (Agree-insert seen ips sa.ip h)
        (Distinct-append ips sa.ip d (sym (h sa.ip) ∙ fresh)))
]

seen_in-known :
    (ips : List IpAddr) (a b : IpAddr)
    → seen_in ips a ≡ true
    → ip_eq a b ≡ true
    → seen_in ips b ≡ true
seen_in-known ips a b h e = sym (ap (seen_in ips) (ip_eq_sound a b e)) ∙ h

seen_in-dedupe_from :
    (addrs : List SocketAddr) (seen ips : List IpAddr) (ip : IpAddr)
    → Agree seen ips
    → seen_in (dedupe addrs seen ips) ip ≡ (seen_in ips ip || seen_in (map (λ a. a.ip) addrs) ip)
unfolding dedupe
seen_in-dedupe_from [] seen ips ip h = ground arith
seen_in-dedupe_from (sa ∷ rest) seen ips ip h = elim (Bool-cases (seen_in seen sa.ip)) [
  | inl known ↦
      let step = seen_in-dedupe_from rest seen ips ip h in
      let there : seen_in ips sa.ip ≡ true = sym (h sa.ip) ∙ known in
      rw known (elim (Bool-cases (ip_eq sa.ip ip)) [
        | inl same ↦ ground (arith, step, same, seen_in-known ips sa.ip ip there same)
        | inr differ ↦ ground (arith, step, differ)
      ])
  | inr fresh ↦ rw fresh (
      ground (
        arith,
        seen_in-dedupe_from rest (sa.ip ∷ seen) (ips ++ sa.ip ∷ []) ip
            (Agree-insert seen ips sa.ip h),
        seen_in-append ips (sa.ip ∷ []) ip,
      ))
]

-- The addresses of the answers, each once: no address is kept twice, and an address is kept exactly
-- if some answer has it.
pub dedupe-Distinct :
    (addrs : List SocketAddr)
    → Distinct (dedupe addrs [] [])
      × ((ip : IpAddr) → seen_in (dedupe addrs [] []) ip ≡ seen_in (map (λ a. a.ip) addrs) ip)
dedupe-Distinct addrs = (
  dedupe-Distinct_from addrs [] [] (λ ip. refl) tt,
  λ ip. seen_in-dedupe_from addrs [] [] ip (λ ip. refl),
)

module _ (platform : Platform) where
  -- `host:port`, with 0 for no port
  abbrev pub query_of : Text → Option ℕ → Text
  query_of host none = host ++ text ":" ++ show_nat 0
  query_of host (some port) = host ++ text ":" ++ show_nat port

  -- What a pass leaves: the addresses of the resolver's answers to the query for the host and the
  -- port, each once, at least one, and nothing else changed.
  pub record Resolved (ctx c : ProbeContext platform.Socket) : Type 0 where
    pub host : Text
    pub named_host : ctx.host ≡ some host
    pub asked : platform.World
    pub answers : List SocketAddr
    pub found : (platform.lookup_host (query_of host ctx.port) asked).0 ≡ given answers
    pub first : IpAddr
    pub more : List IpAddr
    pub distinct : Distinct (first ∷ more)
    pub exactly : (ip : IpAddr) → seen_in (first ∷ more) ip ≡ seen_in (map (λ a. a.ip) answers) ip
    pub only : c ≡ record ctx { resolved_ips = first ∷ more }

  conclude-Ends :
      (ctx : ProbeContext platform.Socket) (host : Text) (ms : ℕ) (ips : List IpAddr)
      (asked : platform.World) (answers : List SocketAddr)
      → ctx.host ≡ some host
      → (platform.lookup_host (query_of host ctx.port) asked).0 ≡ given answers
      → Distinct ips
      → ((ip : IpAddr) → seen_in ips ip ≡ seen_in (map (λ a. a.ip) answers) ip)
      → Ends (Settles id (λ r c. Resolved ctx c) ctx) (conclude platform ctx host ms ips)
  conclude-Ends ctx host ms [] asked answers known found d all = exit-Holds _ _ (fail-Settles ms)
  conclude-Ends ctx host ms (first ∷ more) asked answers known found d all =
      exit-Holds _ _ (record {
        named = refl;
        left = inl (
          refl,
          record {
            host = host;
            named_host = known;
            asked = asked;
            answers = answers;
            found = found;
            first = first;
            more = more;
            distinct = d;
            exactly = all;
            only = refl;
          },
        );
      })

  query_same :
      (host : Text) (port : Option ℕ)
      → query_of host port
        ≡ host ++ text ":" ++ show_nat (elim port as (λ _. ℕ) [ none ↦ 0 | some p ↦ p ])
  query_same host none = refl
  query_same host (some p) = refl

  run-Ends :
      (ctx : ProbeContext platform.Socket)
      → Ends (Settles id (λ r c. Resolved ctx c) ctx) (run platform ctx)
  unfolding run
  run-Ends ctx = bind-Holds (or_return-Holds _ _ _ skip-Settles) λ host e₀.
      bind-Holds (ask-Holds _) λ started e₁. bind-Holds (ask-Holds _) λ found e₂.
        bind-Holds (or_io-Holds platform _ _ (λ e. fail_now-Settles platform _ _ _ _ _)) λ addrs e₃.
          bind-Holds (elapsed-Holds platform _) λ ms e₄.
            conclude-Ends ctx host ms (dedupe addrs [] []) (e₂.0) addrs e₀
              (ap (λ q. (platform.lookup_host q (e₂.0)).0) (query_same host ctx.port) ∙ e₂.1 ∙ e₃)
              (dedupe-Distinct addrs).0 (dedupe-Distinct addrs).1

  -- The run always ends in a result with the check's id. On a pass the context has exactly
  -- the addresses of the resolver's answers to the query for its host and its port, at least one and
  -- none twice, and is otherwise as before; without a pass it is as before.
  pub run-Resolved :
      (ctx : ProbeContext platform.Socket) (w : platform.World)
      → Ended (Settles id (λ r c. Resolved ctx c) ctx) (run platform ctx w)
  run-Resolved ctx w = outcome-Ends (run platform ctx) w (run-Ends ctx)
