-- ===== src/Checks/IceGather/Laws.antt =====
-- The filter and the counts of `IceGatherCheck`, and what its run reports.
use webrtc_doctor.Prelude.{
  ℕ, ◌+◌, ◌≡◌, ◌∙◌, refl, ap, arith, inl, inr, List, [], ◌∷◌, ◌++◌, none, some, length,
  length-append, Bool-cases, All, Option, Option-cases,
}
use webrtc_doctor.Prelude.Text.{Text, text}
use webrtc_doctor.Stun.Types.{IpAddr, SocketAddr, IsIp}
use webrtc_doctor.Probe.Context.{ProbeContext, TurnSession, get}
use webrtc_doctor.Probe.Platform.{Platform}
use webrtc_doctor.Probe.Body.Laws.{Ends, bind-Holds, ask-Holds, exit-Holds, outcome-Ends, Ended}
use webrtc_doctor.Checks.Common.Laws.{
  elapsed-Holds, fail_now-Settles, or_io-Holds, Settles, warn-Settles,
}
use mathlib.Core.Path.{subst}
use webrtc_doctor.Checks.IceGather.Ranges.{
  Outside, nothing, kept, dropped, is_useful_host_address_iff, is_useful_host_address_drop,
}
use webrtc_doctor.Checks.IceGather.{
  id, Candidate, count_from, count_kinds, KindCounts, count_kind, is_useful_host_address,
  srflx_candidates, relay_candidates, via_of, host_candidates, conclude, gather, run,
}

count_from-append :
    (xs ys : List Candidate) (k : KindCounts)
    → count_from (xs ++ ys) k ≡ count_from ys (count_from xs k)
unfolding count_from
count_from-append [] ys k = refl
count_from-append (x ∷ xs) ys k = count_from-append xs ys (count_kind x.kind k)

abbrev add_hosts : KindCounts → ℕ → KindCounts
add_hosts k n = record k { hosts = k.hosts + n }

module _ (platform : Platform) where
  count_from-host_candidates :
      (addrs : List (Text × IpAddr)) (k : KindCounts)
      → count_from (host_candidates platform addrs) k
        ≡ add_hosts k (length (host_candidates platform addrs))
  unfolding count_from host_candidates
  count_from-host_candidates [] k = ap (λ n. record k { hosts = n }) (omega arith)
  count_from-host_candidates ((interface, ip) ∷ rest) k =
      elim (Bool-cases (is_useful_host_address ip)) [
        | inr drop ↦ rw drop (count_from-host_candidates rest k)
        | inl keep ↦ rw keep (
            count_from-host_candidates rest (record k { hosts = k.hosts + 1 })
            ∙ ap (λ n. record k { hosts = n }) (omega arith))
      ]

  -- 1 for a session.
  abbrev pub session_count : Option (TurnSession platform.Socket) → ℕ
  session_count none = 0
  session_count (some session) = 1

  -- 1 for the address of a reflexive candidate that can be read, 0 for none or an unreadable one.
  pub data Reflexive : Option Text → ℕ → Type 0 where
    absent : Reflexive none 0
    unreadable : (t : Text) → platform.parse_addr t ≡ none → Reflexive (some t) 0
    readable :
        (t : Text) (addr : SocketAddr) → platform.parse_addr t ≡ some addr → Reflexive (some t) 1

  -- The counts of the gathered list: a host candidate for each interface with an address outside the
  -- dropped ranges, a reflexive candidate exactly if the scratch map has a readable address under
  -- `srflx`, a relay candidate exactly if there is a session, and nothing else.
  pub record Tally (ctx : ProbeContext platform.Socket) (addrs : List (Text × IpAddr))
      (k : KindCounts) : Type 0 where
    pub hosts_outside : Outside addrs k.hosts
    pub srflx_mapped : Reflexive (get (text "srflx") ctx.scratch) k.srflxs
    pub relay_session : k.relays ≡ session_count ctx.turn_session
    pub complete : k.hosts + k.srflxs + k.relays ≡ length (gather platform ctx addrs)

  host_candidates-Outside :
      (addrs : List (Text × IpAddr))
      → All (λ a. IsIp a.1) addrs
      → Outside addrs (length (host_candidates platform addrs))
  unfolding host_candidates
  host_candidates-Outside [] h = nothing
  host_candidates-Outside ((interface, ip) ∷ rest) (v, h) =
      elim (Bool-cases (is_useful_host_address ip)) [
        | inr drop ↦
            rw (drop, length)
              (dropped interface ip rest _ (is_useful_host_address_drop ip v drop)
                (host_candidates-Outside rest h))
        | inl keep ↦
            rw (keep, length)
              (kept interface ip rest _ ((is_useful_host_address_iff ip v).0 keep)
                (host_candidates-Outside rest h))
      ]

  srflx_candidates-Reflexive :
      (o via : Option Text) → Reflexive o (length (srflx_candidates platform o via))
  srflx_candidates-Reflexive none via = absent
  srflx_candidates-Reflexive (some t) via = elim (Option-cases (platform.parse_addr t)) [
    | inl bad ↦ rw (bad, length) (unreadable t bad)
    | inr (addr, good) ↦ rw (good, length) (readable t addr good)
  ]

  abbrev add_srflx : KindCounts → ℕ → KindCounts
  add_srflx k n = record k { srflxs = k.srflxs + n }

  count_from-srflx :
      (o via : Option Text) (k : KindCounts)
      → count_from (srflx_candidates platform o via) k
        ≡ add_srflx k (length (srflx_candidates platform o via))
  unfolding count_from
  count_from-srflx none via k = ap (λ n. record k { srflxs = n }) (omega arith)
  count_from-srflx (some t) via k = elim (Option-cases (platform.parse_addr t)) [
    | inl bad ↦ rw (bad, count_from, length) (ap (λ n. record k { srflxs = n }) (omega arith))
    | inr (addr, good) ↦ rw (good, count_from, length) refl
  ]

  abbrev add_relay : KindCounts → ℕ → KindCounts
  add_relay k n = record k { relays = k.relays + n }

  count_from-relay :
      (o : Option (TurnSession platform.Socket)) (via : Option Text) (k : KindCounts)
      → (count_from (relay_candidates platform o via) k ≡ add_relay k (session_count o))
        × (length (relay_candidates platform o via) ≡ session_count o)
  unfolding count_from
  count_from-relay none via k = (ap (λ n. record k { relays = n }) (omega arith), refl)
  count_from-relay (some session) via k = (refl, refl)

  -- The counts that the check reports for the list that it gathers, whatever the context, on
  -- interfaces with addresses of the right size: as many hosts as interfaces with an address outside
  -- the dropped ranges, a reflexive candidate exactly if the scratch map has a readable address under
  -- `srflx`, a relay candidate exactly if there is a session, and nothing else.
  pub count_kinds-gather :
      (ctx : ProbeContext platform.Socket) (addrs : List (Text × IpAddr))
      → All (λ a. IsIp a.1) addrs
      → Tally ctx addrs (count_kinds (gather platform ctx addrs))
  unfolding count_kinds gather
  count_kinds-gather ctx addrs valid =
      let zeros : KindCounts = record { hosts = 0; srflxs = 0; relays = 0 } in
      let hs : List Candidate = host_candidates platform addrs in
      let ss : List Candidate =
        srflx_candidates platform (get (text "srflx") ctx.scratch)
          (via_of platform (text "stun") ctx.host ctx.port) in
      let rs : List Candidate =
        relay_candidates platform ctx.turn_session
          (via_of platform (text "turn") ctx.host ctx.port) in
      let n : ℕ = session_count ctx.turn_session in
      let (relayed, many) =
        count_from-relay ctx.turn_session (via_of platform (text "turn") ctx.host ctx.port)
          (add_srflx (add_hosts zeros (length hs)) (length ss)) in
      let whole : count_from (hs ++ ss ++ rs) zeros
          ≡ add_relay (add_srflx (add_hosts zeros (length hs)) (length ss)) n =
        count_from-append (hs ++ ss) rs zeros
        ∙ ap (count_from rs) (
            count_from-append hs ss zeros
            ∙ ap (count_from ss) (count_from-host_candidates addrs zeros)
            ∙ count_from-srflx _ _ _)
        ∙ relayed in
      rw whole (record {
        hosts_outside = subst (Outside addrs) (omega arith) (host_candidates-Outside addrs valid);
        srflx_mapped = subst (Reflexive (get (text "srflx") ctx.scratch)) (omega arith) (
            srflx_candidates-Reflexive (get (text "srflx") ctx.scratch)
              (via_of platform (text "stun") ctx.host ctx.port));
        relay_session = omega arith;
        complete = omega (arith, length-append (hs ++ ss) rs, length-append hs ss, many);
      })

  -- A pass reports at least one candidate, and leaves the context as it was.
  conclude-Ends :
      (ctx : ProbeContext platform.Socket) (ms : ℕ) (cs : List Candidate)
      → Ends (Settles id (λ r c. c ≡ ctx) ctx) (conclude platform ctx ms cs)
  unfolding conclude
  conclude-Ends ctx ms [] = exit-Holds _ _ (warn-Settles ms)
  conclude-Ends ctx ms (c ∷ cs) = exit-Holds _ _ (record { named = refl; left = inl (refl, refl) })

  run-Ends :
      (ctx : ProbeContext platform.Socket)
      → Ends (Settles id (λ r c. c ≡ ctx) ctx) (run platform ctx)
  unfolding run
  run-Ends ctx = bind-Holds (ask-Holds _) λ started e₁. bind-Holds (ask-Holds _) λ found e₂.
      bind-Holds (or_io-Holds platform _ _ (λ e. fail_now-Settles platform _ _ _ _ _)) λ addrs e₃.
        bind-Holds (elapsed-Holds platform _)
          λ ms e₄. conclude-Ends ctx ms (gather platform ctx addrs)

  -- The run always ends in a result with the check's id, and never changes the context.
  pub run-Unchanged :
      (ctx : ProbeContext platform.Socket) (w : platform.World)
      → Ended (Settles id (λ r c. c ≡ ctx) ctx) (run platform ctx w)
  run-Unchanged ctx w = outcome-Ends (run platform ctx) w (run-Ends ctx)
