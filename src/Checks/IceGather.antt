-- ===== src/Checks/IceGather.antt =====
-- `IceGatherCheck` of checks/ice_gather.rs.
pub mod Ranges
pub mod Laws
use webrtc_doctor.Prelude.{
  ℕ, ◌+◌, ◌*◌, ◌/◌, ◌%◌, ◌≡◌, bit_and, Bool, true, false, ◌&&◌, ◌||◌, List, [], ◌∷◌, ◌++◌, Option,
  none, some, length, get_elem?, replicate, bytes_eq, leb, ◌==◌, if◌then◌else◌,
}
use webrtc_doctor.Prelude.Text.{Text, text, show_nat}
use webrtc_doctor.Report.Json.{Json, num, str, arr, obj, Fields, end, field, items}
use webrtc_doctor.Report.CheckResult
use webrtc_doctor.Stun.Types.{IpAddr, v4, v6, SocketAddr}
use webrtc_doctor.Pipeline.{Check}
use webrtc_doctor.Probe.Context.{TurnSession, ProbeContext, get}
use webrtc_doctor.Probe.Platform.{Platform}
use webrtc_doctor.Probe.Body.{◌>>=◌, ask, exit_with, outcome}
use webrtc_doctor.Checks.Common.{Probe, elapsed_ms, fail_now, or_io}

abbrev pub id : Text
id = text "ice.gather"

abbrev pub name : Text
name = text "ICE candidate gathering"

-- The `kind` of a candidate is one of three texts.
pub data Kind : Type 0 where
  host srflx relay : Kind

pub record Candidate : Type 0 where
  pub kind : Kind
  pub address : Text
  pub port : ℕ
  pub interface : Option Text
  pub via : Option Text

-- The tests of `Ipv4Addr` on the four octets: `is_loopback`, `is_link_local`, `is_unspecified`,
-- `is_multicast`, `is_broadcast`, in the order of the code.
unfoldable pub is_useful_v4 : ℕ → Bool
is_useful_v4 a =
    let first : ℕ = a / 16777216 in
    let second : ℕ = a / 65536 % 256 in
    if first == 127
    then false
    else if (first == 169) && (second == 254)
    then false
    else if a == 0
    then false
    else if (leb 224 first && leb first 239) || (a == 0xFFFF_FFFF)
    then false
    else true

-- `segments()[0]`
abbrev pub segment_0 : List ℕ → ℕ
segment_0 (a ∷ b ∷ rest) = a * 256 + b
segment_0 _ = 0

abbrev pub first_octet : List ℕ → ℕ
first_octet [] = 0
first_octet (a ∷ rest) = a

-- The tests of `Ipv6Addr` on the sixteen octets.
unfoldable pub is_useful_v6 : List ℕ → Bool
is_useful_v6 o =
    if bytes_eq o (replicate 15 0 ++ 1 ∷ [])
    then false
    else if bytes_eq o (replicate 16 0)
    then false
    else if first_octet o == 0xFF
    then false
    else if bit_and (segment_0 o) 0xFFC0 == 0xFE80
    then false
    else true

unfoldable pub is_useful_host_address : IpAddr → Bool
is_useful_host_address (v4 a) = is_useful_v4 a
is_useful_host_address (v6 o) = is_useful_v6 o

pub record KindCounts : Type 0 where
  pub hosts : ℕ
  pub srflxs : ℕ
  pub relays : ℕ

abbrev pub count_kind : Kind → KindCounts → KindCounts
count_kind host k = record k { hosts = k.hosts + 1 }
count_kind srflx k = record k { srflxs = k.srflxs + 1 }
count_kind relay k = record k { relays = k.relays + 1 }

unfoldable pub count_from : List Candidate → KindCounts → KindCounts
count_from [] k = k
count_from (c ∷ cands) k = count_from cands (count_kind c.kind k)

unfoldable pub count_kinds : List Candidate → KindCounts
count_kinds cands = count_from cands (record { hosts = 0; srflxs = 0; relays = 0 })

abbrev pub kind_text : Kind → Text
kind_text host = text "host"
kind_text srflx = text "srflx"
kind_text relay = text "relay"

-- A field that is left out when it is `None`.
abbrev pub optional : Text → Option Text → Fields → Fields
optional key none rest = rest
optional key (some v) rest = field key (str v) rest

abbrev pub candidate_json : Candidate → Json
candidate_json c = obj (
    field (text "kind") (str (kind_text c.kind)) (
      field (text "address") (str c.address) (
        field (text "port") (num c.port)
          (optional (text "interface") c.interface (optional (text "via") c.via end)))))

module _ (platform : Platform) where
  -- The loop over the interfaces.
  unfoldable pub host_candidates : List (Text × IpAddr) → List Candidate
  host_candidates [] = []
  host_candidates ((interface, ip) ∷ rest) =
      let found = host_candidates rest in
      if is_useful_host_address ip
      then record {
        kind = host;
        address = platform.show_ip ip;
        port = 0;
        interface = some interface;
        via = none;
      }
        ∷ found
      else found

  -- `ctx.host.zip(ctx.port)` behind a scheme
  abbrev pub via_of : Text → Option Text → Option ℕ → Option Text
  via_of scheme (some h) (some p) = some (scheme ++ text ":" ++ h ++ text ":" ++ show_nat p)
  via_of scheme _ _ = none

  abbrev pub srflx_candidates : Option Text → Option Text → List Candidate
  srflx_candidates none via = []
  srflx_candidates (some srflx_str) via = elim (platform.parse_addr srflx_str) [
    | none ↦ []
    | some addr ↦
        record {
          kind = srflx;
          address = platform.show_ip addr.ip;
          port = addr.port;
          interface = none;
          via = via;
        }
        ∷ []
  ]

  abbrev pub relay_candidates : Option (TurnSession platform.Socket) → Option Text → List Candidate
  relay_candidates none via = []
  relay_candidates (some session) via =
      record {
        kind = relay;
        address = platform.show_ip session.relayed.ip;
        port = session.relayed.port;
        interface = none;
        via = via;
      }
      ∷ []

  -- The whole list, in the order of the code.
  unfoldable pub gather : ProbeContext platform.Socket → List (Text × IpAddr) → List Candidate
  gather ctx addrs =
      host_candidates addrs
      ++ srflx_candidates (get (text "srflx") ctx.scratch) (via_of (text "stun") ctx.host ctx.port)
      ++ relay_candidates ctx.turn_session (via_of (text "turn") ctx.host ctx.port)

  abbrev pub summary : List Candidate → Text
  summary candidates =
      let counts = count_kinds candidates in
      show_nat (length candidates)
      ++ text " candidates ("
      ++ show_nat counts.hosts
      ++ text " host, "
      ++ show_nat counts.srflxs
      ++ text " srflx, "
      ++ show_nat counts.relays
      ++ text " relay)"

  abbrev pub detail : List Candidate → Json
  detail candidates =
      let counts = count_kinds candidates in
      obj (
        field (text "candidates") (arr (items candidate_json candidates)) (
          field (text "counts")
            (obj (
              field (text "host") (num counts.hosts) (
                field (text "srflx") (num counts.srflxs)
                  (field (text "relay") (num counts.relays) end))))
            end))

  unfoldable pub conclude :
      ProbeContext platform.Socket → ℕ → List Candidate → Probe platform (Unit {0})
  conclude ctx total_ms [] =
      exit_with
        (CheckResult.with_detail (CheckResult.warn id name total_ms (text "no candidates gathered"))
          (detail []))
        ctx
  conclude ctx total_ms (c ∷ more) =
      exit_with
        (CheckResult.with_detail (CheckResult.pass id name total_ms (summary (c ∷ more)))
          (detail (c ∷ more)))
        ctx

  unfoldable pub run : ProbeContext platform.Socket → Probe platform (Unit {0})
  run ctx = do
    started ← ask platform.now
    found ← ask platform.get_if_addrs
    addrs ←
        or_io platform found
          (λ e. fail_now platform id name started ctx (text "enumerate interfaces failed: " ++ e))
    let candidates = gather ctx addrs
    total_ms ← elapsed_ms platform started
    conclude ctx total_ms candidates

  abbrev pub check : Check (ProbeContext platform.Socket × platform.World)
  check = record {
    id = id;
    name = name;
    requires = text "stun.binding" ∷ [];
    run = λ s. outcome (run s.0 s.1);
  }
