-- ===== src/Checks/Dns.antt =====
-- `DnsCheck` of checks/dns.rs.
pub mod Laws
use webrtc_doctor.Prelude.{
  ℕ, ◌-◌, Bool, true, false, ◌||◌, List, [], ◌∷◌, ◌++◌, Option, none, some, length, ◌==◌,
  if◌then◌else◌,
}
use webrtc_doctor.Prelude.Text.{Text, text, show_nat}
use webrtc_doctor.Report.Json.{Json, str, arr, obj, end, field, items}
use webrtc_doctor.Report.Status.{CheckResult}
use webrtc_doctor.Report.CheckResult
use webrtc_doctor.Stun.Types.{IpAddr, SocketAddr, ip_eq}
use webrtc_doctor.Pipeline.{Check}
use webrtc_doctor.Probe.Context.{ProbeContext}
use webrtc_doctor.Probe.Platform.{Platform}
use webrtc_doctor.Probe.Body.{◌>>=◌, ask, exit_with, or_return, outcome}
use webrtc_doctor.Checks.Common.{Probe, elapsed_ms, fail_now, or_io}

abbrev pub id : Text
id = text "dns"

abbrev pub name : Text
name = text "DNS resolution"

abbrev pub seen_in : List IpAddr → IpAddr → Bool
seen_in [] ip = false
seen_in (x ∷ xs) ip = ip_eq x ip || seen_in xs ip

-- The loop over the answers of the resolver, with the set `seen` and the list `ips`.
unfoldable pub dedupe : List SocketAddr → List IpAddr → List IpAddr → List IpAddr
dedupe [] seen ips = ips
dedupe (sa ∷ rest) seen ips =
    let fresh = dedupe rest (sa.ip ∷ seen) (ips ++ sa.ip ∷ []) in
    let known = dedupe rest seen ips in if seen_in seen sa.ip then known else fresh

module _ (platform : Platform) where
  abbrev pub summary : Text → IpAddr → ℕ → ℕ → Text
  summary host first count latency_ms =
      if count == 1
      then host
        ++ text " → "
        ++ platform.show_ip first
        ++ text " ("
        ++ show_nat latency_ms
        ++ text " ms)"
      else host
        ++ text " → "
        ++ platform.show_ip first
        ++ text " (+"
        ++ show_nat (count - 1)
        ++ text " more, "
        ++ show_nat latency_ms
        ++ text " ms)"

  -- The result for the addresses that were found, the first of which is `first`.
  abbrev pub conclude :
      ProbeContext platform.Socket → Text → ℕ → List IpAddr → Probe platform (Unit {0})
  conclude ctx host latency_ms [] =
      exit_with (CheckResult.fail id name latency_ms (host ++ text " resolved to zero addresses"))
        ctx
  conclude ctx host latency_ms (first ∷ more) =
      let ips = first ∷ more in
      exit_with
        (CheckResult.with_detail
          (CheckResult.pass id name latency_ms (summary host first (length ips) latency_ms))
          (obj (
            field (text "host") (str host)
              (field (text "addresses") (arr (items (λ ip. str (platform.show_ip ip)) ips)) end))))
        (record ctx { resolved_ips = ips })

  unfoldable pub run : ProbeContext platform.Socket → Probe platform (Unit {0})
  run ctx = do
    host ← or_return ctx.host (CheckResult.skip id name (text "no host supplied")) ctx
    let port : ℕ = elim ctx.port [ none ↦ 0 | some p ↦ p ]
    let query = host ++ text ":" ++ show_nat port
    started ← ask platform.now
    found ← ask (platform.lookup_host query)
    addrs ←
        or_io platform found
          (λ e. fail_now platform id name started ctx (host ++ text " did not resolve: " ++ e))
    let ips = dedupe addrs [] []
    latency_ms ← elapsed_ms platform started
    conclude ctx host latency_ms ips

  abbrev pub check : Check (ProbeContext platform.Socket × platform.World)
  check = record { id = id; name = name; requires = []; run = λ s. outcome (run s.0 s.1) }
