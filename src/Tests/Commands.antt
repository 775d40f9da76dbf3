-- ===== src/Tests/Commands.antt =====
-- The command line at concrete inputs.
use webrtc_doctor.Prelude.{
  ◌≡◌, ◌≢◌, ◌↔◌, refl, arith, true, false, [], ◌∷◌, ◌++◌, List, none, some, ok, bytes_eq,
}
use mathlib.Core.List.{cons-ne-nil}
use webrtc_doctor.Prelude.Text.{Text, text, show_nat}
use webrtc_doctor.Command.Split.{
  split_once, rsplit_once, has, trim_start_matches, trim_end_matches, to_ascii_lowercase, any_eq,
}
use webrtc_doctor.Command.Number.{parse_u16, scan}
use webrtc_doctor.Command.Target.{Target, parse_stun_like}
use webrtc_doctor.Command.Target.Laws.{
  Spells, with_port, Accepted, parse_stun_like-Spells, parse_stun_like-Accepted,
}
use webrtc_doctor.Command.HostPort.{parse_host_port}
use webrtc_doctor.Command.HostPort.Laws as HostPort
use webrtc_doctor.Command.Program.{Safe}
use webrtc_doctor.Command.Render.{IsAddress, format_endpoint, parse_host_port-format_endpoint}
use webrtc_doctor.Checks.IceGather.{Candidate, host, relay}
use webrtc_doctor.Command.Secret.{resolve_secret}
use webrtc_doctor.Command.Secret.Laws.{IsSecret, resolve_secret-Safe}
use webrtc_doctor.Command.Single.{Login, Command, run_single}
use webrtc_doctor.Command.Single as Single
use webrtc_doctor.Command.Single.Laws.{Probed, run_single-Probed}
use webrtc_doctor.Command.Full.{FullArgs, run_full}
use webrtc_doctor.Command.Full.Laws.{Assembled, run_full-Assembled}
use webrtc_doctor.Command.Main.{Flags}
use webrtc_doctor.Tests.Services.{test_services}

abbrev example : Target
example = record { host = text "stun.l.org"; port = 19302 }

abbrev example_uri : Text
example_uri = text "STUN" ++ b':' ∷ (text "stun.l.org" ++ b':' ∷ show_nat 19302)

example_read : parse_stun_like example_uri (text "stun" ∷ []) 3478 ≡ ok example
unfolding parse_stun_like split_once text any_eq bytes_eq to_ascii_lowercase rsplit_once show_nat
    parse_u16 scan trim_end_matches trim_start_matches
example_read = refl

example-Spells : Spells (text "stun" ∷ []) 3478 example_uri example
unfolding has text any_eq bytes_eq to_ascii_lowercase
example-Spells =
    with_port (text "STUN") (text "stun.l.org") 19302 refl refl (cons-ne-nil _ _, ground arith)
      (omega arith)

parse_stun_like-Spells_example : parse_stun_like example_uri (text "stun" ∷ []) 3478 ≡ ok example
parse_stun_like-Spells_example =
    parse_stun_like-Spells (text "stun" ∷ []) 3478 example_uri example example-Spells

parse_stun_like-Accepted_example : Accepted example_uri (text "stun" ∷ []) 3478 example
parse_stun_like-Accepted_example =
    parse_stun_like-Accepted example_uri (text "stun" ∷ []) 3478 example (omega arith) example_read

-- An IPv6 address without brackets loses its last group to the port.
unbracketed :
    parse_stun_like (text "stun:2001:db8::1") (text "stun" ∷ []) 3478
    ≡ ok (record { host = text "2001:db8:"; port = 1 })
unfolding parse_stun_like split_once text any_eq bytes_eq to_ascii_lowercase rsplit_once parse_u16
    scan trim_end_matches trim_start_matches
unbracketed = refl

parse_host_port_iff_example : (parse_host_port (text "[::1]:5684") ≡ ok (text "::1", 5684)) ↔ (
    (number : Text) × HostPort.Spells (text "[::1]:5684") (text "::1") number
    × (text "::1" ≢ [])
    × (parse_u16 number ≡ ok 5684))
parse_host_port_iff_example = HostPort.parse_host_port_iff (text "[::1]:5684") (text "::1") 5684

localhost-IsAddress : IsAddress (text "::1")
unfolding has text
localhost-IsAddress = (cons-ne-nil _ _, refl, refl)

parse_host_port-format_endpoint_example :
    parse_host_port (format_endpoint (text "::1") 5684) ≡ ok (text "::1", 5684)
parse_host_port-format_endpoint_example =
    parse_host_port-format_endpoint (text "::1") 5684 localhost-IsAddress (omega arith)

resolve_secret-Safe_example :
    Safe
      (IsSecret test_services.read_line none true)
      (resolve_secret test_services.read_line none true (text "TURN password"))
resolve_secret-Safe_example =
    resolve_secret-Safe test_services.read_line none true (text "TURN password")

abbrev login : Login
login = record { user = some (text "user"); pass = none; user_stdin = false; pass_stdin = true }

abbrev turn_command : Command
turn_command = Single.turn (text "turn:turn.example.org:3478") login 2

run_single-Probed_example :
    Safe (Probed test_services turn_command) (run_single test_services turn_command)
run_single-Probed_example = run_single-Probed test_services turn_command

abbrev all_four : FullArgs
all_four = record {
  stun = some (text "stun:turn.example.org");
  turn = some (text "turn:turn.example.org:3478");
  turns = some (text "turns:turn.example.org");
  signaling = some (text "wss://signal.example.org/");
  login = login;
  auth_header = some (text "Bearer x");
  auth_header_stdin = false;
  echo_count = 2;
}

run_full-Assembled_example :
    Safe (λ p. Assembled test_services all_four p.1) (run_full test_services all_four)
run_full-Assembled_example = run_full-Assembled test_services all_four

abbrev no_flags : Flags
no_flags = record { json = false; quiet = false }

-- One candidate of an interface, one of a URI.
abbrev two_candidates : List Candidate
two_candidates =
    record {
      kind = host;
      address = text "fe80::1";
      port = 5000;
      interface = some (text "eth0");
      via = none;
    }
    ∷ record {
      kind = relay;
      address = text "1.2.3.4";
      port = 50000;
      interface = none;
      via = some (text "turn:t");
    }
    ∷ []
