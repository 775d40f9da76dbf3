-- ===== src/Command/Full.antt =====
-- `run_full` of main.rs: a pipeline for each URL, and one report of all results.
pub mod Laws
use webrtc_doctor.Prelude.{
  ℕ, ◌-◌, ◌/◌, ◌%◌, ◌^◌, Bool, ◌||◌, List, [], ◌∷◌, ◌++◌, Option, none, some, ok_or, if◌then◌else◌,
}
use webrtc_doctor.Prelude.Text.{Text, text}
use webrtc_doctor.Report.Status.{CheckResult}
use webrtc_doctor.Report.Verdict.{Report}
use webrtc_doctor.Checks.Signaling.{is_some}
use webrtc_doctor.Checks.Runs.{stun_checks, turn_checks}
use webrtc_doctor.Command.Target.{message, parse_stun_like}
use webrtc_doctor.Command.Program.{Program, Progress, reached, ◌>>=◌, pure, bail, or_bail}
use webrtc_doctor.Command.Services.{Services}
use webrtc_doctor.Command.Pipelines.{turns_checks, signaling_checks, run_pipeline}
use webrtc_doctor.Command.Single.{
  Login, aimed, with_login, is_ws_url, Planning, secret, signaling_of,
}

-- The arguments of `full`.
pub record FullArgs : Type 0 where
  pub stun : Option Text
  pub turn : Option Text
  pub turns : Option Text
  pub signaling : Option Text
  pub login : Login
  pub auth_header : Option Text
  pub auth_header_stdin : Bool
  pub echo_count : ℕ

-- Something to do.
abbrev pub any_given : FullArgs → Bool
any_given args =
    is_some args.stun || is_some args.turn || is_some args.turns || is_some args.signaling

-- What one URL adds to the header and to the results.
abbrev pub Part : Type 0
Part = List Text × List CheckResult

-- `header_parts.join(" + ")`
unfoldable pub join_plus : List Text → Text
join_plus [] = []
join_plus (s ∷ []) = s
join_plus (s ∷ t ∷ ss) = s ++ text " + " ++ join_plus (t ∷ ss)

module _ (services : Services) where
  unfoldable pub full_signaling : Option Text → Option Text → Planning services Part
  full_signaling none auth = pure ([], [])
  full_signaling (some url) auth =
      if is_ws_url url
      then (do
        host ← or_bail (
            ok_or (services.sockets.uri_host url)
              (message (text "could not parse host from --signaling `" ++ url ++ text "`")))
        report ←
            run_pipeline services (signaling_checks services (signaling_of services url auth))
              (aimed host none)
        pure ((text "signaling " ++ host) ∷ [], report.results))
      else bail
          (message (text "--signaling expects a ws:// or wss:// URL, got `" ++ url ++ text "`"))

  unfoldable pub full_stun : Option Text → Planning services Part
  full_stun none = pure ([], [])
  full_stun (some url) = do
    t ← or_bail (parse_stun_like url (text "stun" ∷ []) 3478)
    report ← run_pipeline services (stun_checks services.platform) (aimed t.host (some t.port))
    pure ((text "stun " ++ t.host) ∷ [], report.results)

  unfoldable pub full_turn : Option Text → Option Text → Option Text → ℕ → Planning services Part
  full_turn none user pass echo_count = pure ([], [])
  full_turn (some url) user pass echo_count = do
    t ← or_bail (parse_stun_like url (text "turn" ∷ []) 3478)
    report ←
        run_pipeline services (turn_checks services.platform)
          (record (with_login (aimed t.host (some t.port)) user pass) { echo_count = echo_count })
    pure ((text "turn " ++ t.host) ∷ [], report.results)

  unfoldable pub full_turns : Option Text → Option Text → Option Text → Planning services Part
  full_turns none user pass = pure ([], [])
  full_turns (some url) user pass = do
    t ← or_bail (parse_stun_like url (text "turns" ∷ []) 5349)
    report ←
        run_pipeline services (turns_checks services)
          (with_login (aimed t.host (some t.port)) user pass)
    pure ((text "turns " ++ t.host) ∷ [], report.results)

  unfoldable pub read_clock : Planning services ℕ
  read_clock w = reached (services.clock w) w

  -- The header and the report.
  unfoldable pub run_full : FullArgs → Planning services (Text × Report)
  run_full args =
      if any_given args
      then (do
        turn_user ← secret services args.login.user args.login.user_stdin (text "TURN username")
        turn_pass ← secret services args.login.pass args.login.pass_stdin (text "TURN password")
        auth ← secret services args.auth_header args.auth_header_stdin (text "Authorization header")
        started ← read_clock
        a ← full_signaling args.signaling auth
        b ← full_stun args.stun
        c ← full_turn args.turn turn_user turn_pass args.echo_count
        d ← full_turns args.turns turn_user turn_pass
        ended ← read_clock
        pure (
          text "probing " ++ join_plus (a.0 ++ b.0 ++ c.0 ++ d.0) ++ text " (full)",
          record {
            results = a.1 ++ b.1 ++ c.1 ++ d.1;
            total_ms = (ended - started) / 1000000 % 2 ^ 64;
          },
        ))
      else bail
          (message (text "`full` needs at least one of --stun / --turn / --turns / --signaling"))
