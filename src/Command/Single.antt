-- ===== src/Command/Single.antt =====
-- `Command` and the arms of `main` in main.rs that probe one target.
pub mod Chosen
pub mod Laws
use webrtc_doctor.Prelude.{
  ℕ, Bool, true, false, ◌||◌, List, [], ◌∷◌, ◌++◌, Option, none, some, Result, ok, err, ok_or,
  map_err, if◌then◌else◌,
}
use webrtc_doctor.Prelude.Text.{Text, text, show_nat}
use webrtc_doctor.Report.Verdict.{Report, verdict, exit_code}
use webrtc_doctor.Stun.Types.{SocketAddr}
use webrtc_doctor.Probe.Context as Context
use webrtc_doctor.Probe.Context.{ProbeContext}
use webrtc_doctor.Checks.Signaling as Signaling
use webrtc_doctor.Checks.Signaling.{SignalingCheck, is_some}
use webrtc_doctor.Checks.Dtls.Serve.{serve_forever}
use webrtc_doctor.Checks.Runs.{stun_checks, turn_checks, ice_checks}
use webrtc_doctor.Command.Split.{starts_with}
use webrtc_doctor.Command.Target.{CliError, message, Target, parse_stun_like}
use webrtc_doctor.Command.HostPort.{parse_host_port}
use webrtc_doctor.Command.Program.{Program, ◌>>=◌, pure, bail, or_bail, serving_or_bail}
use webrtc_doctor.Command.Secret.{resolve_secret}
use webrtc_doctor.Command.Services.{Services}
use webrtc_doctor.Command.Pipelines.{
  Checks, turns_checks, signaling_checks, dtls_checks, loopback_checks, run_pipeline,
}

-- `--user`, `--pass`, `--user-stdin`, `--pass-stdin`
pub record Login : Type 0 where
  pub user : Option Text
  pub pass : Option Text
  pub user_stdin : Bool
  pub pass_stdin : Bool

-- The subcommands but `full`, with their arguments in the order of the source.
pub data Command : Type 0 where
  stun : Text → Command
  turn : Text → Login → ℕ → Command
  turns : Text → Login → Command
  signaling : Text → Option Text → Bool → Command
  dtls : Option Text → Bool → Text → Command
  ice : Text → Login → Command

-- A context for a target.
abbrev pub aimed : {Socket : Type 0} → Text → Option ℕ → ProbeContext Socket
aimed host port = record Context.new { host = some host; port = port }

abbrev pub with_login :
    {Socket : Type 0} → ProbeContext Socket → Option Text → Option Text → ProbeContext Socket
with_login ctx user pass = record ctx { turn_user = user; turn_pass = pass }

-- `url.starts_with("ws://") || url.starts_with("wss://")`
abbrev pub is_ws_url : Text → Bool
is_ws_url url = starts_with (text "ws://") url || starts_with (text "wss://") url

module _ (services : Services) where
  -- The header, the context and the pipeline; or the address of the server mode, which runs until it
  -- is killed.
  pub data Plan : Type 0 where
    probe : Text → ProbeContext services.platform.Socket → Checks services → Plan
    serve : SocketAddr → Plan

  abbrev pub Planning : Type 0 → Type 0
  Planning A = Program services.platform.World A

  abbrev pub secret : Option Text → Bool → Text → Planning (Option Text)
  secret = resolve_secret services.read_line

  unfoldable pub plan_turn : Text → Login → ℕ → Planning Plan
  plan_turn url login echo_count = do
    t ← or_bail (parse_stun_like url (text "turn" ∷ []) 3478)
    user ← secret login.user login.user_stdin (text "TURN username")
    pass ← secret login.pass login.pass_stdin (text "TURN password")
    pure (
        probe (text "probing " ++ t.host ++ text " (turn)")
          (record (with_login (aimed t.host (some t.port)) user pass) { echo_count = echo_count })
          (turn_checks services.platform))

  unfoldable pub plan_turns : Text → Login → Planning Plan
  plan_turns url login = do
    t ← or_bail (parse_stun_like url (text "turns" ∷ []) 5349)
    user ← secret login.user login.user_stdin (text "TURN username")
    pass ← secret login.pass login.pass_stdin (text "TURN password")
    pure (
        probe (text "probing " ++ t.host ++ text " (turns)")
          (with_login (aimed t.host (some t.port)) user pass) (turns_checks services))

  -- `SignalingCheck::new(url)`, with the header where there is one.
  abbrev pub signaling_of : Text → Option Text → SignalingCheck
  signaling_of url none = Signaling.new url
  signaling_of url (some h) = Signaling.with_auth_header (Signaling.new url) h

  unfoldable pub plan_signaling : Text → Option Text → Bool → Planning Plan
  plan_signaling url auth_header auth_header_stdin =
      if is_ws_url url
      then (do
        host ← or_bail (
            ok_or (services.sockets.uri_host url)
              (message (text "could not parse host from `" ++ url ++ text "`")))
        auth ← secret auth_header auth_header_stdin (text "Authorization header")
        pure (
            probe (text "probing " ++ host ++ text " (signaling)") (aimed host none)
              (signaling_checks services (signaling_of url auth))))
      else bail (
          message (
            text "signaling expects a ws:// or wss:// URL, got `"
            ++ url
            ++ text "` (example: `wss://signal.example.com/`)"))

  unfoldable pub plan_dtls : Option Text → Bool → Text → Planning Plan
  plan_dtls target true bind = do
    addr ← or_bail (
        ok_or (services.platform.parse_addr bind) (
          message (
            text "--bind expects an addr:port, got `"
            ++ bind
            ++ text "` (invalid socket address syntax)")))
    pure (serve addr)
  plan_dtls (some t) false bind = do
    p ← or_bail (
        map_err
          (λ e.
            message
              (text "dtls target must be `host:port`, got `" ++ t ++ text "` (" ++ e ++ text ")"))
          (parse_host_port t))
    pure (
        probe (text "probing " ++ p.0 ++ text ":" ++ show_nat p.1 ++ text " (dtls)")
          (aimed p.0 (some p.1)) (dtls_checks services))
  plan_dtls none false bind =
      pure (probe (text "dtls loopback (in-process)") Context.new (loopback_checks services))

  -- The credentials of `ice`, on a `turn:` URL and on another.
  unfoldable pub ice_login : Bool → Login → Planning (Option Text × Option Text)
  ice_login true login = do
    user ← secret login.user login.user_stdin (text "TURN username")
    pass ← secret login.pass login.pass_stdin (text "TURN password")
    pure (user, pass)
  ice_login false login =
      if is_some login.user || is_some login.pass || login.user_stdin || login.pass_stdin
      then bail (
          message (
            text "credentials supplied but URL scheme is `stun:`; use a `turn:` URL to collect a "
            ++ text "relay candidate"))
      else pure (none, none)

  unfoldable pub plan_ice : Text → Login → Planning Plan
  plan_ice url login = do
    t ← or_bail (parse_stun_like url (text "stun" ∷ text "turn" ∷ []) 3478)
    let is_turn = starts_with (text "turn:") url
    c ← ice_login is_turn login
    pure (
        probe (text "probing " ++ t.host ++ text " (ice)")
          (with_login (aimed t.host (some t.port)) c.0 c.1) (ice_checks services.platform is_turn))

  unfoldable pub plan : Command → Planning Plan
  unfolding plan_turn plan_turns plan_signaling plan_dtls plan_ice
  plan (stun url) = do
    t ← or_bail (parse_stun_like url (text "stun" ∷ []) 3478)
    pure (
        probe (text "probing " ++ t.host ++ text " (stun)") (aimed t.host (some t.port))
          (stun_checks services.platform))
  plan (turn url login echo_count) = plan_turn url login echo_count
  plan (turns url login) = plan_turns url login
  plan (signaling url auth_header auth_header_stdin) =
      plan_signaling url auth_header auth_header_stdin
  plan (dtls target serve_ bind) = plan_dtls target serve_ bind
  plan (ice url login) = plan_ice url login

  -- The report of the pipeline. The server mode has none: it ends by an error, or not at all.
  unfoldable pub probe_plan : Plan → Planning (Option Report)
  probe_plan (probe header ctx checks) = do
    report ← run_pipeline services checks ctx
    pure (some report)
  probe_plan (serve addr) = do
    served ← serving_or_bail (serve_forever services.dtls addr)
    pure none

  unfoldable pub run_single : Command → Planning (Option Report)
  run_single command = do p ← plan command; probe_plan p
