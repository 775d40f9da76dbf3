-- ===== src/Command/Single/Chosen.antt =====
-- The pipelines that a command for one target may run, and on which contexts.
use webrtc_doctor.Prelude.{
  ℕ, ◌≡◌, refl, ◌∙◌, ◌⊎◌, Bool, true, false, List, [], ◌∷◌, map, Option, none, some, ok,
  if◌then◌else◌,
}
use webrtc_doctor.Prelude.Text.{Text, text}
use webrtc_doctor.Report.Verdict.{Report}
use webrtc_doctor.Probe.Context.{ProbeContext}
use webrtc_doctor.Checks.Signaling.{SignalingCheck}
use webrtc_doctor.Checks.Runs.{
  stun_checks, turn_checks, ice_checks, stun-AllDependable, turn-AllDependable, ice-AllDependable,
}
use webrtc_doctor.Command.Split.{starts_with}
use webrtc_doctor.Command.Target.{Target, parse_stun_like}
use webrtc_doctor.Command.HostPort.{parse_host_port}
use webrtc_doctor.Command.Program.{Safe, map-Safe}
use webrtc_doctor.Command.Secret.Laws.{IsSecret}
use webrtc_doctor.Command.Services.{Services}
use webrtc_doctor.Command.Pipelines.{
  Checks, turns_checks, signaling_checks, dtls_checks, loopback_checks, run_pipeline, Dependable,
  Executed, run_pipeline-Executed, turns-Dependable, signaling-Dependable, dtls-Dependable,
  loopback-Dependable,
}
use webrtc_doctor.Command.Single.{
  Login, Command, stun, turn, turns, signaling, dtls, ice, is_ws_url,
}

-- The ids of the results of a command's report, in order.
abbrev pub ids_of : Command → List Text
ids_of (stun url) = text "dns" ∷ text "stun.binding" ∷ []
ids_of (turn url login count) =
    text "dns" ∷ text "stun.binding" ∷ text "turn.alloc.udp" ∷ text "turn.echo.udp" ∷ []
ids_of (turns url login) = text "dns" ∷ text "turn.alloc.tls" ∷ []
ids_of (signaling url flag from_stdin) = text "dns" ∷ text "signaling" ∷ []
ids_of (dtls (some target) server bind) = text "dns" ∷ text "dtls.remote" ∷ []
ids_of (dtls none server bind) = text "dtls.loopback" ∷ []
ids_of (ice url login) =
    text "dns"
    ∷ text "stun.binding"
    ∷ (if starts_with (text "turn:") url
        then text "turn.alloc.udp" ∷ text "ice.gather" ∷ []
        else text "ice.gather" ∷ [])

module _ (services : Services) where
  -- A context with this host, port, user, password and packet count, and no trace of a probe.
  pub record Fresh (host : Option Text) (port : Option ℕ) (user pass : Option Text) (count : ℕ)
      (ctx : ProbeContext services.platform.Socket) : Type 0 where
    pub host_set : ctx.host ≡ host
    pub port_set : ctx.port ≡ port
    pub user_set : ctx.turn_user ≡ user
    pub pass_set : ctx.turn_pass ≡ pass
    pub count_set : ctx.echo_count ≡ count
    pub five_seconds : ctx.default_timeout ≡ 5000000000
    pub unresolved : ctx.resolved_ips ≡ []
    pub no_session : ctx.turn_session ≡ none
    pub empty_scratch : ctx.scratch ≡ []

  -- A context with the target of a URL.
  pub record Aimed (url : Text) (allowed : List Text) (default_port : ℕ) (user pass : Option Text)
      (count : ℕ) (ctx : ProbeContext services.platform.Socket) : Type 0 where
    pub target : Target
    pub parsed : parse_stun_like url allowed default_port ≡ ok target
    pub fresh : Fresh (some target.host) (some target.port) user pass count ctx

  abbrev pub LoggedIn : Login → Option Text → Option Text → Type 0
  LoggedIn login user pass =
      IsSecret services.read_line login.user login.user_stdin user
      × IsSecret services.read_line login.pass login.pass_stdin pass

  -- The credentials that `ice` uses: those of its login on a `turn:` URL, and none on another.
  abbrev pub IceLogin : Bool → Login → Option Text → Option Text → Type 0
  IceLogin is_turn login user pass =
      ((is_turn ≡ true)
        × IsSecret services.read_line login.user login.user_stdin user
        × IsSecret services.read_line login.pass login.pass_stdin pass)
      ⊎ ((is_turn ≡ false) × (user ≡ none) × (pass ≡ none))

  -- The pipelines and the contexts that a command may run.
  pub data Chosen : Command → Checks services → ProbeContext services.platform.Socket → Type 0 where
    for_stun :
        (url : Text) (ctx : ProbeContext services.platform.Socket)
        → Aimed url (text "stun" ∷ []) 3478 none none 10 ctx
        → Chosen (stun url) (stun_checks services.platform) ctx
    for_turn :
        (url : Text) (login : Login) (count : ℕ) (user pass : Option Text)
        (ctx : ProbeContext services.platform.Socket)
        → Aimed url (text "turn" ∷ []) 3478 user pass count ctx
        → LoggedIn login user pass
        → Chosen (turn url login count) (turn_checks services.platform) ctx
    for_turns :
        (url : Text) (login : Login) (user pass : Option Text)
        (ctx : ProbeContext services.platform.Socket)
        → Aimed url (text "turns" ∷ []) 5349 user pass 10 ctx
        → LoggedIn login user pass
        → Chosen (turns url login) (turns_checks services) ctx
    for_signaling :
        (url : Text) (flag : Option Text) (from_stdin : Bool) (host : Text) (sig : SignalingCheck)
        (ctx : ProbeContext services.platform.Socket)
        → is_ws_url url ≡ true
        → services.sockets.uri_host url ≡ some host
        → sig.url ≡ url
        → IsSecret services.read_line flag from_stdin sig.auth_header
        → Fresh (some host) none none none 10 ctx
        → Chosen (signaling url flag from_stdin) (signaling_checks services sig) ctx
    for_dtls :
        (target bind host : Text) (port : ℕ) (ctx : ProbeContext services.platform.Socket)
        → parse_host_port target ≡ ok (host, port)
        → Fresh (some host) (some port) none none 10 ctx
        → Chosen (dtls (some target) false bind) (dtls_checks services) ctx
    for_loopback :
        (bind : Text) (ctx : ProbeContext services.platform.Socket)
        → Fresh none none none none 10 ctx
        → Chosen (dtls none false bind) (loopback_checks services) ctx
    for_ice :
        (url : Text) (login : Login) (user pass : Option Text)
        (ctx : ProbeContext services.platform.Socket)
        → Aimed url (text "stun" ∷ text "turn" ∷ []) 3478 user pass 10 ctx
        → IceLogin (starts_with (text "turn:") url) login user pass
        → Chosen (ice url login) (ice_checks services.platform (starts_with (text "turn:") url)) ctx

  pub Chosen-Dependable :
      (command : Command) (checks : Checks services) (ctx : ProbeContext services.platform.Socket)
      → Chosen command checks ctx
      → Dependable services checks
  Chosen-Dependable _ _ _ (for_stun url ctx a) = stun-AllDependable services.platform
  Chosen-Dependable _ _ _ (for_turn url login count user pass ctx a l) =
      turn-AllDependable services.platform
  Chosen-Dependable _ _ _ (for_turns url login user pass ctx a l) = turns-Dependable services
  Chosen-Dependable _ _ _ (for_signaling url flag from_stdin host sig ctx h e k l m) =
      signaling-Dependable services _
  Chosen-Dependable _ _ _ (for_dtls target bind host port ctx e h) = dtls-Dependable services
  Chosen-Dependable _ _ _ (for_loopback bind ctx h) = loopback-Dependable services
  Chosen-Dependable _ _ _ (for_ice url login user pass ctx a l) =
      ice-AllDependable services.platform _

  ice-ids :
      (b : Bool)
      → map (λ c. c.id) (ice_checks services.platform b)
        ≡ text "dns"
          ∷ text "stun.binding"
          ∷ (if b then text "turn.alloc.udp" ∷ text "ice.gather" ∷ [] else text "ice.gather" ∷ [])
  ice-ids true = refl
  ice-ids false = refl

  pub Chosen-ids :
      (command : Command) (checks : Checks services) (ctx : ProbeContext services.platform.Socket)
      → Chosen command checks ctx
      → map (λ c. c.id) checks ≡ ids_of command
  Chosen-ids _ _ _ (for_stun url ctx a) = refl
  Chosen-ids _ _ _ (for_turn url login count user pass ctx a l) = refl
  Chosen-ids _ _ _ (for_turns url login user pass ctx a l) = refl
  Chosen-ids _ _ _ (for_signaling url flag from_stdin host sig ctx h e k l m) = refl
  Chosen-ids _ _ _ (for_dtls target bind host port ctx e h) = refl
  Chosen-ids _ _ _ (for_loopback bind ctx h) = refl
  Chosen-ids _ _ _ (for_ice url login user pass ctx a l) = ice-ids _

  -- A report of a chosen pipeline, with the ids of the command.
  pub record Answered (command : Command) (report : Report) : Type 0 where
    pub checks : Checks services
    pub ctx : ProbeContext services.platform.Socket
    pub chosen : Chosen command checks ctx
    pub executed : Executed services checks ctx report
    pub ids : map (λ r. r.id) report.results ≡ ids_of command

  pub Chosen-Answered :
      (command : Command) (checks : Checks services) (ctx : ProbeContext services.platform.Socket)
      (report : Report)
      → Chosen command checks ctx
      → Executed services checks ctx report
      → Answered command report
  Chosen-Answered command checks ctx report chosen (w, final, e, same) = record {
    checks = checks;
    ctx = ctx;
    chosen = chosen;
    executed = (w, final, e, same);
    ids = same ∙ Chosen-ids command checks ctx chosen;
  }

  pub run_pipeline-Answered :
      (command : Command) (checks : Checks services) (ctx : ProbeContext services.platform.Socket)
      → Chosen command checks ctx
      → Safe (Answered command) (run_pipeline services checks ctx)
  run_pipeline-Answered command checks ctx chosen =
      map-Safe
        (run_pipeline-Executed services checks ctx (Chosen-Dependable command checks ctx chosen))
        λ report e. Chosen-Answered command checks ctx report chosen e
