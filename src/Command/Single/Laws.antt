-- ===== src/Command/Single/Laws.antt =====
-- What the commands that probe one target run, and on which context.
use webrtc_doctor.Prelude.{
  ℕ, ◌≡◌, ◌≢◌, refl, sym, inl, inr, Bool, true, false, ◌||◌, List, Option, none, some, ok,
  map_err-Returns, ok_or-eq-ok, map_err-eq-ok,
}
use mathlib.Core.Path.{subst}
use webrtc_doctor.Stun.Types.{SocketAddr}
use webrtc_doctor.Probe.Timed.{broke}
use webrtc_doctor.Checks.Dtls.Serve.{serve_forever}
use webrtc_doctor.Prelude.Text.{Text, text}
use webrtc_doctor.Report.Verdict.{Report}
use webrtc_doctor.Probe.Context as Context
use webrtc_doctor.Probe.Context.{ProbeContext}
use webrtc_doctor.Checks.Signaling.{is_some}
use webrtc_doctor.Command.Split.{starts_with}
use webrtc_doctor.Command.Target.{Target, parse_stun_like}
use webrtc_doctor.Command.Total.{parse_stun_like-Returns, parse_host_port-Returns, ok_or-Returns}
use webrtc_doctor.Command.Program.{
  or_bail, Safe, bind-Safe, pure-Safe, bail-Safe, or_bail-Safe, serving_or_bail-Safe, if-Safe,
  if_known-Safe,
}
use webrtc_doctor.Command.Secret.{resolve_secret}
use webrtc_doctor.Command.Secret.Laws.{IsSecret, resolve_secret-Safe}
use webrtc_doctor.Command.Services.{Services}
use webrtc_doctor.Command.Pipelines.{signaling_checks}
use webrtc_doctor.Command.Single.Chosen.{
  Fresh, Aimed, IceLogin, Chosen, for_stun, for_turn, for_turns, for_signaling, for_dtls,
  for_loopback, for_ice, Answered, run_pipeline-Answered,
}
use webrtc_doctor.Command.Single.{
  aimed, with_login, signaling_of, Login, Command, stun, turn, turns, signaling, dtls, ice,
  is_ws_url, Plan, probe, serve, ice_login, plan_turn, plan_turns, plan_signaling, plan_dtls,
  plan_ice, plan, probe_plan, run_single,
}

module _ (services : Services) where
  -- A plan of a command: the server mode for `--serve`, and a chosen pipeline otherwise.
  abbrev pub Planned : Command → Plan services → Type 0
  Planned command (probe header ctx checks) = Chosen services command checks ctx
  Planned command (serve addr) =
      (target : Option Text) × (bind : Text) × (command ≡ dtls target true bind)
      × (services.platform.parse_addr bind ≡ some addr)

  pub resolved-Safe :
      (flag : Option Text) (from_stdin : Bool) (label : Text)
      → Safe
          (IsSecret services.read_line flag from_stdin)
          (resolve_secret services.read_line flag from_stdin label)
  resolved-Safe = resolve_secret-Safe services.read_line

  pub target-Safe :
      (url : Text) (allowed : List Text) (default_port : ℕ)
      → Safe {W = services.platform.World}
          (λ t. parse_stun_like url allowed default_port ≡ ok t)
          (or_bail (parse_stun_like url allowed default_port))
  target-Safe url allowed default_port =
      or_bail-Safe _ (parse_stun_like-Returns url allowed default_port)

  pub new-Fresh : Fresh services none none none none 10 Context.new
  unfolding Context.new
  new-Fresh = record {
    host_set = refl;
    user_set = refl;
    pass_set = refl;
    count_set = refl;
    port_set = refl;
    five_seconds = refl;
    unresolved = refl;
    no_session = refl;
    empty_scratch = refl;
  }

  pub aimed-Fresh :
      (host : Text) (port : Option ℕ)
      → Fresh services (some host) port none none 10 (aimed host port)
  unfolding Context.new
  aimed-Fresh host port = record {
    host_set = refl;
    user_set = refl;
    pass_set = refl;
    count_set = refl;
    port_set = refl;
    five_seconds = refl;
    unresolved = refl;
    no_session = refl;
    empty_scratch = refl;
  }

  pub aimed-Aimed :
      (url : Text) (allowed : List Text) (default_port : ℕ) (t : Target) (user pass : Option Text)
      (count : ℕ)
      → parse_stun_like url allowed default_port ≡ ok t
      → Aimed services url allowed default_port user pass count
          (record (with_login (aimed t.host (some t.port)) user pass) { echo_count = count })
  unfolding Context.new
  aimed-Aimed url allowed default_port t user pass count e = record {
    target = t;
    parsed = e;
    fresh = record {
      host_set = refl;
      user_set = refl;
      pass_set = refl;
      count_set = refl;
      port_set = refl;
      five_seconds = refl;
      unresolved = refl;
      no_session = refl;
      empty_scratch = refl;
    };
  }

  pub signaling-Chosen :
      (url : Text) (flag : Option Text) (from_stdin : Bool) (host : Text) (auth : Option Text)
      → is_ws_url url ≡ true
      → services.sockets.uri_host url ≡ some host
      → IsSecret services.read_line flag from_stdin auth
      → Chosen services
          (signaling url flag from_stdin)
          (signaling_checks services (signaling_of services url auth))
          (aimed host none)
  signaling-Chosen url flag from_stdin host none ws e u =
      for_signaling url flag from_stdin host (signaling_of services url none) _ ws e refl u
        (aimed-Fresh host none)
  signaling-Chosen url flag from_stdin host (some auth) ws e u =
      for_signaling url flag from_stdin host (signaling_of services url (some auth)) _ ws e refl u
        (aimed-Fresh host none)

  plan_turn-Planned :
      (url : Text) (login : Login) (count : ℕ)
      → Safe (Planned (turn url login count)) (plan_turn services url login count)
  unfolding plan_turn
  plan_turn-Planned url login count = bind-Safe (target-Safe url _ _) λ t e.
      bind-Safe (resolved-Safe _ _ _) λ user u. bind-Safe (resolved-Safe _ _ _) λ pass v.
        pure-Safe _
          (for_turn url login count user pass _ (aimed-Aimed url _ _ t user pass count e) (u, v))

  plan_turns-Planned :
      (url : Text) (login : Login)
      → Safe (Planned (turns url login)) (plan_turns services url login)
  unfolding plan_turns Context.new
  plan_turns-Planned url login = bind-Safe (target-Safe url _ _) λ t e.
      bind-Safe (resolved-Safe _ _ _) λ user u. bind-Safe (resolved-Safe _ _ _) λ pass v.
        pure-Safe _ (for_turns url login user pass _ (aimed-Aimed url _ _ t user pass 10 e) (u, v))

  ice_login-Safe :
      (b : Bool) (login : Login)
      → Safe (λ c. IceLogin services b login c.0 c.1) (ice_login services b login)
  unfolding ice_login
  ice_login-Safe true login =
      bind-Safe (resolved-Safe _ _ _)
        λ user u. bind-Safe (resolved-Safe _ _ _) λ pass v. pure-Safe _ (inl (refl, u, v))
  ice_login-Safe false login =
      if-Safe (is_some login.user || is_some login.pass || login.user_stdin || login.pass_stdin)
        (bail-Safe _) (pure-Safe _ (inr (refl, refl, refl)))

  plan_ice-Planned :
      (url : Text) (login : Login) → Safe (Planned (ice url login)) (plan_ice services url login)
  unfolding plan_ice Context.new
  plan_ice-Planned url login = bind-Safe (target-Safe url _ _) λ t e.
      bind-Safe (ice_login-Safe (starts_with (text "turn:") url) login)
        λ c u. pure-Safe _ (for_ice url login c.0 c.1 _ (aimed-Aimed url _ _ t c.0 c.1 10 e) u)

  plan_dtls-Planned :
      (target : Option Text) (server : Bool) (bind : Text)
      → Safe (Planned (dtls target server bind)) (plan_dtls services target server bind)
  unfolding plan_dtls
  plan_dtls-Planned target true bind =
      bind-Safe (or_bail-Safe _ (ok_or-Returns _ _))
        λ addr e. pure-Safe _ (target, bind, refl, ok_or-eq-ok _ _ e)
  plan_dtls-Planned (some t) false bind =
      bind-Safe (or_bail-Safe _ (map_err-Returns _ _ (parse_host_port-Returns t))) λ p e.
        pure-Safe _ (for_dtls t bind p.0 p.1 _ (map_err-eq-ok _ _ e) (aimed-Fresh p.0 (some p.1)))
  plan_dtls-Planned none false bind = pure-Safe _ (for_loopback bind _ new-Fresh)

  plan_signaling-Planned :
      (url : Text) (flag : Option Text) (from_stdin : Bool)
      → Safe (Planned (signaling url flag from_stdin)) (plan_signaling services url flag from_stdin)
  unfolding plan_signaling
  plan_signaling-Planned url flag from_stdin =
      if_known-Safe (is_ws_url url)
        (λ ws. bind-Safe (or_bail-Safe _ (ok_or-Returns _ _)) λ host e.
          bind-Safe (resolved-Safe _ _ _) λ auth u.
            pure-Safe _ (signaling-Chosen url flag from_stdin host auth ws (ok_or-eq-ok _ _ e) u))
        (bail-Safe _)

  pub plan-Planned : (command : Command) → Safe (Planned command) (plan services command)
  unfolding plan Context.new
  plan-Planned (stun url) =
      bind-Safe (target-Safe url _ _)
        λ t e. pure-Safe _ (for_stun url _ (aimed-Aimed url _ _ t none none 10 e))
  plan-Planned (turn url login count) = plan_turn-Planned url login count
  plan-Planned (turns url login) = plan_turns-Planned url login
  plan-Planned (signaling url flag from_stdin) = plan_signaling-Planned url flag from_stdin
  plan-Planned (dtls target server bind) = plan_dtls-Planned target server bind
  plan-Planned (ice url login) = plan_ice-Planned url login

  -- The end of a command: a report of a chosen pipeline, or the server mode, on the address that it
  -- was given and not failed.
  pub data Probed : Command → Option Report → Type 0 where
    reported :
        (command : Command) (report : Report)
        → Answered services command report
        → Probed command (some report)
    serving :
        (target : Option Text) (bind : Text) (addr : SocketAddr) (began : services.platform.World)
        → services.platform.parse_addr bind ≡ some addr
        → ((e : Text) → (serve_forever services.dtls addr began).0 ≢ broke e)
        → Probed (dtls target true bind) none

  pub probe_plan-Probed :
      (command : Command) (p : Plan services)
      → Planned command p
      → Safe (Probed command) (probe_plan services p)
  unfolding probe_plan
  probe_plan-Probed command (probe header ctx checks) chosen =
      bind-Safe (run_pipeline-Answered services command checks ctx chosen)
        λ report e. pure-Safe _ (reported command report e)
  probe_plan-Probed command (serve addr) (target, bind, same, read) =
      bind-Safe (serving_or_bail-Safe _) λ served l.
        pure-Safe none
          (subst (λ c. Probed c none) (sym same) (serving target bind addr l.0 read l.1))

  -- Whatever the arguments, stdin, the network and the clock do, a command for one target does not
  -- panic. It ends in an error, in the server mode of `dtls` on the address that `--bind` names, or in a
  -- report of an execution of the command's own checks, with a result for each under its id. The context
  -- of the execution has the target that the argument names, if any; the credentials of the flags or of
  -- stdin where the command uses them, and none otherwise; the packet count of `turn`, and 10 otherwise;
  -- and for the rest it is a new context.
  pub run_single-Probed : (command : Command) → Safe (Probed command) (run_single services command)
  unfolding run_single
  run_single-Probed command = bind-Safe (plan-Planned command) λ p h. probe_plan-Probed command p h
