-- ===== src/Command/Full/Laws.antt =====
-- The report of `full` is made of complete executions, and its verdict is the worst of theirs.
use webrtc_doctor.Prelude.{
  ℕ, ◌≡◌, refl, ◌∙◌, ap, true, List, [], ◌++◌, Option, none, some, ok_or-eq-ok,
}
use webrtc_doctor.Prelude.Text.{Text}
use webrtc_doctor.Report.Status.{CheckResult}
use webrtc_doctor.Report.Verdict.{Verdict, Report, verdict}
use webrtc_doctor.Report.Verdict.Laws.{worse, verdict-append}
use webrtc_doctor.Probe.Context as Context
use webrtc_doctor.Probe.Context.{ProbeContext}
use webrtc_doctor.Command.Total.{ok_or-Returns}
use webrtc_doctor.Command.Program.{
  ◌>>=◌, pure, Safe, bind-Safe, pure-Safe, bail-Safe, or_bail-Safe, if_known-Safe,
}
use webrtc_doctor.Command.Secret.Laws.{IsSecret}
use webrtc_doctor.Command.Services.{Services}
use webrtc_doctor.Command.Pipelines.{Checks, run_pipeline}
use webrtc_doctor.Command.Single.{Login, Command, stun, turn, turns, signaling, is_ws_url}
use webrtc_doctor.Command.Single.Chosen.{
  Chosen, Answered, for_stun, for_turn, for_turns, run_pipeline-Answered,
}
use webrtc_doctor.Command.Single.Laws.{target-Safe, resolved-Safe, aimed-Aimed, signaling-Chosen}
use webrtc_doctor.Command.Full.{
  FullArgs, any_given, Part, full_signaling, full_stun, full_turn, full_turns, read_clock, run_full,
}

module _ (services : Services) where
  -- The results that an argument adds: none without it, and otherwise those of an execution of the
  -- pipeline that the command for it may run.
  pub data Adds (command : Text → Command) : Option Text → List CheckResult → Type 0 where
    nothing : Adds command none []
    answered :
        (url : Text) (report : Report)
        → Answered services (command url) report
        → Adds command (some url) report.results

  -- The verdict on some results.
  abbrev pub judged : List CheckResult → Verdict
  judged results = verdict (record { results = results; total_ms = 0 })

  pub record Assembled (args : FullArgs) (report : Report) : Type 0 where
    pub given : any_given args ≡ true
    pub signaling_results : List CheckResult
    pub stun_results : List CheckResult
    pub turn_results : List CheckResult
    pub turns_results : List CheckResult
    pub for_signaling :
        Adds
          (λ url. signaling url args.auth_header args.auth_header_stdin)
          args.signaling
          signaling_results
    pub for_stun : Adds stun args.stun stun_results
    pub for_turn : Adds (λ url. turn url args.login args.echo_count) args.turn turn_results
    pub for_turns : Adds (λ url. turns url args.login) args.turns turns_results
    pub whole : report.results ≡ signaling_results ++ stun_results ++ turn_results ++ turns_results
    pub worst :
        verdict report
        ≡ worse
            (worse (worse (judged signaling_results) (judged stun_results)) (judged turn_results))
            (judged turns_results)

  -- What a part adds that runs a chosen pipeline.
  answer-Adds :
      (command : Text → Command) (url : Text) (header : List Text) (checks : Checks services)
      (ctx : ProbeContext services.platform.Socket)
      → Chosen services (command url) checks ctx
      → Safe
          (λ (p : Part). Adds command (some url) p.1)
          (run_pipeline services checks ctx >>= λ report. pure (header, report.results))
  answer-Adds command url header checks ctx chosen =
      bind-Safe (run_pipeline-Answered services (command url) checks ctx chosen)
        λ report h. pure-Safe _ (answered url report h)

  full_signaling-Adds :
      (args : FullArgs) (url auth : Option Text)
      → IsSecret services.read_line args.auth_header args.auth_header_stdin auth
      → Safe
          (λ p. Adds (λ u. signaling u args.auth_header args.auth_header_stdin) url p.1)
          (full_signaling services url auth)
  unfolding full_signaling
  full_signaling-Adds args none auth s = pure-Safe _ nothing
  full_signaling-Adds args (some url) auth s =
      if_known-Safe (is_ws_url url)
        (λ ws. bind-Safe (or_bail-Safe _ (ok_or-Returns _ _)) λ host e.
          answer-Adds (λ u. signaling u args.auth_header args.auth_header_stdin) url _ _ _
            (signaling-Chosen services url args.auth_header args.auth_header_stdin host auth ws
              (ok_or-eq-ok _ _ e) s))
        (bail-Safe _)

  full_stun-Adds : (url : Option Text) → Safe (λ p. Adds stun url p.1) (full_stun services url)
  unfolding full_stun Context.new
  full_stun-Adds none = pure-Safe _ nothing
  full_stun-Adds (some url) = bind-Safe (target-Safe services url _ _) λ t e.
      answer-Adds stun url _ _ _ (for_stun url _ (aimed-Aimed services url _ _ t none none 10 e))

  full_turn-Adds :
      (url user pass : Option Text) (login : Login) (count : ℕ)
      → IsSecret services.read_line login.user login.user_stdin user
      → IsSecret services.read_line login.pass login.pass_stdin pass
      → Safe (λ p. Adds (λ u. turn u login count) url p.1) (full_turn services url user pass count)
  unfolding full_turn
  full_turn-Adds none user pass login count u v = pure-Safe _ nothing
  full_turn-Adds (some url) user pass login count u v =
      bind-Safe (target-Safe services url _ _) λ t e.
        answer-Adds (λ x. turn x login count) url _ _ _
          (for_turn url login count user pass _ (aimed-Aimed services url _ _ t user pass count e)
            (u, v))

  full_turns-Adds :
      (url user pass : Option Text) (login : Login)
      → IsSecret services.read_line login.user login.user_stdin user
      → IsSecret services.read_line login.pass login.pass_stdin pass
      → Safe (λ p. Adds (λ u. turns u login) url p.1) (full_turns services url user pass)
  unfolding full_turns Context.new
  full_turns-Adds none user pass login u v = pure-Safe _ nothing
  full_turns-Adds (some url) user pass login u v = bind-Safe (target-Safe services url _ _) λ t e.
      answer-Adds (λ x. turns x login) url _ _ _
        (for_turns url login user pass _ (aimed-Aimed services url _ _ t user pass 10 e) (u, v))

  read_clock-Safe : Safe (λ t. Unit) (read_clock services)
  unfolding read_clock
  read_clock-Safe = record { from = λ w. tt }

  -- The worst of four verdicts, a split at a time.
  verdict-parts :
      (a b c d : List CheckResult) (ms : ℕ)
      → verdict (record { results = a ++ b ++ c ++ d; total_ms = ms })
        ≡ worse (worse (worse (judged a) (judged b)) (judged c)) (judged d)
  verdict-parts a b c d ms =
      verdict-append (a ++ b ++ c) d ms 0 0
      ∙ ap (λ v. worse v (judged d))
          (verdict-append (a ++ b) c 0 0 0
            ∙ ap (λ v. worse v (judged c)) (verdict-append a b 0 0 0))

  -- `full` never panics, whatever its arguments, stdin, the network and the clock do. If it does not
  -- end in an error, at least one URL was given, and the results of its report are, in the order
  -- signaling, STUN, TURN, TURNS and for each URL that was given, those of an execution of the
  -- pipeline of that URL's own command; its verdict is the worst of the verdicts on the four.
  pub run_full-Assembled :
      (args : FullArgs) → Safe (λ p. Assembled args p.1) (run_full services args)
  unfolding run_full
  run_full-Assembled args =
      if_known-Safe (any_given args)
        (λ given. bind-Safe (resolved-Safe services _ _ _) λ user u.
          bind-Safe (resolved-Safe services _ _ _) λ pass v.
            bind-Safe (resolved-Safe services _ _ _) λ auth x.
              bind-Safe read_clock-Safe λ started y.
                bind-Safe (full_signaling-Adds args args.signaling auth x) λ a ha.
                  bind-Safe (full_stun-Adds args.stun) λ b hb.
                    bind-Safe (full_turn-Adds args.turn user pass args.login args.echo_count u v)
                      λ c hc.
                        bind-Safe (full_turns-Adds args.turns user pass args.login u v) λ d hd.
                          bind-Safe read_clock-Safe λ ended z. pure-Safe _ (record {
                            given = given;
                            signaling_results = a.1;
                            stun_results = b.1;
                            turn_results = c.1;
                            turns_results = d.1;
                            for_signaling = ha;
                            for_stun = hb;
                            for_turn = hc;
                            for_turns = hd;
                            whole = refl;
                            worst = verdict-parts a.1 b.1 c.1 d.1 _;
                          }))
        (bail-Safe _)
