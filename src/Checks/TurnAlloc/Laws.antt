-- ===== src/Checks/TurnAlloc/Laws.antt =====
-- What a run of `TurnAllocateCheck` leaves behind.
use webrtc_doctor.Prelude.{ℕ, ◌≡◌, ◌∙◌, refl, inl, inr, List, Option, none, some}
use webrtc_doctor.Prelude.Text.{Text}
use webrtc_doctor.Report.Status.{CheckResult}
use webrtc_doctor.Stun.Types.{SocketAddr}
use webrtc_doctor.Turn.Message.{long_term_key}
use webrtc_doctor.Turn.Allocate.{AllocateOutcome, success, unauthorized, error}
use webrtc_doctor.Turn.Allocate.Responses.{parse_allocate_response-Returns}
use webrtc_doctor.Turn.Allocate.Total.{build_allocate_unauth-Returns, build_allocate_authed-Returns}
use webrtc_doctor.Probe.Context.{ProbeContext}
use webrtc_doctor.Probe.Platform.{Platform}
use webrtc_doctor.Probe.Body.Laws.{
  Holds, Ends, bind-Holds, ask-Holds, pure-Holds, exit-Holds, or_return-Holds, or_else-Holds,
  map-Holds, outcome-Ends, Ended,
}
use webrtc_doctor.Checks.Common.Laws.{
  elapsed-Holds, fail_now-Settles, or_io-Holds, or_received-Holds, fresh_txid-Holds, Settles,
  fail-Settles, warn-Settles, skip-Settles,
}
use webrtc_doctor.Checks.TurnAlloc.Allocated.{Unauthed, Authed, Allocated}
use webrtc_doctor.Checks.TurnAlloc.{
  id, both, challenge_of, credentials_of, conclude, round_1, round_2, run,
}

module _ (platform : Platform) where
  abbrev Passes : ProbeContext platform.Socket → CheckResult → ProbeContext platform.Socket → Type 0
  Passes ctx = Settles id (Allocated platform ctx) ctx

  round_1-Holds :
      (ctx : ProbeContext platform.Socket) (server : SocketAddr) (started : ℕ)
      (sock : platform.Socket) (time : ℕ)
      → Holds
          (Passes ctx)
          (Unauthed platform sock server)
          (round_1 platform ctx server started sock time)
  unfolding round_1
  round_1-Holds ctx server started sock time = bind-Holds (fresh_txid-Holds platform) λ txid sized.
      bind-Holds (or_else-Holds (build_allocate_unauth-Returns txid sized.0) (λ e. absurd e))
        λ message built. bind-Holds (ask-Holds _) λ sent e₁.
          bind-Holds (or_io-Holds platform _ _ (λ e. fail_now-Settles platform _ _ _ _ _))
            λ done e₂. bind-Holds (ask-Holds _) λ received e₃.
              bind-Holds
                (or_received-Holds platform _ _ _ (λ e. fail_now-Settles platform _ _ _ _ _)
                  (fail_now-Settles platform _ _ _ _ _))
                λ reply e₄.
                  map-Holds
                    (or_else-Holds (parse_allocate_response-Returns platform.lossy reply txid)
                      (λ e. fail_now-Settles platform _ _ _ _ _))
                    (λ o parsed. record {
                      txid = txid;
                      txid_sized = sized;
                      message = message;
                      built = built;
                      reply = reply;
                      exchange = record {
                        before = e₁.0;
                        sent = e₁.1 ∙ e₂;
                        time = time;
                        after = e₃.0;
                        from = e₄.0;
                        received = e₃.1 ∙ e₄.1;
                      };
                      parsed = parsed;
                    })

  round_2-Holds :
      (ctx : ProbeContext platform.Socket) (server : SocketAddr) (started : ℕ)
      (sock : platform.Socket) (time : ℕ) (user realm nonce key : List ℕ)
      → Holds
          (Passes ctx)
          (Authed platform sock server user realm nonce key)
          (round_2 platform ctx server started sock time user realm nonce key)
  unfolding round_2
  round_2-Holds ctx server started sock time user realm nonce key =
      bind-Holds (fresh_txid-Holds platform) λ txid sized.
        bind-Holds
          (or_else-Holds
            (build_allocate_authed-Returns platform.digests txid user realm nonce key sized.0)
            (λ e. absurd e))
          λ message built. bind-Holds (ask-Holds _) λ sent e₁.
            bind-Holds (or_io-Holds platform _ _ (λ e. fail_now-Settles platform _ _ _ _ _))
              λ done e₂. bind-Holds (ask-Holds _) λ received e₃.
                bind-Holds
                  (or_received-Holds platform _ _ _ (λ e. fail_now-Settles platform _ _ _ _ _)
                    (fail_now-Settles platform _ _ _ _ _))
                  λ reply e₄.
                    map-Holds
                      (or_else-Holds (parse_allocate_response-Returns platform.lossy reply txid)
                        (λ e. fail_now-Settles platform _ _ _ _ _))
                      (λ o parsed. record {
                        txid = txid;
                        txid_sized = sized;
                        message = message;
                        built = built;
                        reply = reply;
                        exchange = record {
                          before = e₁.0;
                          sent = e₁.1 ∙ e₂;
                          time = time;
                          after = e₃.0;
                          from = e₄.0;
                          received = e₃.1 ∙ e₄.1;
                        };
                        parsed = parsed;
                      })

  challenge_of-Holds :
      (ctx : ProbeContext platform.Socket) (server : SocketAddr) (started : ℕ)
      (sock : platform.Socket) (o : AllocateOutcome)
      → Unauthed platform sock server o
      → Holds
          (Passes ctx)
          (λ c. Unauthed platform sock server (unauthorized c.0 c.1))
          (challenge_of platform ctx server started o)
  unfolding challenge_of
  challenge_of-Holds ctx server started sock (unauthorized realm nonce) h = pure-Holds _ h
  challenge_of-Holds ctx server started sock (success relayed lifetime) h =
      bind-Holds (elapsed-Holds platform _) λ ms e. exit-Holds _ _ (record {
        named = refl;
        left = inl (
          refl,
          inl (record {
            sock = sock;
            server = server;
            relayed = relayed;
            lifetime = lifetime;
            accepted = h;
            only = refl;
          }),
        );
      })
  challenge_of-Holds ctx server started sock (error code reason) h =
      bind-Holds (elapsed-Holds platform _) λ ms e. exit-Holds _ _ (fail-Settles ms)

  credentials_of-Holds :
      (ctx : ProbeContext platform.Socket) (server : SocketAddr) (started : ℕ) (realm : Text)
      (o : Option (Text × Text))
      → Holds (Passes ctx) (λ c. o ≡ some c) (credentials_of platform ctx server started realm o)
  unfolding credentials_of
  credentials_of-Holds ctx server started realm (some c) = pure-Holds c refl
  credentials_of-Holds ctx server started realm none =
      bind-Holds (elapsed-Holds platform _) λ ms e. exit-Holds _ _ (warn-Settles ms)

  conclude-Ends :
      (ctx : ProbeContext platform.Socket) (sock : platform.Socket) (server : SocketAddr) (ms : ℕ)
      (user pass realm : Text) (nonce : List ℕ) (o : AllocateOutcome)
      → both ctx.turn_user ctx.turn_pass ≡ some (user, pass)
      → Unauthed platform sock server (unauthorized realm nonce)
      → Authed platform sock server user realm nonce
          (long_term_key platform.digests user realm pass)
          o
      → Ends (Passes ctx) (
          conclude platform ctx sock server ms realm nonce
            (long_term_key platform.digests user realm pass)
            user
            o)
  unfolding conclude
  conclude-Ends ctx sock server ms user pass realm nonce (success relayed lifetime) login first
        second =
      exit-Holds _ _ (record {
        named = refl;
        left = inl (
          refl,
          inr (record {
            sock = sock;
            server = server;
            user = user;
            pass = pass;
            realm = realm;
            nonce = nonce;
            relayed = relayed;
            lifetime = lifetime;
            login = login;
            challenged = first;
            accepted = second;
            only = refl;
          }),
        );
      })
  conclude-Ends ctx sock server ms user pass realm nonce (unauthorized _ _) login first second =
      exit-Holds _ _ (fail-Settles ms)
  conclude-Ends ctx sock server ms user pass realm nonce (error code reason) login first second =
      exit-Holds _ _ (fail-Settles ms)

  run-Ends : (ctx : ProbeContext platform.Socket) → Ends (Passes ctx) (run platform ctx)
  unfolding run
  run-Ends ctx = bind-Holds (or_return-Holds _ _ _ skip-Settles) λ port e₀.
      bind-Holds (or_return-Holds _ _ _ skip-Settles) λ ip e₁.
        bind-Holds (ask-Holds _) λ started e₂. bind-Holds (ask-Holds _) λ bound e₃.
          bind-Holds (or_io-Holds platform _ _ (λ e. fail_now-Settles platform _ _ _ _ _))
            λ sock e₄. bind-Holds (round_1-Holds ctx _ started sock _) λ outcome1 first.
              bind-Holds (challenge_of-Holds ctx _ started sock outcome1 first)
                λ challenge challenged.
                  bind-Holds (credentials_of-Holds ctx _ started challenge.0 _) λ login known.
                    bind-Holds
                      (round_2-Holds ctx _ started sock _ login.0 challenge.0 challenge.1 _)
                      λ outcome2 second. bind-Holds (elapsed-Holds platform _) λ ms e₅.
                        conclude-Ends ctx sock _ ms login.0 login.1 challenge.0 challenge.1 outcome2
                          known challenged second

  -- The run always ends in a result with the check's id. A pass is one of two. Either the server
  -- answered the request without credentials with a relayed address, which is now in the scratch map,
  -- and there is no new session; or it challenged the client and accepted the request with the user,
  -- the realm, the nonce and the key of that challenge, and the session has exactly those. Without a
  -- pass the context is as before.
  pub run-Allocated :
      (ctx : ProbeContext platform.Socket) (w : platform.World)
      → Ended (Settles id (Allocated platform ctx) ctx) (run platform ctx w)
  run-Allocated ctx w = outcome-Ends (run platform ctx) w (run-Ends ctx)
