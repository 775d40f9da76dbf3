-- ===== src/Checks/TurnsAlloc/Laws.antt =====
-- What a run of `TurnsAllocateCheck` leaves behind.
use webrtc_doctor.Prelude.{ℕ, ◌≡◌, refl, inl, inr, List, Option, none, some}
use webrtc_doctor.Prelude.Text.{Text}
use webrtc_doctor.Report.Status.{CheckResult}
use webrtc_doctor.Stun.Types.{SocketAddr}
use webrtc_doctor.Turn.Message.{long_term_key}
use webrtc_doctor.Turn.Allocate.{AllocateOutcome, success, unauthorized, error}
use webrtc_doctor.Turn.Allocate.Responses.{parse_allocate_response-Returns}
use webrtc_doctor.Turn.Allocate.Total.{build_allocate_unauth-Returns, build_allocate_authed-Returns}
use webrtc_doctor.Probe.Context.{ProbeContext}
use webrtc_doctor.Probe.Platform.{Platform}
use webrtc_doctor.Probe.Body.Laws.{
  Holds, Ends, bind-Holds, ask-Holds, pure-Holds, exit-Holds, or_return-Holds, or_else-Holds,
  map-Holds, outcome-Ends, Ended,
}
use webrtc_doctor.Checks.Common.Laws.{
  elapsed-Holds, fail_now-Settles, fresh_txid-Holds, Settles, fail-Settles, warn-Settles,
  skip-Settles,
}
use webrtc_doctor.Checks.Tls.{Tls}
use webrtc_doctor.Checks.TurnAlloc.{both}
use webrtc_doctor.Checks.TurnsAlloc.Granted.{TlsUnauthed, TlsAuthed, Aimed, TlsAllocated}
use webrtc_doctor.Checks.TurnsAlloc.{tls_round_1, tls_round_2, run}
use webrtc_doctor.Checks.TurnsAlloc.Link.{Secured, tls_connected-Holds, tls_exchange-Holds}
use webrtc_doctor.Checks.TurnsAlloc.Outcomes.{
  id, tls_challenge_of, tls_credentials_of, tls_conclude,
}

module _ (platform : Platform) (tls : Tls platform.World) where
  abbrev Passes : ProbeContext platform.Socket → CheckResult → ProbeContext platform.Socket → Type 0
  Passes ctx = Settles id (TlsAllocated platform tls ctx) ctx

  tls_round_1-Holds :
      (ctx : ProbeContext platform.Socket) (started : ℕ) (stream : tls.TlsStream) (time : ℕ)
      → Holds
          (Passes ctx)
          (TlsUnauthed platform tls stream)
          (tls_round_1 platform tls ctx started stream time)
  unfolding tls_round_1
  tls_round_1-Holds ctx started stream time = bind-Holds (fresh_txid-Holds platform) λ txid sized.
      bind-Holds (or_else-Holds (build_allocate_unauth-Returns txid sized.0) (λ e. absurd e))
        λ message built.
          bind-Holds (tls_exchange-Holds platform tls ctx started stream time _ _ _)
            λ reply exchange.
              map-Holds
                (or_else-Holds (parse_allocate_response-Returns platform.lossy reply txid)
                  (λ e. fail_now-Settles platform _ _ _ _ _))
                λ o parsed. record {
                  txid = txid;
                  txid_sized = sized;
                  message = message;
                  built = built;
                  reply = reply;
                  exchange = exchange;
                  parsed = parsed;
                }

  tls_round_2-Holds :
      (ctx : ProbeContext platform.Socket) (started : ℕ) (stream : tls.TlsStream) (time : ℕ)
      (user realm nonce key : List ℕ)
      → Holds
          (Passes ctx)
          (TlsAuthed platform tls stream user realm nonce key)
          (tls_round_2 platform tls ctx started stream time user realm nonce key)
  unfolding tls_round_2
  tls_round_2-Holds ctx started stream time user realm nonce key =
      bind-Holds (fresh_txid-Holds platform) λ txid sized.
        bind-Holds
          (or_else-Holds
            (build_allocate_authed-Returns platform.digests txid user realm nonce key sized.0)
            (λ e. absurd e))
          λ message built.
            bind-Holds (tls_exchange-Holds platform tls ctx started stream time _ _ _)
              λ reply exchange.
                map-Holds
                  (or_else-Holds (parse_allocate_response-Returns platform.lossy reply txid)
                    (λ e. fail_now-Settles platform _ _ _ _ _))
                  λ o parsed. record {
                    txid = txid;
                    txid_sized = sized;
                    message = message;
                    built = built;
                    reply = reply;
                    exchange = exchange;
                    parsed = parsed;
                  }

  tls_challenge_of-Holds :
      (ctx : ProbeContext platform.Socket) (server : SocketAddr) (host : Text) (started tls_ms : ℕ)
      (stream : tls.TlsStream) (o : AllocateOutcome)
      → Aimed platform tls ctx host server
      → Secured platform tls host server stream
      → TlsUnauthed platform tls stream o
      → Holds
          (Passes ctx)
          (λ c. TlsUnauthed platform tls stream (unauthorized c.0 c.1))
          (tls_challenge_of platform ctx server host started tls_ms o)
  unfolding tls_challenge_of
  tls_challenge_of-Holds ctx server host started tls_ms stream (unauthorized realm nonce) n s h =
      pure-Holds _ h
  tls_challenge_of-Holds ctx server host started tls_ms stream (success relayed lifetime) n s h =
      bind-Holds (elapsed-Holds platform _) λ ms e. exit-Holds _ _ (record {
        named = refl;
        left = inl (
          refl,
          record {
            host = host;
            server = server;
            aimed = n;
            stream = stream;
            secured = s;
            relayed = relayed;
            granted = inl (lifetime, h);
            only = refl;
          },
        );
      })
  tls_challenge_of-Holds ctx server host started tls_ms stream (error code reason) n s h =
      bind-Holds (elapsed-Holds platform _) λ ms e. exit-Holds _ _ (fail-Settles ms)

  tls_credentials_of-Holds :
      (ctx : ProbeContext platform.Socket) (server : SocketAddr) (host : Text) (started tls_ms : ℕ)
      (realm : Text) (o : Option (Text × Text))
      → Holds
          (Passes ctx)
          (λ c. o ≡ some c)
          (tls_credentials_of platform ctx server host started tls_ms realm o)
  unfolding tls_credentials_of
  tls_credentials_of-Holds ctx server host started tls_ms realm (some c) = pure-Holds c refl
  tls_credentials_of-Holds ctx server host started tls_ms realm none =
      bind-Holds (elapsed-Holds platform _) λ ms e. exit-Holds _ _ (warn-Settles ms)

  tls_conclude-Ends :
      (ctx : ProbeContext platform.Socket) (server : SocketAddr) (host : Text)
      (started tls_ms ms : ℕ) (stream : tls.TlsStream) (login : Text × Text)
      (challenge : Text × List ℕ) (o : AllocateOutcome)
      → Aimed platform tls ctx host server
      → Secured platform tls host server stream
      → both ctx.turn_user ctx.turn_pass ≡ some login
      → TlsUnauthed platform tls stream (unauthorized challenge.0 challenge.1)
      → TlsAuthed platform tls stream login.0 challenge.0 challenge.1
          (long_term_key platform.digests login.0 challenge.0 login.1)
          o
      → Ends (Passes ctx) (tls_conclude platform ctx server host started tls_ms ms challenge.0 o)
  unfolding tls_conclude
  tls_conclude-Ends ctx server host started tls_ms ms stream login challenge
        (success relayed lifetime) n s known first second =
      exit-Holds _ _ (record {
        named = refl;
        left = inl (
          refl,
          record {
            host = host;
            server = server;
            aimed = n;
            stream = stream;
            secured = s;
            relayed = relayed;
            granted = inr (login, challenge, lifetime, known, first, second);
            only = refl;
          },
        );
      })
  tls_conclude-Ends ctx server host started tls_ms ms stream login challenge (unauthorized _ _) n s
        known first second =
      exit-Holds _ _ (fail-Settles ms)
  tls_conclude-Ends ctx server host started tls_ms ms stream login challenge (error code reason) n s
        known first second =
      exit-Holds _ _ (fail-Settles ms)

  run-Ends : (ctx : ProbeContext platform.Socket) → Ends (Passes ctx) (run platform tls ctx)
  unfolding run
  run-Ends ctx = bind-Holds (or_return-Holds _ _ _ skip-Settles) λ port e₀.
      bind-Holds (or_return-Holds _ _ _ skip-Settles) λ ip e₁.
        bind-Holds (or_return-Holds _ _ _ skip-Settles) λ host n.
          bind-Holds (ask-Holds _) λ started e₂.
            bind-Holds (tls_connected-Holds platform tls ctx _ host started _) λ link s.
              bind-Holds (tls_round_1-Holds ctx started link.0 _) λ outcome1 h.
                bind-Holds
                  (tls_challenge_of-Holds ctx _ host started link.1 link.0 outcome1 (n, e₀, e₁) s h)
                  λ challenge first.
                    bind-Holds (tls_credentials_of-Holds ctx _ host started link.1 challenge.0 _)
                      λ login known.
                        bind-Holds
                          (tls_round_2-Holds ctx started link.0 _ login.0 challenge.0 challenge.1 _)
                          λ outcome2 second. bind-Holds (elapsed-Holds platform _) λ ms e₅.
                            tls_conclude-Ends ctx _ host started link.1 ms link.0 login challenge
                              outcome2 (n, e₀, e₁) s known first second

  -- The run always ends in a result with the check's id. On a pass, the address in the scratch map
  -- under `relayed` is one that the server granted on a TLS stream that was made for the name of the
  -- host, at its first address and the port: to a framed request without credentials, or to one with
  -- the credentials of the context on the realm and the nonce that the server had given on the same
  -- stream; nothing else has changed in the context. Without a pass the context is as before.
  pub run-TlsAllocated :
      (ctx : ProbeContext platform.Socket) (w : platform.World)
      → Ended (Settles id (TlsAllocated platform tls ctx) ctx) (run platform tls ctx w)
  run-TlsAllocated ctx w = outcome-Ends (run platform tls ctx) w (run-Ends ctx)
