-- ===== src/Checks/Signaling/Laws.antt =====
-- What a run of `SignalingCheck` shows.
use webrtc_doctor.Prelude.{max, arith, ap, sym, ◌∙◌, ℕ, ◌≡◌, refl, inl, Option, none, some}
use webrtc_doctor.Prelude.Text.{Text}
use webrtc_doctor.Report.Status.{CheckResult}
use webrtc_doctor.Probe.Context.{ProbeContext}
use webrtc_doctor.Probe.Platform.{Platform, given}
use webrtc_doctor.Probe.Timed.{Timed, finished, broke, timed_out}
use webrtc_doctor.Probe.Body.Laws.{
  Holds, Ends, bind-Holds, ask-Holds, pure-Holds, exit-Holds, outcome-Ends, Ended,
}
use webrtc_doctor.Checks.Common.{patient_timeout}
use webrtc_doctor.Checks.Common.Laws.{
  elapsed-Holds, fail_now-Settles, or_io-Holds, Settles, fail-Settles,
}
use webrtc_doctor.Checks.Signaling.{WebSockets, SignalingCheck, id, authorized, connected, run}

-- Ten seconds, or the timeout that is set where that is longer.
patient_timeout-max : (d : ℕ) → patient_timeout d ≡ max d 10000000000
patient_timeout-max d = ground arith

module _ (platform : Platform) (sockets : WebSockets platform.World) where
  -- The upgrade request for the URL, with the header where one is set.
  abbrev pub Prepared : SignalingCheck → sockets.Request → Type 0
  Prepared check request =
      (plain : sockets.Request) × (sockets.into_client_request check.url ≡ given plain)
      × elim check.auth_header [
        | none ↦ request ≡ plain
        | some auth ↦
            (v : sockets.HeaderValue) × (sockets.header_value auth ≡ given v)
            × (request ≡ sockets.insert_authorization v plain)
      ]

  -- A pass: a handshake on this request, in the time allowed; the context is as it was.
  pub record Upgraded (check : SignalingCheck) (ctx : ProbeContext platform.Socket)
      (r : CheckResult) (c : ProbeContext platform.Socket) : Type 0 where
    pub request : sockets.Request
    pub prepared : Prepared check request
    pub socket : sockets.WebSocket × ℕ
    pub before : platform.World
    pub opened :
        (sockets.connect (max ctx.default_timeout 10000000000) request before).0 ≡ finished socket
    pub same : c ≡ ctx

  abbrev Passes :
      SignalingCheck
      → ProbeContext platform.Socket
      → CheckResult
      → ProbeContext platform.Socket
      → Type 0
  Passes check ctx = Settles id (Upgraded check ctx) ctx

  authorized-Holds :
      (check : SignalingCheck) (ctx : ProbeContext platform.Socket) (started : ℕ)
      (plain : sockets.Request) (auth : Option Text)
      → Holds
          (Passes check ctx)
          (λ request. elim auth [
            | none ↦ request ≡ plain
            | some h ↦
                (v : sockets.HeaderValue) × (sockets.header_value h ≡ given v)
                × (request ≡ sockets.insert_authorization v plain)
          ])
          (authorized platform sockets ctx started plain auth)
  unfolding authorized
  authorized-Holds check ctx started plain none = pure-Holds plain refl
  authorized-Holds check ctx started plain (some auth) =
      bind-Holds (or_io-Holds platform _ _ (λ e. fail_now-Settles platform _ _ _ _ _))
        λ v e. pure-Holds _ (v, e, refl)

  connected-Ends :
      (check : SignalingCheck) (ctx : ProbeContext platform.Socket) (ms : ℕ)
      (request : sockets.Request) (before : platform.World) (t : Timed (sockets.WebSocket × ℕ))
      → Prepared check request
      → (sockets.connect (patient_timeout ctx.default_timeout) request before).0 ≡ t
      → Ends
          (Passes check ctx)
          (connected platform sockets ctx check (patient_timeout ctx.default_timeout) ms t)
  unfolding connected
  connected-Ends check ctx ms request before (finished (ws, status)) p e =
      bind-Holds (ask-Holds _) λ closed e₁. exit-Holds _ _ (record {
        named = refl;
        left = inl (
          refl,
          record {
            request = request;
            prepared = p;
            socket = (ws, status);
            before = before;
            opened =
                ap (λ t. (sockets.connect t request before).0) (sym (patient_timeout-max _)) ∙ e;
            same = refl;
          },
        );
      })
  connected-Ends check ctx ms request before (broke t) p e = exit-Holds _ _ (fail-Settles ms)
  connected-Ends check ctx ms request before timed_out p e = exit-Holds _ _ (fail-Settles ms)

  run-Ends :
      (check : SignalingCheck) (ctx : ProbeContext platform.Socket)
      → Ends (Passes check ctx) (run platform sockets check ctx)
  unfolding run
  run-Ends check ctx = bind-Holds (ask-Holds _) λ started e₀.
      bind-Holds (or_io-Holds platform _ _ (λ e. fail_now-Settles platform _ _ _ _ _)) λ plain e₁.
        bind-Holds (authorized-Holds check ctx started plain check.auth_header) λ request h.
          bind-Holds (ask-Holds _) λ connect e₂.
            bind-Holds (elapsed-Holds platform _)
              λ ms e₃. connected-Ends check ctx ms request e₂.0 connect (plain, e₁, h) e₂.1

  -- The run always ends in a result with the check's id, and never changes the context. It passes
  -- only if the handshake was made, in ten seconds or in the timeout of the context where that is
  -- longer, on a request for the URL that has the Authorization header exactly if one was set.
  pub run-Upgraded :
      (check : SignalingCheck) (ctx : ProbeContext platform.Socket) (w : platform.World)
      → Ended (Settles id (Upgraded check ctx) ctx) (run platform sockets check ctx w)
  run-Upgraded check ctx w = outcome-Ends (run platform sockets check ctx) w (run-Ends check ctx)
