-- ===== src/Checks/Stun/Laws.antt =====
-- What a run of `StunBindingCheck` leaves behind.
use webrtc_doctor.Prelude.{ℕ, ◌≡◌, ◌∙◌, refl, inl, List, some}
use webrtc_doctor.Prelude.Text.{text}
use webrtc_doctor.Report.Status.{CheckResult}
use webrtc_doctor.Stun.Types.{SocketAddr, IsTxid}
use webrtc_doctor.Binding.{build_binding_request}
use webrtc_doctor.Binding.Laws.{
  BackedAddress, parse_binding_response-Returns, parse_binding_response-BackedAddress,
}
use webrtc_doctor.Probe.Context.{ProbeContext, insert}
use webrtc_doctor.Probe.Platform.{Platform}
use webrtc_doctor.Probe.Body.Laws.{
  Ends, bind-Holds, ask-Holds, exit-Holds, or_return-Holds, or_else-Holds, outcome-Ends, Ended,
}
use webrtc_doctor.Checks.Common.{first_ip}
use webrtc_doctor.Checks.Common.Laws.{
  elapsed-Holds, fail_now-Settles, or_io-Holds, or_received-Holds, fresh_txid-Holds, Exchange,
  Settles, fail-Settles, skip-Settles,
}
use webrtc_doctor.Checks.Stun.{id, conclude, run}

-- What a pass leaves: a reflexive address in the scratch map, which a received datagram backs.
pub record Mapped (platform : Platform) (ctx c : ProbeContext platform.Socket) : Type 0 where
  pub server : SocketAddr
  pub asked_port : ctx.port ≡ some server.port
  pub asked_ip : first_ip ctx.resolved_ips ≡ some server.ip
  pub txid : List ℕ
  pub txid_sized : IsTxid txid
  pub reply : List ℕ
  pub sock : platform.Socket
  pub exchange : Exchange platform sock ((build_binding_request txid).1) reply server
  pub srflx : SocketAddr
  pub backed : BackedAddress reply txid srflx
  pub only :
      c ≡ record ctx { scratch = insert (text "srflx") (platform.show_addr srflx) ctx.scratch }

module _ (platform : Platform) where
  abbrev Passes : ProbeContext platform.Socket → CheckResult → ProbeContext platform.Socket → Type 0
  Passes ctx = Settles id (λ r c. Mapped platform ctx c) ctx

  conclude-Ends :
      (ctx : ProbeContext platform.Socket) (server : SocketAddr) (ms : ℕ) (srflx : SocketAddr)
      → Mapped platform ctx
          (record ctx { scratch = insert (text "srflx") (platform.show_addr srflx) ctx.scratch })
      → Ends (Passes ctx) (conclude platform ctx server ms srflx)
  unfolding conclude
  conclude-Ends ctx server ms srflx m =
      exit-Holds _ _ (record { named = refl; left = inl (refl, m) })

  run-Ends : (ctx : ProbeContext platform.Socket) → Ends (Passes ctx) (run platform ctx)
  unfolding run
  run-Ends ctx = bind-Holds (or_return-Holds _ _ _ skip-Settles) λ port e₀.
      bind-Holds (or_return-Holds _ _ _ skip-Settles) λ ip e₁.
        bind-Holds (ask-Holds _) λ started e₂. bind-Holds (fresh_txid-Holds platform) λ txid sized.
          bind-Holds (ask-Holds _) λ bound e₃.
            bind-Holds (or_io-Holds platform _ _ (λ e. fail_now-Settles platform _ _ _ _ _))
              λ sock e₄. bind-Holds (ask-Holds _) λ sent e₅.
                bind-Holds (or_io-Holds platform _ _ (λ e. fail_now-Settles platform _ _ _ _ _))
                  λ done e₆. bind-Holds (ask-Holds _) λ received e₇.
                    bind-Holds
                      (or_received-Holds platform _ _ _ (λ e. fail_now-Settles platform _ _ _ _ _)
                        (fail_now-Settles platform _ _ _ _ _))
                      λ reply e₈. bind-Holds (elapsed-Holds platform _) λ ms e₉.
                        bind-Holds
                          (or_else-Holds (parse_binding_response-Returns reply txid)
                            (λ e. exit-Holds _ _ (fail-Settles ms)))
                          λ srflx parsed. conclude-Ends ctx _ ms srflx (record {
                            server = record { ip = ip; port = port };
                            asked_port = e₀;
                            asked_ip = e₁;
                            txid = txid;
                            txid_sized = sized;
                            reply = reply;
                            sock = sock;
                            exchange = record {
                              before = e₅.0;
                              sent = e₅.1 ∙ e₆;
                              time = _;
                              after = e₇.0;
                              from = e₈.0;
                              received = e₇.1 ∙ e₈.1;
                            };
                            srflx = srflx;
                            backed = parse_binding_response-BackedAddress reply txid srflx parsed;
                            only = refl;
                          })

  -- The run always ends in a result with the check's id. On a pass the request went to the resolved
  -- address and the port of the context, a datagram came back on the same socket, it backs an
  -- address, and the scratch map has that address under `srflx`; nothing else of the context has
  -- changed. Without a pass all of it is as before.
  pub run-Mapped :
      (ctx : ProbeContext platform.Socket) (w : platform.World)
      → Ended (Settles id (λ r c. Mapped platform ctx c) ctx) (run platform ctx w)
  run-Mapped ctx w = outcome-Ends (run platform ctx) w (run-Ends ctx)
