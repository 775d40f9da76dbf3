-- ===== src/Checks/TurnEcho/Laws.antt =====
-- What a run of `TurnEchoCheck` reports.
use webrtc_doctor.Prelude.{
  ℕ, ◌<◌, arith, ◌+◌, max, ◌≡◌, refl, inl, inr, List, Option, none, some, ok, replicate, ◌==◌,
  ==_iff, Bool-cases,
}
use mathlib.Core.Path.{subst}
use webrtc_doctor.Report.Status.{CheckResult}
use webrtc_doctor.Stun.Types.{SocketAddr}
use webrtc_doctor.Echo.Collect.{Round, Echoes, collect}
use webrtc_doctor.Echo.Collect.Laws.{
  Consistent, Keeps, collect-Keeps, start-Consistent, Keeps-Returns, answered-all,
}
use webrtc_doctor.Probe.Context.{TurnSession, ProbeContext, get}
use webrtc_doctor.Probe.Platform.{Platform, timeout_or_default}
use webrtc_doctor.Probe.Body.Laws.{Ends, exit-Holds, Ended}
use webrtc_doctor.Checks.Common.Laws.{elapsed-Holds, fail_now-Settles, Settles, skip-Settles}
use webrtc_doctor.Probe.Body as Body
use webrtc_doctor.Probe.Body.{next}
use webrtc_doctor.Probe.Body.Traced.{
  Traces, bind-Traces, Holds-Traces, ask-Traces, pure_then-Traces, or_return-Traces, or_else-Traces,
  Ends-Traces, outcome-Traces,
}
use webrtc_doctor.Prelude.Text.{text}
use webrtc_doctor.Echo.Collect.Heard.{Heard, collect-Heard}
use webrtc_doctor.Checks.Common.{Probe}
use webrtc_doctor.Checks.TurnEcho.Sends.{
  Session, Sends, length-Sends, latest-Sends, permit-Holds, send_all-Traces,
}
use webrtc_doctor.Checks.TurnEcho.{latest, peer_of, id, permit, or_now, conclude, run}

module _ (platform : Platform) where
  -- What a pass of a run from `w` says. The context has a session and a reflexive address, which the
  -- server gave a permission for; then the packets went out, each at its time; and each of them was
  -- heard in one of the rounds that the session's socket and the clock gave from there to the deadline,
  -- the timeout after the last packet.
  pub record AllEchoed (w : platform.World) (ctx c : ProbeContext platform.Socket) : Type 0 where
    pub session : Session platform
    pub held : ctx.turn_session ≡ some session
    pub peer : SocketAddr
    pub mapped : peer_of platform (get (text "srflx") ctx.scratch) ≡ some peer
    pub allowed : platform.World
    pub permitted :
        permit platform ctx session peer
          ((platform.now w).0)
          (timeout_or_default ctx.default_timeout)
          ((platform.now w).1)
        ≡ next tt allowed
    pub send_times : List (Option ℕ)
    pub sent : platform.World
    pub sends : Sends platform session (max ctx.echo_count 1) 0 allowed send_times sent
    pub last : ℕ
    pub latest_sent : latest send_times ≡ some last
    pub every :
        (seq : ℕ)
        → seq < max ctx.echo_count 1
        → Heard session.server
            ((platform.rounds session.socket
              (last + timeout_or_default ctx.default_timeout)
              sent).0)
            seq
    pub only : c ≡ ctx

module _ (platform : Platform) (P : CheckResult → ProbeContext platform.Socket → Type 0) where
  conclude-Ends :
      (ctx : ProbeContext platform.Socket) (session : TurnSession platform.Socket)
      (srflx : SocketAddr) (count time ms : ℕ) (st : Echoes)
      → (st.received ≡ count → (r : CheckResult) → P r ctx)
      → Ends (Settles id P ctx) (conclude platform ctx session srflx count time ms st)
  unfolding conclude
  conclude-Ends ctx session srflx count time ms st whole = elim (Bool-cases (st.received == 0)) [
    | inl nothing ↦
        rw nothing (exit-Holds _ _ (record { named = refl; left = inr (λ e. cc, refl) }))
    | inr something ↦ rw something (elim (Bool-cases (st.received == count)) [
      | inl all ↦ rw all (
          exit-Holds _ _ (record { named = refl; left = inl (refl, whole ((==_iff _ _).0 all) _) }))
      | inr lost ↦ rw lost (exit-Holds _ _ (record { named = refl; left = inr (λ e. cc, refl) }))
    ])
  ]

module _ (platform : Platform) where
  all-Heard :
      (server : SocketAddr) (send_times : List (Option ℕ)) (count deadline : ℕ)
      (rounds : List Round) (st : Echoes)
      → collect server send_times count deadline rounds
          (record { rtts = replicate count none; received = 0; duplicates = 0 })
        ≡ ok st
      → Consistent count st
      → st.received ≡ count
      → (seq : ℕ) → seq < count
      → Heard server rounds seq
  all-Heard server send_times count deadline rounds st e c all seq h =
      let (d, known) =
        answered-all st.rtts seq (omega (arith, c.counted, c.sized, all))
          (omega (arith, c.sized)) in
      collect-Heard server send_times count deadline rounds st seq d e known

  or_now-Traces :
      {B : Type 0} {Q : CheckResult → ProbeContext platform.Socket → Type 0}
      {S : B → platform.World → Type 0} {w : platform.World} (o : Option ℕ) (t : ℕ)
      (f : ℕ → Probe platform B)
      → o ≡ some t
      → Traces Q S (f t) w
      → Traces Q S (Body.◌>>=◌ (or_now platform o) f) w
  unfolding or_now
  or_now-Traces o t f e h = rw (e, or_now) (pure_then-Traces t f h)

  run-Traces :
      (ctx : ProbeContext platform.Socket) (w : platform.World)
      → Traces (Settles id (λ r c. AllEchoed platform w ctx c) ctx) (λ u w'. ⊥) (run platform ctx) w
  unfolding run
  run-Traces ctx w =
      let P : CheckResult → ProbeContext platform.Socket → Type 0 =
        λ r c. AllEchoed platform w ctx c in
      let count = max ctx.echo_count 1 in
      or_return-Traces _ _ _ ctx.turn_session skip-Settles λ session held.
        or_return-Traces _ _ _ (peer_of platform (get (text "srflx") ctx.scratch)) skip-Settles
          λ srflx mapped. ask-Traces _ _ (
            bind-Traces (Holds-Traces (permit-Holds platform P ctx session srflx _ _))
              λ u allowed p.
                bind-Traces (send_all-Traces platform P ctx session _ count 0 allowed)
                  λ send_times sent sends.
                    let sized = length-Sends platform count 0 allowed send_times sent sends in
                    let (last, known) =
                      latest-Sends platform count 0 allowed send_times sent (omega arith) sends in
                    or_now-Traces (latest send_times) last _ known (
                      ask-Traces _ _ (
                        let deadline = last + timeout_or_default ctx.default_timeout in
                        let rounds = (platform.rounds session.socket deadline sent).0 in
                        let keeps =
                          collect-Keeps session.server send_times count sized deadline rounds _
                            (start-Consistent count) in
                        or_else-Traces _ _ _
                          (Keeps-Returns count _ (platform.rounds-Due session.socket deadline sent)
                            keeps)
                          (λ e. fail_now-Settles platform _ _ _ _ _)
                          λ st ended.
                            bind-Traces (Holds-Traces (elapsed-Holds platform _)) λ ms w' e.
                              let final : Consistent count st = subst (Keeps count _) ended keeps in
                              Ends-Traces (
                                conclude-Ends platform P ctx session srflx count _ ms st λ all r.
                                  record {
                                    session = session;
                                    held = held;
                                    peer = srflx;
                                    mapped = mapped;
                                    allowed = allowed;
                                    permitted = p.1;
                                    send_times = send_times;
                                    sent = sent;
                                    sends = sends;
                                    last = last;
                                    latest_sent = known;
                                    every =
                                        all-Heard session.server send_times count deadline rounds st
                                          ended final all;
                                    only = refl;
                                  }))))

  pub run-AllEchoed :
      (ctx : ProbeContext platform.Socket) (w : platform.World)
      → Ended (Settles id (λ r c. AllEchoed platform w ctx c) ctx) (run platform ctx w)
  run-AllEchoed ctx w = outcome-Traces (run platform ctx) w (run-Traces ctx w)
