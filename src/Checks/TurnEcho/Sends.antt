-- ===== src/Checks/TurnEcho/Sends.antt =====
-- The first two steps of `TurnEchoCheck::run`: the permission, and what was sent.
use webrtc_doctor.Prelude.{
  ℕ, Option-cases, [], ◌∷◌, ◌<◌, arith, zero, suc, ◌+◌, max, ◌≡◌, ◌∙◌, refl, ap, inl, inr, List,
  Option, some, length,
}
use webrtc_doctor.Report.Status.{CheckResult}
use webrtc_doctor.Stun.Types.{SocketAddr}
use webrtc_doctor.Echo.Permission.{CpOutcome, success, error}
use webrtc_doctor.Echo.Permission.Laws.{
  build_create_permission-Returns, parse_create_permission_response-Returns,
}
use webrtc_doctor.Probe.Context.{TurnSession, ProbeContext}
use webrtc_doctor.Probe.Platform.{Platform, given}
use webrtc_doctor.Probe.Body.Laws.{Holds, bind-Holds, ask-Holds, pure-Holds, or_else-Holds}
use webrtc_doctor.Checks.Common.Laws.{
  fail_now-Settles, or_io-Holds, or_io-Traces, or_received-Holds, fresh_txid-Holds, Settles,
}
use webrtc_doctor.Probe.Body as Body
use webrtc_doctor.Probe.Body.{next}
use webrtc_doctor.Probe.Body.Traced.{Traces, bind-Traces, ask-Traces, pure-Traces, pure_then-Traces}
use webrtc_doctor.Echo.Payload.{make_payload}
use webrtc_doctor.Checks.Common.{Probe}
use webrtc_doctor.Checks.TurnEcho.{
  echo_interval, latest, id, accept, permit, send_all, pause_before,
}

module _ (platform : Platform) where
  abbrev pub Session : Type 0
  Session = TurnSession platform.Socket

  -- The world after the pause before the packets that are left.
  abbrev pub paused : ℕ → platform.World → platform.World
  paused zero w = w
  paused (suc left) w = (platform.sleep echo_interval w).1

  -- From one world to another, `left` packets went to the relayed address, the first with the
  -- sequence number `seq`, each with the time that was read before it.
  pub data Sends (session : Session)
      : ℕ → ℕ → platform.World → List (Option ℕ) → platform.World → Type 0 where
    no_more : (seq : ℕ) (w : platform.World) → Sends session zero seq w [] w
    packet_sent :
        (left seq : ℕ) (w : platform.World) (ts : List (Option ℕ)) (final : platform.World)
        → (platform.send_to session.socket
            (make_payload seq)
            session.relayed
            ((platform.now w).1)).0
          ≡ given tt
        → Sends session left
            (seq + 1)
            (paused left (
              (platform.send_to session.socket
                (make_payload seq)
                session.relayed
                ((platform.now w).1)).1))
            ts
            final
        → Sends session (suc left) seq w (some ((platform.now w).0) ∷ ts) final

  pub length-Sends :
      {session : Session} (left seq : ℕ) (w : platform.World) (ts : List (Option ℕ))
      (final : platform.World)
      → Sends session left seq w ts final
      → length ts ≡ left
  length-Sends _ _ _ _ _ (no_more seq w) = refl
  length-Sends _ _ _ _ _ (packet_sent left seq w ts final e more) =
      ap suc (length-Sends left (seq + 1) _ ts final more)

  latest-cons : (t : ℕ) (ts : List (Option ℕ)) → (u : ℕ) × (latest (some t ∷ ts) ≡ some u)
  latest-cons t ts = elim (Option-cases (latest ts)) [
    | inl nothing ↦ (t, rw nothing refl)
    | inr (u, later) ↦ (max t u, rw later refl)
  ]

  pub latest-Sends :
      {session : Session} (left seq : ℕ) (w : platform.World) (ts : List (Option ℕ))
      (final : platform.World)
      → 0 < left
      → Sends session left seq w ts final
      → (u : ℕ) × (latest ts ≡ some u)
  latest-Sends _ _ _ _ _ h (no_more seq w) = absurd (omega arith)
  latest-Sends _ _ _ _ _ h (packet_sent left seq w ts final e more) = latest-cons _ ts

module _ (platform : Platform) (P : CheckResult → ProbeContext platform.Socket → Type 0) where
  accept-Holds :
      (ctx : ProbeContext platform.Socket) (started : ℕ) (o : CpOutcome)
      → Holds (Settles id P ctx) (λ u. Unit) (accept platform ctx started o)
  unfolding accept
  accept-Holds ctx started success = pure-Holds _ tt
  accept-Holds ctx started (error code reason) = fail_now-Settles platform _ _ _ _ _

  pub permit-Holds :
      (ctx : ProbeContext platform.Socket) (session : TurnSession platform.Socket)
      (srflx : SocketAddr) (started time : ℕ)
      → Holds (Settles id P ctx) (λ u. Unit) (permit platform ctx session srflx started time)
  unfolding permit
  permit-Holds ctx session srflx started time = bind-Holds (fresh_txid-Holds platform) λ txid sized.
      bind-Holds
        (or_else-Holds
          (build_create_permission-Returns platform.digests txid session.username session.realm
            session.nonce session.key srflx sized.0)
          (λ e. absurd e))
        λ message built. bind-Holds (ask-Holds _) λ sent e₁.
          bind-Holds (or_io-Holds platform _ _ (λ e. fail_now-Settles platform _ _ _ _ _))
            λ done e₂. bind-Holds (ask-Holds _) λ received e₃.
              bind-Holds
                (or_received-Holds platform _ _ _ (λ e. fail_now-Settles platform _ _ _ _ _)
                  (fail_now-Settles platform _ _ _ _ _))
                λ reply e₄.
                  bind-Holds
                    (or_else-Holds
                      (parse_create_permission_response-Returns platform.lossy reply txid)
                      (λ e. fail_now-Settles platform _ _ _ _ _))
                    λ answer parsed. accept-Holds ctx started answer

  pause-Traces :
      {B : Type 0} {Q : CheckResult → ProbeContext platform.Socket → Type 0}
      {S : B → platform.World → Type 0} {v : platform.World} (n : ℕ)
      (f : Unit {0} → Probe platform B)
      → Traces Q S (f tt) (paused platform n v)
      → Traces Q S (Body.◌>>=◌ (pause_before platform n) f) v
  unfolding pause_before
  pause-Traces zero f h = pure_then-Traces _ f h
  pause-Traces (suc n) f h = ask-Traces _ f h

  pub send_all-Traces :
      (ctx : ProbeContext platform.Socket) (session : Session platform) (started left seq : ℕ)
      (w : platform.World)
      → Traces
          (Settles id P ctx)
          (λ ts w'. Sends platform session left seq w ts w')
          (send_all platform ctx session started left seq)
          w
  unfolding send_all
  send_all-Traces ctx session started zero seq w = pure-Traces _ (no_more seq w)
  send_all-Traces ctx session started (suc left) seq w = ask-Traces _ _ (
      ask-Traces _ _ (
        or_io-Traces platform _ _ _ (λ e. fail_now-Settles platform _ _ _ _ _)
          λ done e. pause-Traces left _ (
            bind-Traces (send_all-Traces ctx session started left (seq + 1) _) λ rest w' more.
              pure-Traces _ (packet_sent left seq w rest w' (e ∙ ap given refl) more))))
