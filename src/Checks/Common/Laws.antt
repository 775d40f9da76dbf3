-- ===== src/Checks/Common/Laws.antt =====
-- How the shared steps leave a check: by a failure under its id, or with a value.
use webrtc_doctor.Prelude.{ℕ, List, ◌≡◌, ◌≢◌, refl, ◌⊎◌, inr, Option, none, some}
use webrtc_doctor.Prelude.Text.{Text}
use webrtc_doctor.Report.Status.{CheckResult, pass}
use webrtc_doctor.Report.CheckResult
use webrtc_doctor.Report.Json.{Json}
use webrtc_doctor.Stun.Types.{IsTxid, SocketAddr}
use webrtc_doctor.Stun.Header.Laws.{new_txid-IsTxid}
use webrtc_doctor.Probe.Context.{ProbeContext}
use webrtc_doctor.Probe.Platform.{
  Platform, Answer, given, io_failed, Received, datagram, recv_failed, elapsed,
}
use webrtc_doctor.Probe.Timed.{Timed, finished, broke, timed_out}
use webrtc_doctor.Probe.Body.{◌>>=◌, ask, pure, exit_with}
use webrtc_doctor.Probe.Body.Laws.{Holds, Ends, Ends-Holds}
use webrtc_doctor.Probe.Body.Traced.{Traces, pure_then-Traces, bind-Traces, Holds-Traces}
use webrtc_doctor.Checks.Common.{
  Probe, elapsed_ms, fail_now, or_io, or_received, or_timed, or_none, fresh_txid,
}

module _ (platform : Platform) {Q : CheckResult → ProbeContext platform.Socket → Type 0} where
  pub elapsed-Holds : (started : ℕ) → Holds Q (λ (ms : ℕ). Unit) (elapsed_ms platform started)
  unfolding elapsed_ms ask pure ◌>>=◌
  elapsed-Holds started = record { from = λ w. tt }

  pub fail_now-Holds :
      {A : Type 0} {R : A → Type 0} (id name msg : Text) (started : ℕ)
      (ctx : ProbeContext platform.Socket)
      → ((ms : ℕ) → Q (CheckResult.fail id name ms msg) ctx)
      → Holds Q R (fail_now platform id name started ctx {A = A} msg)
  unfolding fail_now elapsed_ms ask pure exit_with ◌>>=◌
  fail_now-Holds id name msg started ctx q = record { from = λ w. q _ }

  pub or_io-Holds :
      {A : Type 0} (a : Answer A) (f : Text → Probe platform A)
      → ((e : Text) → Ends Q (f e))
      → Holds Q (λ b. a ≡ given b) (or_io platform a f)
  unfolding or_io pure
  or_io-Holds (given a) f h = record { from = λ w. refl }
  or_io-Holds (io_failed e) f h = Ends-Holds (h e)

  pub or_io-Traces :
      {A B : Type 0} {S : B → platform.World → Type 0} {w : platform.World} (a : Answer A)
      (f : Text → Probe platform A) (g : A → Probe platform B)
      → ((e : Text) → Ends Q (f e))
      → ((b : A) → a ≡ given b → Traces Q S (g b) w)
      → Traces Q S (or_io platform a f >>= g) w
  unfolding or_io
  or_io-Traces (given a) f g h k = pure_then-Traces a g (k a refl)
  or_io-Traces (io_failed e) f g h k = bind-Traces (Holds-Traces (h e)) (λ a w' bad. absurd (bad.0))

  pub or_received-Holds :
      (r : Received) (f : Text → Probe platform (List ℕ)) (late : Probe platform (List ℕ))
      → ((e : Text) → Ends Q (f e))
      → Ends Q late
      → Holds Q (λ b. (from : SocketAddr) × (r ≡ datagram b from)) (or_received platform r f late)
  unfolding or_received pure
  or_received-Holds (datagram bytes from) f late h k = record { from = λ w. (from, refl) }
  or_received-Holds (recv_failed e) f late h k = Ends-Holds (h e)
  or_received-Holds elapsed f late h k = Ends-Holds k

  pub or_timed-Holds :
      {A : Type 0} (t : Timed A) (f : Text → Probe platform A) (too_late : Probe platform A)
      → ((e : Text) → Ends Q (f e))
      → Ends Q too_late
      → Holds Q (λ a. t ≡ finished a) (or_timed platform t f too_late)
  unfolding or_timed pure
  or_timed-Holds (finished a) f too_late h k = record { from = λ w. refl }
  or_timed-Holds (broke e) f too_late h k = Ends-Holds (h e)
  or_timed-Holds timed_out f too_late h k = Ends-Holds k

  pub or_none-Holds :
      {A : Type 0} (o : Option A) (f : Probe platform A)
      → Ends Q f
      → Holds Q (λ a. o ≡ some a) (or_none platform o f)
  unfolding or_none pure
  or_none-Holds (some a) f h = record { from = λ w. refl }
  or_none-Holds none f h = Ends-Holds h

  pub fresh_txid-Holds : Holds Q IsTxid (fresh_txid platform)
  unfolding fresh_txid ask pure ◌>>=◌
  fresh_txid-Holds = record { from = λ w. new_txid-IsTxid _ _ }

-- A result under the check's id: a pass, with what a pass means, or the context as it was.
pub record Settles {C : Type 0} (id : Text) (Passed : CheckResult → C → Type 0) (ctx : C)
    (r : CheckResult) (c : C) : Type 0 where
  pub named : r.id ≡ id
  pub left : ((r.status ≡ pass) × Passed r c) ⊎ ((r.status ≢ pass) × (c ≡ ctx))

-- Every way to end other than a pass.
pub fail-Settles :
    {C : Type 0} {Passed : CheckResult → C → Type 0} {id name msg : Text} {ctx : C} (ms : ℕ)
    → Settles id Passed ctx (CheckResult.fail id name ms msg) ctx
fail-Settles ms = record { named = refl; left = inr (λ e. cc, refl) }

pub warn-Settles :
    {C : Type 0} {Passed : CheckResult → C → Type 0} {id name msg : Text} {ctx : C} {detail : Json}
    (ms : ℕ)
    → Settles id Passed ctx (CheckResult.with_detail (CheckResult.warn id name ms msg) detail) ctx
warn-Settles ms = record { named = refl; left = inr (λ e. cc, refl) }

pub skip-Settles :
    {C : Type 0} {Passed : CheckResult → C → Type 0} {id name msg : Text} {ctx : C}
    → Settles id Passed ctx (CheckResult.skip id name msg) ctx
skip-Settles = record { named = refl; left = inr (λ e. cc, refl) }

module _ (platform : Platform) {Passed : CheckResult → ProbeContext platform.Socket → Type 0} where
  -- The common way out.
  pub fail_now-Settles :
      {A : Type 0} {R : A → Type 0} (id name msg : Text) (started : ℕ)
      (ctx : ProbeContext platform.Socket)
      → Holds (Settles id Passed ctx) R (fail_now platform id name started ctx {A = A} msg)
  fail_now-Settles id name msg started ctx =
      fail_now-Holds platform id name msg started ctx (λ ms. fail-Settles ms)

-- A request that went out on a socket, and a datagram that came in on it.
pub record Exchange (platform : Platform) (sock : platform.Socket) (request reply : List ℕ)
    (server : SocketAddr) : Type 0 where
  pub before : platform.World
  pub sent : (platform.send_to sock request server before).0 ≡ given tt
  pub time : ℕ
  pub after : platform.World
  pub from : SocketAddr
  pub received : (platform.recv_from sock 1500 time after).0 ≡ datagram reply from
