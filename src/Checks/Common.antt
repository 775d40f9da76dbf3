-- ===== src/Checks/Common.antt =====
-- Steps that the checks share: the failure with the time it took, the socket, one exchange.
pub mod Laws
use webrtc_doctor.Prelude.{
  ℕ, ◌-◌, List, [], ◌∷◌, ◌++◌, replicate, Option, none, some, max, ◌==◌, if◌then◌else◌,
}
use webrtc_doctor.Prelude.Text.{Text, text}
use webrtc_doctor.Report.Status.{CheckResult}
use webrtc_doctor.Report.CheckResult
use webrtc_doctor.Stun.Types.{IpAddr, v4, v6, SocketAddr}
use webrtc_doctor.Stun.Header.{new_txid}
use webrtc_doctor.Probe.Context.{ProbeContext}
use webrtc_doctor.Probe.Platform.{
  Platform, Answer, given, io_failed, Received, datagram, recv_failed, elapsed, millis,
}
use webrtc_doctor.Probe.Timed.{Timed, finished, broke, timed_out}
use webrtc_doctor.Probe.Body.{Body, ◌>>=◌, ask, pure, exit_with}

-- `ctx.resolved_ips.first()`
abbrev pub first_ip : List IpAddr → Option IpAddr
first_ip [] = none
first_ip (ip ∷ ips) = some ip

-- The timeout of a check that makes a TLS handshake: ten seconds at least.
abbrev pub patient_timeout : ℕ → ℕ
patient_timeout d = if d == 0 then 10000000000 else max d 10000000000

module _ (platform : Platform) where
  -- The body of a check on this platform.
  abbrev pub Probe : Type 0 → Type 0
  Probe A = Body (ProbeContext platform.Socket) platform.World A

  -- `started.elapsed().as_millis() as u64`
  unfoldable pub elapsed_ms : ℕ → Probe ℕ
  elapsed_ms started = do t ← ask platform.now; pure (millis (t - started))

  -- `return CheckResult::fail(ID, NAME, started.elapsed().as_millis() as u64, msg)`
  unfoldable pub fail_now :
      Text → Text → ℕ → ProbeContext platform.Socket → {A : Type 0} → Text → Probe A
  fail_now id name started ctx msg = do
    ms ← elapsed_ms started
    exit_with (CheckResult.fail id name ms msg) ctx

  unfoldable pub or_io : {A : Type 0} → Answer A → (Text → Probe A) → Probe A
  or_io (given a) f = pure a
  or_io (io_failed e) f = f e

  -- The bytes that `recv_from` wrote. A failure and the end of the time are two ways out.
  unfoldable pub or_received : Received → (Text → Probe (List ℕ)) → Probe (List ℕ) → Probe (List ℕ)
  or_received (datagram bytes from) f late = pure bytes
  or_received (recv_failed e) f late = f e
  or_received elapsed f late = late

  -- The two ways out of an operation under a timeout.
  unfoldable pub or_timed : {A : Type 0} → Timed A → (Text → Probe A) → Probe A → Probe A
  or_timed (finished a) f too_late = pure a
  or_timed (broke e) f too_late = f e
  or_timed timed_out f too_late = too_late

  unfoldable pub or_none : {A : Type 0} → Option A → Probe A → Probe A
  or_none (some a) f = pure a
  or_none none f = f

  -- `0.0.0.0:0` or `[::]:0`
  abbrev pub local_bind : IpAddr → SocketAddr
  local_bind (v4 a) = record { ip = v4 0; port = 0 }
  local_bind (v6 o) = record { ip = v6 (replicate 16 0); port = 0 }

  -- `new_txid()` on what the platform gives.
  unfoldable pub fresh_txid : Probe (List ℕ)
  fresh_txid = do
    nanos ← ask platform.since_epoch
    here ← ask platform.stack_addr
    pure (new_txid nanos here)
