-- ===== src/Checks/TurnsAlloc/Granted.antt =====
-- What it means that a TURN server granted an address over TLS.
use webrtc_doctor.Prelude.{ℕ, ◌≡◌, ◌⊎◌, List, some, ok}
use webrtc_doctor.Prelude.Text.{Text, text}
use webrtc_doctor.Report.Status.{CheckResult}
use webrtc_doctor.Stun.Types.{SocketAddr, IsTxid}
use webrtc_doctor.Turn.Message.{long_term_key}
use webrtc_doctor.Turn.Allocate.{
  AllocateOutcome, success, unauthorized, build_allocate_unauth, build_allocate_authed,
  parse_allocate_response,
}
use webrtc_doctor.Probe.Context.{ProbeContext, insert}
use webrtc_doctor.Probe.Platform.{Platform}
use webrtc_doctor.Checks.Common.{first_ip}
use webrtc_doctor.Checks.Tls.{Tls}
use webrtc_doctor.Checks.TurnAlloc.{both}
use webrtc_doctor.Checks.TurnsAlloc.Link.{Secured, Framed}

module _ (platform : Platform) (tls : Tls platform.World) where
  -- An outcome that the server gave to the request of round 1 and of round 2.
  pub record TlsUnauthed (stream : tls.TlsStream) (o : AllocateOutcome) : Type 0 where
    pub txid : List ℕ
    pub txid_sized : IsTxid txid
    pub message : List ℕ × List ℕ
    pub built : build_allocate_unauth {E = ⊥} txid ≡ ok message
    pub reply : List ℕ
    pub exchange : Framed platform tls stream message.1 reply
    pub parsed : parse_allocate_response platform.lossy reply txid ≡ ok o

  pub record TlsAuthed (stream : tls.TlsStream) (user realm nonce key : List ℕ)
      (o : AllocateOutcome) : Type 0 where
    pub txid : List ℕ
    pub txid_sized : IsTxid txid
    pub message : List ℕ × List ℕ
    pub built :
        build_allocate_authed {E = ⊥} platform.digests txid user realm nonce key ≡ ok message
    pub reply : List ℕ
    pub exchange : Framed platform tls stream message.1 reply
    pub parsed : parse_allocate_response platform.lossy reply txid ≡ ok o

  -- The server granted the allocation without credentials, or with those of the context on the
  -- challenge that it gave.
  abbrev pub Granted : ProbeContext platform.Socket → tls.TlsStream → SocketAddr → Type 0
  Granted ctx stream relayed =
      ((lifetime : ℕ) × TlsUnauthed stream (success relayed lifetime))
      ⊎ ((login : Text × Text) × (challenge : Text × List ℕ) × (lifetime : ℕ) × (both ctx.turn_user
              ctx.turn_pass
            ≡ some login)
          × TlsUnauthed stream (unauthorized challenge.0 challenge.1)
          × TlsAuthed stream login.0 challenge.0 challenge.1
              (long_term_key platform.digests login.0 challenge.0 login.1)
              (success relayed lifetime))

  -- What the context says of the target.
  abbrev pub Aimed : ProbeContext platform.Socket → Text → SocketAddr → Type 0
  Aimed ctx host server =
      (ctx.host ≡ some host)
      × (ctx.port ≡ some server.port)
      × (first_ip ctx.resolved_ips ≡ some server.ip)

  -- A pass: the relayed address in the scratch map, and nothing else changed.
  pub record TlsAllocated (ctx : ProbeContext platform.Socket) (r : CheckResult)
      (c : ProbeContext platform.Socket) : Type 0 where
    pub host : Text
    pub server : SocketAddr
    pub aimed : Aimed ctx host server
    pub stream : tls.TlsStream
    pub secured : Secured platform tls host server stream
    pub relayed : SocketAddr
    pub granted : Granted ctx stream relayed
    pub only :
        c
        ≡ record ctx { scratch = insert (text "relayed") (platform.show_addr relayed) ctx.scratch }
