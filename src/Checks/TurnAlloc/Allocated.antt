-- ===== src/Checks/TurnAlloc/Allocated.antt =====
-- What it means that a TURN server allocated an address.
use webrtc_doctor.Prelude.{ℕ, ◌≡◌, ◌⊎◌, List, some, ok}
use webrtc_doctor.Prelude.Text.{Text, text}
use webrtc_doctor.Report.Status.{CheckResult}
use webrtc_doctor.Stun.Types.{SocketAddr, IsTxid}
use webrtc_doctor.Turn.Message.{long_term_key}
use webrtc_doctor.Turn.Allocate.{
  AllocateOutcome, success, unauthorized, build_allocate_unauth, build_allocate_authed,
  parse_allocate_response,
}
use webrtc_doctor.Probe.Context.{ProbeContext, insert}
use webrtc_doctor.Probe.Platform.{Platform}
use webrtc_doctor.Checks.Common.Laws.{Exchange}
use webrtc_doctor.Checks.TurnAlloc.{both}

module _ (platform : Platform) where
  -- An outcome that the server gave to the request of round 1 and of round 2.
  pub record Unauthed (sock : platform.Socket) (server : SocketAddr) (o : AllocateOutcome)
      : Type 0 where
    pub txid : List ℕ
    pub txid_sized : IsTxid txid
    pub message : List ℕ × List ℕ
    pub built : build_allocate_unauth {E = ⊥} txid ≡ ok message
    pub reply : List ℕ
    pub exchange : Exchange platform sock message.1 reply server
    pub parsed : parse_allocate_response platform.lossy reply txid ≡ ok o

  pub record Authed (sock : platform.Socket) (server : SocketAddr) (user realm nonce key : List ℕ)
      (o : AllocateOutcome) : Type 0 where
    pub txid : List ℕ
    pub txid_sized : IsTxid txid
    pub message : List ℕ × List ℕ
    pub built :
        build_allocate_authed {E = ⊥} platform.digests txid user realm nonce key ≡ ok message
    pub reply : List ℕ
    pub exchange : Exchange platform sock message.1 reply server
    pub parsed : parse_allocate_response platform.lossy reply txid ≡ ok o

  -- A pass without credentials: the relayed address in the scratch map, and no session.
  pub record Anonymous (ctx c : ProbeContext platform.Socket) : Type 0 where
    pub sock : platform.Socket
    pub server : SocketAddr
    pub relayed : SocketAddr
    pub lifetime : ℕ
    pub accepted : Unauthed sock server (success relayed lifetime)
    pub only :
        c
        ≡ record ctx { scratch = insert (text "relayed") (platform.show_addr relayed) ctx.scratch }

  -- A pass with the credentials of the context: the challenge of round 1 gave the realm and the
  -- nonce, the server accepted the request of round 2, and the session has what both were made of.
  pub record LongTerm (ctx c : ProbeContext platform.Socket) : Type 0 where
    pub sock : platform.Socket
    pub server : SocketAddr
    pub user : Text
    pub pass : Text
    pub realm : Text
    pub nonce : List ℕ
    pub relayed : SocketAddr
    pub lifetime : ℕ
    pub login : both ctx.turn_user ctx.turn_pass ≡ some (user, pass)
    pub challenged : Unauthed sock server (unauthorized realm nonce)
    pub accepted :
        Authed sock server user realm nonce
          (long_term_key platform.digests user realm pass)
          (success relayed lifetime)
    pub only : c ≡ record ctx {
      scratch = insert (text "relayed") (platform.show_addr relayed) ctx.scratch;
      turn_session = some (record {
        socket = sock;
        server = server;
        relayed = relayed;
        realm = realm;
        nonce = nonce;
        key = long_term_key platform.digests user realm pass;
        username = user;
      });
    }

  abbrev pub Allocated :
      ProbeContext platform.Socket → CheckResult → ProbeContext platform.Socket → Type 0
  Allocated ctx r c = Anonymous ctx c ⊎ LongTerm ctx c
