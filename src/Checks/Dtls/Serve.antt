-- ===== src/Checks/Dtls/Serve.antt =====
-- `serve_forever` of checks/dtls.rs. Its loop does not end by itself: its value is the peers
-- that have been accepted when the process is killed.
use webrtc_doctor.Prelude.{◌≡◌, refl, ap, List, [], ◌∷◌, ◌++◌, none}
use webrtc_doctor.Prelude.Text.{Text, text}
use webrtc_doctor.Stun.Types.{SocketAddr}
use webrtc_doctor.Probe.Platform.{Answer, given, io_failed}
use webrtc_doctor.Probe.Timed.{Task, ◌>>=◌, at_once, read, done}
use webrtc_doctor.Checks.Dtls.Handshake.{Dtls}

-- The peers that `on_accept` is called with. An error of `accept` is logged, and the loop goes on.
unfoldable pub accepted : List (Answer SocketAddr) → List SocketAddr
accepted [] = []
accepted (given peer ∷ rest) = peer ∷ accepted rest
accepted (io_failed e ∷ rest) = accepted rest

unfoldable pub serve_forever :
    {World : Type 0} (dtls : Dtls World) → SocketAddr → Task World (List SocketAddr)
serve_forever dtls bind = do
  cert ← at_once (dtls.generate_self_signed (text "webrtc-doctor-serve"))
  listener ← dtls.listen none bind cert
  actual ← at_once (dtls.addr listener)
  accepts ← read (dtls.accepts listener)
  done (accepted accepts)

-- A handshake that fails does not keep the later ones from being served.
accepted-append :
    (before after : List (Answer SocketAddr)) (e : Text)
    → accepted (before ++ io_failed e ∷ after) ≡ accepted before ++ accepted after
unfolding accepted
accepted-append [] after e = refl
accepted-append (given peer ∷ before) after e = ap (λ t. peer ∷ t) (accepted-append before after e)
accepted-append (io_failed t ∷ before) after e = accepted-append before after e
