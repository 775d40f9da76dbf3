-- ===== src/Probe/Context.antt =====
-- `ProbeContext` and `TurnSession` of check.rs. Times are in nanoseconds.
use webrtc_doctor.Prelude.{ℕ, List, [], ◌∷◌, Option, none, some, bytes_eq, if◌then◌else◌}
use webrtc_doctor.Prelude.Text.{Text}
use webrtc_doctor.Stun.Types.{IpAddr, SocketAddr}

pub record TurnSession (Socket : Type 0) : Type 0 where
  pub socket : Socket
  pub server : SocketAddr
  pub relayed : SocketAddr
  pub realm : Text
  pub nonce : List ℕ
  pub key : List ℕ
  pub username : Text

-- `scratch` is the map as a list of its entries, the latest first.
pub record ProbeContext (Socket : Type 0) : Type 0 where
  pub default_timeout : ℕ
  pub host : Option Text
  pub port : Option ℕ
  pub resolved_ips : List IpAddr
  pub turn_user : Option Text
  pub turn_pass : Option Text
  pub echo_count : ℕ
  pub turn_session : Option (TurnSession Socket)
  pub scratch : List (Text × Text)

abbrev pub insert : Text → Text → List (Text × Text) → List (Text × Text)
insert key value entries = (key, value) ∷ entries

unfoldable pub get : Text → List (Text × Text) → Option Text
get key [] = none
get key ((k, v) ∷ entries) = if bytes_eq k key then some v else get key entries

-- `ProbeContext::new`
unfoldable pub new : {Socket : Type 0} → ProbeContext Socket
new = record {
  default_timeout = 5000000000;
  host = none;
  port = none;
  resolved_ips = [];
  turn_user = none;
  turn_pass = none;
  echo_count = 10;
  turn_session = none;
  scratch = [];
}
