-- ===== src/Echo/Collect.antt =====
-- Step 3 of `TurnEchoCheck::run`: the loop that collects the Data Indications. What the socket and
-- the clock give is a list of rounds, which the loop must not outlast.
pub mod Laws
pub mod Heard
use webrtc_doctor.Prelude.{
  ℕ, ◌+◌, ◌-◌, ◌%◌, ◌^◌, ◌≤◌, ◌⊎◌, List, [], ◌∷◌, Option, none, some, Bool, true, false, ◌&&◌, not,
  Result, ok, err, panic, stuck, ◌>>=◌, length, get_elem?, set, ltb, leb, ◌==◌, bytes_eq,
  if◌then◌else◌,
}
use webrtc_doctor.Prelude.Text.{Text}
use webrtc_doctor.Stun.Types.{SocketAddr, addr_eq}
use webrtc_doctor.Echo.Indication.{parse_data_indication}
use webrtc_doctor.Echo.Payload.{parse_seq}

-- One round: the time at its top, and what `timeout(remaining, recv_from)` gives. A datagram comes
-- with its source and the time after it was read.
pub data Event : Type 0 where
  packet : List ℕ → SocketAddr → ℕ → Event
  io_error : Text → Event
  elapsed : Event

pub record Round : Type 0 where
  pub now : ℕ
  pub event : Event

-- One of the rounds begins at the deadline or after it.
abbrev pub Due : ℕ → List Round → Type 0
Due deadline [] = ⊥
Due deadline (r ∷ rs) = (deadline ≤ r.now) ⊎ Due deadline rs

-- The variables of the loop. A sequence number indexes `rtts`.
pub record Echoes : Type 0 where
  pub rtts : List (Option ℕ)
  pub received : ℕ
  pub duplicates : ℕ

module _ (server : SocketAddr) (send_times : List (Option ℕ)) where
  -- An echo with a sequence number below `rtts.len()`. The counter of duplicates wraps as in a
  -- release build.
  unfoldable pub record_echo : ℕ → ℕ → Echoes → Result Text Echoes
  record_echo seq recv_at st = elim (get_elem? send_times seq) [
    | none ↦ panic
    | some none ↦ ok st
    | some (some send_at) ↦ elim (get_elem? st.rtts seq) [
      | none ↦ panic
      | some (some rtt) ↦ ok (record st { duplicates = (st.duplicates + 1) % 2 ^ 32 })
      | some none ↦ ok (record st {
        rtts = set st.rtts seq (some (recv_at - send_at));
        received = st.received + 1;
      })
    ]
  ]

  unfoldable pub on_data : List ℕ → ℕ → Echoes → Result Text Echoes
  on_data payload recv_at st = elim (parse_seq payload) [
    | none ↦ ok st
    | some seq ↦ if ltb seq (length st.rtts) then record_echo seq recv_at st else ok st
  ]

  unfoldable pub on_packet : List ℕ → SocketAddr → ℕ → Echoes → Result Text Echoes
  on_packet bytes from recv_at st =
      if not (addr_eq from server) then ok st else elim (parse_data_indication bytes) [
        | ok (some payload) ↦ on_data payload recv_at st
        | ok none ↦ ok st
        | err e ↦ ok st
        | panic ↦ panic
        | stuck ↦ stuck
      ]

  -- `while received < count`, up to the deadline. It is `stuck` where it asks for a round more than
  -- there are.
  unfoldable pub collect : ℕ → ℕ → List Round → Echoes → Result Text Echoes
  collect count deadline [] st = if not (ltb st.received count) then ok st else stuck
  collect count deadline (r ∷ rs) st =
      let round : Result Text Echoes = elim r.event [
        | elapsed ↦ ok st
        | io_error e ↦ err e
        | packet bytes from recv_at ↦ do
          st' ← on_packet bytes from recv_at st
          collect count deadline rs st'
      ] in
      if not (ltb st.received count) then ok st else if leb deadline r.now then ok st else round
