-- ===== src/Echo/Collect/Heard.antt =====
-- The collecting loop records a round trip only for a packet that it heard.
use webrtc_doctor.Prelude.{
  ℕ, zero, suc, ◌+◌, ◌-◌, ◌%◌, ◌^◌, ◌≡◌, refl, ap, arith, inl, inr, ◌⊎◌, List, [], ◌∷◌, Option,
  none, some, true, Result, ok, err, panic, stuck, ◌>>=◌, length, get_elem?, set, replicate, ltb,
  leb, Bool-cases, Option-cases,
}
use mathlib.Core.Path.{subst}
use mathlib.Core.List.{Memᴰ}
use webrtc_doctor.Prelude.Text.{Text}
use webrtc_doctor.Stun.Types.{CodecError, SocketAddr, addr_eq}
use webrtc_doctor.Echo.Payload.{parse_seq}
use webrtc_doctor.Echo.Indication.{parse_data_indication}
use webrtc_doctor.Echo.Collect.{
  Event, packet, io_error, elapsed, Round, Echoes, record_echo, on_data, on_packet, collect,
}

get_elem?-set {ℓ} :
    {A : Type ℓ} (xs : List A) (i j : ℕ) (v : A) {x : A}
    → get_elem? (set xs i v) j ≡ some x
    → (i ≡ j) ⊎ (get_elem? xs j ≡ some x)
get_elem?-set [] i j v h = inr h
get_elem?-set (y ∷ ys) zero zero v h = inl refl
get_elem?-set (y ∷ ys) zero (suc j) v h = inr h
get_elem?-set (y ∷ ys) (suc i) zero v h = inr h
get_elem?-set (y ∷ ys) (suc i) (suc j) v h = elim (get_elem?-set ys i j v h) [
  | inl same ↦ inl (ap suc same)
  | inr before ↦ inr before
]

-- Every answered sequence number satisfies `H`.
abbrev Only : (ℕ → Type 0) → Echoes → Type 0
Only H st = (seq d : ℕ) → get_elem? st.rtts seq ≡ some (some d) → H seq

abbrev OnlyOf : (ℕ → Type 0) → Result Text Echoes → Type 0
OnlyOf H (ok st) = Only H st
OnlyOf H (err e) = Unit
OnlyOf H panic = Unit
OnlyOf H stuck = Unit

OnlyOf-bind :
    {H : ℕ → Type 0} (m : Result Text Echoes) (f : Echoes → Result Text Echoes)
    → OnlyOf H m
    → ((st : Echoes) → Only H st → OnlyOf H (f st))
    → OnlyOf H (m >>= f)
OnlyOf-bind (ok st) f h k = k st h
OnlyOf-bind (err e) f h k = tt
OnlyOf-bind panic f h k = tt
OnlyOf-bind stuck f h k = tt

-- A round that heard the packet with this sequence number, from the server.
pub record Heard (server : SocketAddr) (rounds : List Round) (seq : ℕ) : Type 0 where
  pub round : Round
  pub listed : Memᴰ round rounds
  pub bytes : List ℕ
  pub from : SocketAddr
  pub recv_at : ℕ
  pub arrived : round.event ≡ packet bytes from recv_at
  pub from_server : addr_eq from server ≡ true
  pub payload : List ℕ
  pub carried : parse_data_indication bytes ≡ ok (some payload)
  pub numbered : parse_seq payload ≡ some seq

module _ (server : SocketAddr) (send_times : List (Option ℕ)) (H : ℕ → Type 0) where
  record_echo-Only :
      (seq recv_at : ℕ) (st : Echoes)
      → Only H st
      → H seq
      → OnlyOf H (record_echo server send_times seq recv_at st)
  unfolding record_echo
  record_echo-Only seq recv_at st o h = go (get_elem? send_times seq) (get_elem? st.rtts seq)
    where
      go :
          (t : Option (Option ℕ)) (r : Option (Option ℕ))
          → OnlyOf H (elim t [
            | none ↦ panic
            | some none ↦ ok st
            | some (some send_at) ↦ elim r [
              | none ↦ panic
              | some (some rtt) ↦ ok (record st { duplicates = (st.duplicates + 1) % 2 ^ 32 })
              | some none ↦ ok (record st {
                rtts = set st.rtts seq (some (recv_at - send_at));
                received = st.received + 1;
              })
            ]
          ])
      go none r = tt
      go (some none) r = o
      go (some (some a)) none = tt
      go (some (some a)) (some (some b)) = o
      go (some (some a)) (some none) = λ s d e.
          elim (get_elem?-set st.rtts seq s (some (recv_at - a)) e) [
            | inl same ↦ subst H same h
            | inr before ↦ o s d before
          ]

  on_data-Only :
      (payload : List ℕ) (recv_at : ℕ) (st : Echoes)
      → Only H st
      → ((seq : ℕ) → parse_seq payload ≡ some seq → H seq)
      → OnlyOf H (on_data server send_times payload recv_at st)
  unfolding on_data
  on_data-Only payload recv_at st o h = elim (Option-cases (parse_seq payload)) [
    | inl foreign ↦ rw (foreign, OnlyOf) o
    | inr (seq, found) ↦
        rw (found, OnlyOf)
          (elim (Bool-cases (ltb seq (length st.rtts))) [
            | inr far ↦ rw (far, OnlyOf) o
            | inl near ↦ rw (near, OnlyOf) (record_echo-Only seq recv_at st o (h seq found))
          ])
  ]

  on_packet-Only :
      (bytes : List ℕ) (from : SocketAddr) (recv_at : ℕ) (st : Echoes)
      → Only H st
      → ((payload : List ℕ) (seq : ℕ)
          → addr_eq from server ≡ true
          → parse_data_indication bytes ≡ ok (some payload)
          → parse_seq payload ≡ some seq
          → H seq)
      → OnlyOf H (on_packet server send_times bytes from recv_at st)
  unfolding on_packet
  on_packet-Only bytes from recv_at st o h = elim (Bool-cases (addr_eq from server)) [
    | inr stray ↦ rw (stray, OnlyOf) o
    | inl right ↦ rw (right, OnlyOf) (go (parse_data_indication bytes) (λ p s e n. h p s right e n))
  ]
    where
      go :
          (m : Result CodecError (Option (List ℕ)))
          → ((payload : List ℕ) (seq : ℕ)
              → m ≡ ok (some payload)
              → parse_seq payload ≡ some seq
              → H seq)
          → OnlyOf H (elim m [
            | ok (some payload) ↦ on_data server send_times payload recv_at st
            | ok none ↦ ok st
            | err e ↦ ok st
            | panic ↦ panic
            | stuck ↦ stuck
          ])
      go (ok (some payload)) k = on_data-Only payload recv_at st o (λ seq n. k payload seq refl n)
      go (ok none) k = o
      go (err e) k = o
      go panic k = tt
      go stuck k = tt

module _ (server : SocketAddr) (send_times : List (Option ℕ)) (count deadline : ℕ)
    (all : List Round) where
  collect-Only :
      (rounds : List Round) (st : Echoes)
      → ((r : Round) → Memᴰ r rounds → Memᴰ r all)
      → Only (Heard server all) st
      → OnlyOf (Heard server all) (collect server send_times count deadline rounds st)
  unfolding collect
  collect-Only [] st within o = elim (Bool-cases (ltb st.received count)) [
    | inr full ↦ rw (full, OnlyOf) o
    | inl wanting ↦ rw (wanting, OnlyOf) tt
  ]
  collect-Only (r ∷ rs) st within o = elim (Bool-cases (ltb st.received count)) [
    | inr full ↦ rw (full, OnlyOf) o
    | inl wanting ↦
        rw (wanting, OnlyOf)
          (elim (Bool-cases (leb deadline r.now)) [
            | inl late ↦ rw (late, OnlyOf) o
            | inr early ↦
                rw (early, OnlyOf)
                  (round r.event refl
                    (λ st' h. collect-Only rs st' (λ x m. within x (Memᴰ.tail m)) h))
          ])
  ]
    where
      round :
          (ev : Event)
          → r.event ≡ ev
          → ((st' : Echoes)
              → Only (Heard server all) st'
              → OnlyOf (Heard server all) (collect server send_times count deadline rs st'))
          → OnlyOf (Heard server all) (elim ev [
            | elapsed ↦ ok st
            | io_error e ↦ err e
            | packet bytes from recv_at ↦
                on_packet server send_times bytes from recv_at st >>= λ st'.
                collect server send_times count deadline rs st'
          ])
      round elapsed e later = o
      round (io_error t) e later = tt
      round (packet bytes from recv_at) e later =
          OnlyOf-bind (on_packet server send_times bytes from recv_at st) _
            (on_packet-Only server send_times (Heard server all) bytes from recv_at st o
              (λ payload seq right carried numbered. record {
                round = r;
                listed = within r (Memᴰ.head refl);
                bytes = bytes;
                from = from;
                recv_at = recv_at;
                arrived = e;
                from_server = right;
                payload = payload;
                carried = carried;
                numbered = numbered;
              }))
            later

get_elem?-unanswered : (n i : ℕ) {d : ℕ} → get_elem? (replicate n none) i ≡ some (some d) → ⊥
get_elem?-unanswered zero i h = cc
get_elem?-unanswered (suc n) zero h = ground arith
get_elem?-unanswered (suc n) (suc i) h = get_elem?-unanswered n i h

-- When the loop ends from its start, a recorded round trip stands for a packet that was heard: one of
-- the rounds delivered a Data Indication from the server whose payload has that sequence number.
pub collect-Heard :
    (server : SocketAddr) (send_times : List (Option ℕ)) (count deadline : ℕ) (rounds : List Round)
    (st : Echoes) (seq rtt : ℕ)
    → collect server send_times count deadline rounds
        (record { rtts = replicate count none; received = 0; duplicates = 0 })
      ≡ ok st
    → get_elem? st.rtts seq ≡ some (some rtt)
    → Heard server rounds seq
collect-Heard server send_times count deadline rounds st seq rtt e h =
    subst (OnlyOf (Heard server rounds)) e
      (collect-Only server send_times count deadline rounds rounds _ (λ r m. m)
        (λ s d x. absurd (get_elem?-unanswered count s x)))
      seq rtt h
