-- ===== src/Echo/Collect/Laws.antt =====
-- The collecting loop: it never panics, and its counters say what the table of round trips holds.
use webrtc_doctor.Prelude.{
  ℕ, zero, suc, ◌+◌, ◌-◌, ◌≤◌, ◌<◌, ◌≡◌, ◌∙◌, refl, ap, arith, inl, inr, List, [], ◌∷◌, Option,
  none, some, Result, ok, err, panic, stuck, Returns, ◌>>=◌, length, get_elem?, set, ltb, leb,
  ltb→lt, false, ◌%◌, ◌^◌, Bool-cases, Option-cases, replicate, length-replicate,
}
use webrtc_doctor.Prelude.Text.{Text}
use webrtc_doctor.Stun.Types.{CodecError, SocketAddr, addr_eq}
use webrtc_doctor.Echo.Payload.{parse_seq}
use webrtc_doctor.Echo.Indication.{parse_data_indication}
use webrtc_doctor.Echo.Indication.Laws.{parse_data_indication-Returns}
use webrtc_doctor.Echo.Collect.{
  Event, packet, io_error, elapsed, Round, Echoes, record_echo, on_data, on_packet, collect, Due,
}

-- How many sequence numbers have been answered.
abbrev pub answered {ℓ} : {A : Type ℓ} → List (Option A) → ℕ
answered [] = 0
answered (none ∷ xs) = answered xs
answered (some x ∷ xs) = suc (answered xs)

-- The table has one entry for each packet, and `received` counts the answered ones.
pub record Consistent (count : ℕ) (st : Echoes) : Type 0 where
  pub sized : length st.rtts ≡ count
  pub counted : st.received ≡ answered st.rtts

pub answered-le-length {ℓ} : {A : Type ℓ} (xs : List (Option A)) → answered xs ≤ length xs
answered-le-length [] = omega arith
answered-le-length (none ∷ xs) = omega (arith, answered-le-length xs)
answered-le-length (some x ∷ xs) = omega (arith, answered-le-length xs)

answered-set {ℓ} :
    {A : Type ℓ} (xs : List (Option A)) (i : ℕ) (x : A)
    → get_elem? xs i ≡ some none
    → answered (set xs i (some x)) ≡ suc (answered xs)
answered-set [] i x h = cc
answered-set (none ∷ xs) zero x h = refl
answered-set (some y ∷ xs) zero x h = absurd (ground arith)
answered-set (none ∷ xs) (suc i) x h = answered-set xs i x h
answered-set (some y ∷ xs) (suc i) x h = ap suc (answered-set xs i x h)

length-set {ℓ} : {A : Type ℓ} (xs : List A) (i : ℕ) (x : A) → length (set xs i x) ≡ length xs
length-set [] i x = refl
length-set (y ∷ xs) zero x = refl
length-set (y ∷ xs) (suc i) x = ap suc (length-set xs i x)

get_elem?-lt {ℓ} :
    {A : Type ℓ} (xs : List A) (i : ℕ) → i < length xs → (x : A) × (get_elem? xs i ≡ some x)
get_elem?-lt [] i h = absurd (omega arith)
get_elem?-lt (x ∷ xs) zero h = (x, refl)
get_elem?-lt (x ∷ xs) (suc i) h = get_elem?-lt xs i (omega arith)

-- What a step of the loop gives: the next state keeps the invariant, and nothing panics; a step that
-- is stuck refutes `Enough`.
abbrev pub Keeps : ℕ → Type 0 → Result Text Echoes → Type 0
Keeps count Enough (ok st) = Consistent count st
Keeps count Enough (err e) = Unit
Keeps count Enough panic = ⊥
Keeps count Enough stuck = ¬ Enough

Keeps-weaken :
    (count : ℕ) {Enough More : Type 0} (m : Result Text Echoes)
    → (More → Enough)
    → Keeps count Enough m
    → Keeps count More m
Keeps-weaken count (ok st) f h = h
Keeps-weaken count (err e) f h = tt
Keeps-weaken count panic f h = h
Keeps-weaken count stuck f h = λ x. h (f x)

Keeps-bind :
    (count : ℕ) (Enough : Type 0) (m : Result Text Echoes) (f : Echoes → Result Text Echoes)
    → Keeps count Enough m
    → ((st : Echoes) → Consistent count st → Keeps count Enough (f st))
    → Keeps count Enough (m >>= f)
Keeps-bind count Enough (ok st) f h k = k st h
Keeps-bind count Enough (err e) f h k = tt
Keeps-bind count Enough panic f h k = h
Keeps-bind count Enough stuck f h k = h

module _ (server : SocketAddr) (send_times : List (Option ℕ)) (count : ℕ)
    (sent : length send_times ≡ count) (Enough : Type 0) where
  record_echo-Keeps :
      (seq recv_at : ℕ) (st : Echoes)
      → Consistent count st
      → seq < count
      → Keeps count Enough (record_echo server send_times seq recv_at st)
  unfolding record_echo
  record_echo-Keeps seq recv_at st c h =
      let (t, pt) = get_elem?-lt send_times seq (omega arith) in
      let (r, pr) = get_elem?-lt st.rtts seq (omega (arith, c.sized)) in rw (pt, Keeps) (go t r pr)
    where
      go :
          (t r : Option ℕ)
          → get_elem? st.rtts seq ≡ some r
          → Keeps count Enough (elim t [
            | none ↦ ok st
            | some send_at ↦ elim (get_elem? st.rtts seq) [
              | none ↦ panic
              | some (some rtt) ↦ ok (record st { duplicates = (st.duplicates + 1) % 2 ^ 32 })
              | some none ↦ ok (record st {
                rtts = set st.rtts seq (some (recv_at - send_at));
                received = st.received + 1;
              })
            ]
          ])
      go none r pr = c
      go (some a) (some b) pr = rw (pr, Keeps) (record { sized = c.sized; counted = c.counted })
      go (some a) none pr =
          rw (pr, Keeps)
            (record {
              sized = length-set st.rtts seq (some (recv_at - a)) ∙ c.sized;
              counted = omega (arith, c.counted, answered-set st.rtts seq (recv_at - a) pr);
            })

  on_data-Keeps :
      (payload : List ℕ) (recv_at : ℕ) (st : Echoes)
      → Consistent count st
      → Keeps count Enough (on_data server send_times payload recv_at st)
  unfolding on_data
  on_data-Keeps payload recv_at st c = elim (Option-cases (parse_seq payload)) [
    | inl foreign ↦ rw (foreign, Keeps) c
    | inr (seq, found) ↦
        rw (found, Keeps)
          (elim (Bool-cases (ltb seq (length st.rtts))) [
            | inr far ↦ rw (far, Keeps) c
            | inl near ↦
                rw (near, Keeps)
                  (record_echo-Keeps seq recv_at st c (omega (arith, c.sized, ltb→lt _ _ near)))
          ])
  ]

  on_packet-Keeps :
      (bytes : List ℕ) (from : SocketAddr) (recv_at : ℕ) (st : Echoes)
      → Consistent count st
      → Keeps count Enough (on_packet server send_times bytes from recv_at st)
  unfolding on_packet
  on_packet-Keeps bytes from recv_at st c = elim (Bool-cases (addr_eq from server)) [
    | inr stray ↦ rw (stray, Keeps) c
    | inl right ↦
        rw (right, Keeps) (go (parse_data_indication bytes) (parse_data_indication-Returns bytes))
  ]
    where
      go :
          (m : Result CodecError (Option (List ℕ)))
          → Returns m
          → Keeps count Enough (elim m [
            | ok (some payload) ↦ on_data server send_times payload recv_at st
            | ok none ↦ ok st
            | err e ↦ ok st
            | panic ↦ panic
            | stuck ↦ stuck
          ])
      go (ok (some payload)) h = on_data-Keeps payload recv_at st c
      go (ok none) h = c
      go (err e) h = c
      go panic h = h
      go stuck h = absurd h

module _ (server : SocketAddr) (send_times : List (Option ℕ)) (count : ℕ)
    (sent : length send_times ≡ count) where
  -- Given a time for each packet, the loop keeps `received` equal to the number of answered packets and
  -- the table at its size, whatever the socket and the clock give, and it does not panic; and where one
  -- of the rounds begins at the deadline or after it, the loop ends within the rounds.
  pub collect-Keeps :
      (deadline : ℕ) (rounds : List Round) (st : Echoes)
      → Consistent count st
      → Keeps count (Due deadline rounds) (collect server send_times count deadline rounds st)
  unfolding collect
  collect-Keeps deadline [] st c = elim (Bool-cases (ltb st.received count)) [
    | inr full ↦ rw (full, Keeps) c
    | inl wanting ↦ rw (wanting, Keeps) (λ due. due)
  ]
  collect-Keeps deadline (r ∷ rs) st c = elim (Bool-cases (ltb st.received count)) [
    | inr full ↦ rw (full, Keeps) c
    | inl wanting ↦
        rw (wanting, Keeps)
          (elim (Bool-cases (leb deadline r.now)) [
            | inl late ↦ rw (late, Keeps) c
            | inr early ↦
                rw (early, Keeps)
                  (round r.event (λ due. later due early)
                    (λ st' h. collect-Keeps deadline rs st' h))
          ])
  ]
    where
      later : Due deadline (r ∷ rs) → leb deadline r.now ≡ false → Due deadline rs
      later (inl reached) early = absurd (ground arith)
      later (inr due) early = due

      round :
          (ev : Event)
          → (Due deadline (r ∷ rs) → Due deadline rs)
          → ((st' : Echoes)
              → Consistent count st'
              → Keeps count (Due deadline rs) (collect server send_times count deadline rs st'))
          → Keeps count (Due deadline (r ∷ rs)) (elim ev [
            | elapsed ↦ ok st
            | io_error e ↦ err e
            | packet bytes from recv_at ↦
                on_packet server send_times bytes from recv_at st >>= λ st'.
                collect server send_times count deadline rs st'
          ])
      round elapsed more later = c
      round (io_error e) more later = tt
      round (packet bytes from recv_at) more later =
          Keeps-bind count _ (on_packet server send_times bytes from recv_at st) _
            (on_packet-Keeps server send_times count sent _ bytes from recv_at st c)
            (λ st' h. Keeps-weaken count _ more (later st' h))

-- The state before the first round.
pub start-Consistent :
    (count : ℕ)
    → Consistent count (record { rtts = replicate count none; received = 0; duplicates = 0 })
start-Consistent count = record {
  sized = length-replicate count none;
  counted = none_answered count;
}
  where
    none_answered : (n : ℕ) → 0 ≡ answered {A = ℕ} (replicate n none)
    none_answered zero = refl
    none_answered (suc n) = none_answered n

pub Keeps-Returns :
    (count : ℕ) {Enough : Type 0} (m : Result Text Echoes)
    → Enough
    → Keeps count Enough m
    → Returns m
Keeps-Returns count (ok st) enough h = tt
Keeps-Returns count (err e) enough h = tt
Keeps-Returns count panic enough h = h
Keeps-Returns count stuck enough h = h enough

-- Where every packet is answered, each has its round trip.
pub answered-all :
    (xs : List (Option ℕ)) (i : ℕ)
    → answered xs ≡ length xs
    → i < length xs
    → (d : ℕ) × (get_elem? xs i ≡ some (some d))
answered-all [] i e h = absurd (omega arith)
answered-all (none ∷ xs) i e h = absurd (omega (arith, e, answered-le-length xs))
answered-all (some d ∷ xs) zero e h = (d, refl)
answered-all (some d ∷ xs) (suc i) e h = answered-all xs i (omega (arith, e)) (omega arith)
