-- ===== src/Checks/Framing/Laws.antt =====
-- What a peer reads of what was sent.
use webrtc_doctor.Prelude.{
  ℕ, ◌%◌, ◌<◌, ◌≡◌, ◌∙◌, refl, sym, ap, ap₂, arith, List, [], ◌∷◌, ◌++◌, length, take, drop,
  take-append_left, drop-append_left, append_assoc, length-take, length-append, suc, zero, leb,
  leb→le, le→leb, true, false, Bool,
}
use webrtc_doctor.Prelude.Text.{text}
use webrtc_doctor.Bytes.{as_u16, be16}
use webrtc_doctor.Probe.Platform.{given}
use webrtc_doctor.Probe.Timed.{Timed, finished, broke, Array, io_then, ◌>>=◌, done, >>=-finished}
use webrtc_doctor.Checks.Framing.{Writer, Reader, from_be_bytes, send_framed, recv_framed}

pub length-take_le : (n : ℕ) (s : List ℕ) → leb n (length s) ≡ true → length (take n s) ≡ n
length-take_le n s e = omega (arith, leb→le n (length s) e, length-take n s)

-- The first bytes of a pipe, and the rest; a read of more than there is ends with the stream.
take_exact : (n : ℕ) (s : List ℕ) (b : Bool) → leb n (length s) ≡ b → Timed (Array n) × List ℕ
take_exact n s true e = (finished (take n s, length-take_le n s e), drop n s)
take_exact n s false e = (broke (text "early eof"), [])

-- The two ends of a reliable stream: what is written comes after what is there, what is read is
-- taken in front.
unfoldable pub write_end : Writer (List ℕ)
write_end = record { write_all = λ bytes s. (given tt, s ++ bytes); flush = λ s. (given tt, s) }

unfoldable pub read_end : Reader (List ℕ)
unfolding take_exact
read_end = record { read_exact = λ n s. take_exact n s (leb n (length s)) refl }

-- What stands in front is read.
read-front :
    (n : ℕ) (front rest : List ℕ)
    → n ≡ length front
    → (r : Array n) × (read_end.read_exact n (front ++ rest) ≡ (finished r, rest)) × (r.0 ≡ front)
unfolding read_end take_exact
read-front n front rest same = go (leb n (length (front ++ rest))) refl enough
  where
    enough : leb n (length (front ++ rest)) ≡ true
    enough = le→leb n _ (omega (arith, same, length-append front rest))

    go :
        (b : Bool) (e : leb n (length (front ++ rest)) ≡ b)
        → b ≡ true
        → (r : Array n) × (take_exact n (front ++ rest) b e ≡ (finished r, rest)) × (r.0 ≡ front)
    go true e _ = (
      (take n (front ++ rest), length-take_le n _ e),
      ap (λ t. (finished (take n (front ++ rest), length-take_le n _ e), t))
          (rw same (drop-append_left front rest)),
      rw same (take-append_left front rest),
    )
    go false e h = cc

take-drop : (n : ℕ) (s : List ℕ) → take n s ++ drop n s ≡ s
take-drop zero s = refl
take-drop (suc n) [] = refl
take-drop (suc n) (x ∷ s) = ap (λ t. x ∷ t) (take-drop n s)

-- The bytes of a message on the stream.
abbrev pub framed : List ℕ → List ℕ
framed msg = be16 (as_u16 (length msg)) ++ msg

abbrev pub fits : List ℕ → ℕ
fits msg = as_u16 (length msg)

from_be_bytes-be16 : (n : ℕ) → n < 65536 → from_be_bytes (be16 n) 0 ≡ n
unfolding from_be_bytes
from_be_bytes-be16 n h = omega arith

recv_framed-framed :
    (msg rest : List ℕ)
    → recv_framed read_end (framed msg ++ rest)
      ≡ (finished (take (fits msg) msg), drop (fits msg) msg ++ rest)
unfolding recv_framed done
recv_framed-framed msg rest =
    let (r, e₁, b) = read-front 2 (be16 (fits msg)) (msg ++ rest) refl in
    let size : from_be_bytes r.0 0 ≡ fits msg =
      ap (λ t. from_be_bytes t 0) b ∙ from_be_bytes-be16 (fits msg) (omega arith) in
    let whole : msg ++ rest ≡ take (fits msg) msg ++ (drop (fits msg) msg ++ rest) =
      ap (λ t. t ++ rest) (sym (take-drop (fits msg) msg))
      ∙ append_assoc (take (fits msg) msg) (drop (fits msg) msg) rest in
    let sized : from_be_bytes r.0 0 ≡ length (take (fits msg) msg) =
      size ∙ sym (length-take_le (fits msg) msg (le→leb _ _ (omega arith))) in
    let (q, e₂, c) =
      read-front (from_be_bytes r.0 0) (take (fits msg) msg) (drop (fits msg) msg ++ rest) sized in
    >>=-finished (read_end.read_exact 2) _ e₁
    ∙ ap (read_end.read_exact (from_be_bytes r.0 0) >>= (λ m. done m.0)) whole
    ∙ >>=-finished (read_end.read_exact (from_be_bytes r.0 0)) _ e₂
    ∙ ap (λ t. (finished t, drop (fits msg) msg ++ rest)) c

send_framed-framed : (msg s : List ℕ) → send_framed write_end msg s ≡ (given tt, s ++ framed msg)
unfolding send_framed write_end io_then
send_framed-framed msg s = ap (λ t. (given tt, t)) (append_assoc s (be16 (fits msg)) msg)

take_all : (s : List ℕ) → take (length s) s ≡ s
take_all [] = refl
take_all (x ∷ s) = ap (λ t. x ∷ t) (take_all s)

drop_all : (s : List ℕ) → drop (length s) s ≡ []
drop_all [] = refl
drop_all (x ∷ s) = drop_all s

-- The length on the wire has sixteen bits: of a message that was sent, the receiver takes as many
-- bytes as its length leaves modulo 65536, and the rest stays on the stream.
pub recv_framed_modulo :
    (msg before rest : List ℕ)
    → (s : List ℕ) × (send_framed write_end msg before ≡ (given tt, before ++ s))
      × (recv_framed read_end (s ++ rest)
          ≡ (finished (take (length msg % 65536) msg), drop (length msg % 65536) msg ++ rest))
recv_framed_modulo msg before rest =
    (framed msg, send_framed-framed msg before, recv_framed-framed msg rest)

-- A message of fewer than 65536 bytes that is sent on a reliable stream, behind bytes that are read
-- before it, is received as it is, and what follows it stays.
pub recv_framed-send_framed :
    (msg before rest : List ℕ)
    → length msg < 65536
    → (s : List ℕ) × (send_framed write_end msg before ≡ (given tt, before ++ s))
      × (recv_framed read_end (s ++ rest) ≡ (finished msg, rest))
recv_framed-send_framed msg before rest small =
    let same : fits msg ≡ length msg = omega arith in
    (
      framed msg,
      send_framed-framed msg before,
      recv_framed-framed msg rest
          ∙ ap (λ n. (finished (take n msg), drop n msg ++ rest)) same
          ∙ ap₂ (λ t u. (finished t, u ++ rest)) (take_all msg) (drop_all msg),
    )
