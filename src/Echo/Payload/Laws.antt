-- ===== src/Echo/Payload/Laws.antt =====
-- Payloads carry their sequence number, and the statistics are ordered.
use webrtc_doctor.Prelude.{
  ℕ, zero, suc, ◌+◌, ◌*◌, ◌/◌, ◌%◌, ◌^◌, ◌≤◌, ◌<◌, ◌≡◌, ◌↔◌, ◌⊎◌, min, max, ◌∙◌, refl, sym, ap, ap₂,
  arith, inl, inr, List, [], ◌∷◌, ◌++◌, some, true, false, length, length-append, take, drop,
  take-append_left, drop-append_left, ◌==◌, ==_iff, bytes_eq, eq_of_bytes_eq, bytes_eq_self,
  Bool-cases, All, All-drop, All-weaken,
}
use mathlib.Core.Option.{some-injective}
use mathlib.Core.Path.{subst}
use native.Mathlib.Nat.{mul-div-le, lt-mul-div-succ}
use webrtc_doctor.Bytes.{IsBytes, le32}
use webrtc_doctor.Echo.Payload.{
  echo_prefix, make_payload, from_le32, parse_seq, sum, minimum, maximum, stats,
}

from_le32-le32 : (n : ℕ) → n < 2 ^ 32 → from_le32 (le32 n) ≡ some n
unfolding from_le32
from_le32-le32 n h = ap some (omega arith)

le32-from_le32 :
    (b : List ℕ) (n : ℕ) → IsBytes b → from_le32 b ≡ some n → (b ≡ le32 n) × (n < 2 ^ 32)
unfolding from_le32
le32-from_le32 [] n h e = cc
le32-from_le32 (a ∷ []) n h e = cc
le32-from_le32 (a ∷ b ∷ []) n h e = cc
le32-from_le32 (a ∷ b ∷ c ∷ []) n h e = cc
le32-from_le32 (a ∷ b ∷ c ∷ d ∷ x ∷ xs) n h e = cc
le32-from_le32 (a ∷ b ∷ c ∷ d ∷ []) n h e =
    let v : a + b * 256 + c * 65536 + d * 16777216 ≡ n = some-injective _ _ e in ground arith

take-append-drop {ℓ} : {A : Type ℓ} (n : ℕ) (xs : List A) → take n xs ++ drop n xs ≡ xs
take-append-drop zero xs = refl
take-append-drop (suc n) [] = refl
take-append-drop (suc n) (x ∷ xs) = rw (take-append-drop n xs)

-- A sequence number that fits a u32 is read from exactly the payload that was made for it.
pub parse_seq_iff :
    (payload : List ℕ) (seq : ℕ)
    → IsBytes payload
    → seq < 2 ^ 32
    → (parse_seq payload ≡ some seq) ↔ (payload ≡ make_payload seq)
unfolding parse_seq make_payload
parse_seq_iff payload seq hb hs = (read, λ e. rw e made)
  where
    read : parse_seq payload ≡ some seq → payload ≡ make_payload seq
    read e = elim (Bool-cases (length payload == length echo_prefix + 4)) [
      | inr other ↦ cc (rw (other, parse_seq) at e)
      | inl sized ↦ elim (Bool-cases (bytes_eq (take (length echo_prefix) payload) echo_prefix)) [
        | inr other ↦ cc (rw (sized, other, parse_seq) at e)
        | inl same ↦
            let front = eq_of_bytes_eq (take (length echo_prefix) payload) echo_prefix same in
            let (back, lt) =
              le32-from_le32 (drop (length echo_prefix) payload) seq
                (All-drop (λ b. b < 256) (length echo_prefix) payload hb)
                (rw (sized, same, parse_seq) at e) in
            sym (take-append-drop (length echo_prefix) payload) ∙ ap₂ ◌++◌ front back
      ]
    ]

    made : parse_seq (make_payload seq) ≡ some seq
    made =
        let size : (length (echo_prefix ++ le32 seq) == length echo_prefix + 4) ≡ true =
          (==_iff _ _).1 (length-append echo_prefix (le32 seq)) in
        rw
          (
            size,
            take-append_left echo_prefix (le32 seq),
            bytes_eq_self echo_prefix,
            drop-append_left echo_prefix (le32 seq),
            from_le32-le32 seq hs,
          )
          refl

minimum-le : (x : ℕ) (xs : List ℕ) → All (λ y. minimum (x ∷ xs) ≤ y) (x ∷ xs)
minimum-le x [] = (omega arith, tt)
minimum-le x (y ∷ ys) = (omega arith, All-weaken (y ∷ ys) (λ z h. omega arith) (minimum-le y ys))

le-maximum : (xs : List ℕ) → All (λ y. y ≤ maximum xs) xs
le-maximum [] = tt
le-maximum (x ∷ xs) = (omega arith, All-weaken xs (λ z h. omega arith) (le-maximum xs))

min-either : (a b : ℕ) → (min a b ≡ a) ⊎ (min a b ≡ b)
min-either a b = ground arith

max-either : (a b : ℕ) → (max a b ≡ a) ⊎ (max a b ≡ b)
max-either a b = ground arith

-- One of the elements.
abbrev pub IsOneOf : ℕ → List ℕ → Type 0
IsOneOf x [] = ⊥
IsOneOf x (y ∷ ys) = (x ≡ y) ⊎ IsOneOf x ys

minimum-IsOneOf : (x : ℕ) (xs : List ℕ) → IsOneOf (minimum (x ∷ xs)) (x ∷ xs)
minimum-IsOneOf x [] = inl refl
minimum-IsOneOf x (y ∷ ys) = elim (min-either x (minimum (y ∷ ys))) [
  | inl first ↦ inl first
  | inr later ↦ inr (subst (λ m. IsOneOf m (y ∷ ys)) (sym later) (minimum-IsOneOf y ys))
]

maximum-IsOneOf : (x : ℕ) (xs : List ℕ) → IsOneOf (maximum (x ∷ xs)) (x ∷ xs)
maximum-IsOneOf x [] = inl (omega arith)
maximum-IsOneOf x (y ∷ ys) = elim (max-either x (maximum (y ∷ ys))) [
  | inl first ↦ inl first
  | inr later ↦ inr (subst (λ m. IsOneOf m (y ∷ ys)) (sym later) (maximum-IsOneOf y ys))
]

-- The statistics of a list with an element whose sum fits a u64: the least element, the integral part
-- of the mean, and the greatest element.
pub record Summary (xs : List ℕ) (s : ℕ × ℕ × ℕ) : Type 0 where
  pub least_of : IsOneOf (s.0) xs
  pub least : All (λ y. s.0 ≤ y) xs
  pub mean_below : length xs * s.1 ≤ sum xs
  pub mean_above : sum xs < length xs * (s.1 + 1)
  pub greatest_of : IsOneOf (s.2) xs
  pub greatest : All (λ y. y ≤ s.2) xs

division : (s n : ℕ) → 0 < n → (n * (s / n) ≤ s) × (s < n * (s / n + 1))
division s n h = (mul-div-le s n, lt-mul-div-succ s h)

-- The statistics of the round trip times of a run with an echo, whose sum fits a u64: the minimum is
-- an element that no other is below, the maximum an element that no other is above, and the average
-- times the number of elements is at most the sum, while the next number times it is above the sum.
pub stats-Summary :
    (x : ℕ) (xs : List ℕ) → sum (x ∷ xs) < 2 ^ 64 → Summary (x ∷ xs) (stats (x ∷ xs))
unfolding stats
stats-Summary x xs h =
    let whole : sum (x ∷ xs) % 2 ^ 64 ≡ sum (x ∷ xs) = omega arith in
    let some_echo : (length (x ∷ xs) == 0) ≡ false = ground arith in
    let (below, above) = division (sum (x ∷ xs)) (length (x ∷ xs)) (omega arith) in
    record {
      least_of = minimum-IsOneOf x xs;
      least = minimum-le x xs;
      mean_below = rw (some_echo, whole) below;
      mean_above = rw (some_echo, whole) above;
      greatest_of = maximum-IsOneOf x xs;
      greatest = le-maximum (x ∷ xs);
    }
