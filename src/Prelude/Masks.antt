-- ===== src/Prelude/Masks.antt =====
-- `&` with a mask whose ones stand together.
use Prim.Native.Nat.{ℕ, zero, suc, ◌+◌, ◌*◌, ◌/◌, ◌%◌, ◌<◌, min, bit_and, digits, bit_and-bitwise}
use mathlib.Core.Path.{◌≡◌, refl, ◌∙◌}
use native.Mathlib.Omega.{arith}
use webrtc_doctor.Prelude.Digits.{digits_spare}

-- The digits of a conjunction, on fuel.
abbrev and_digits : ℕ → ℕ → ℕ → ℕ
and_digits = digits (λ low. zero) min

-- One digit at a time.
bit_and_step : (a b : ℕ) → bit_and a b ≡ bit_and (a / 2) (b / 2) * 2 + min (a % 2) (b % 2)
bit_and_step zero b = omega (arith, bit_and-bitwise 0 b, bit_and-bitwise 0 (b / 2))
bit_and_step (suc a) b =
    let spare : and_digits a (suc a / 2) (b / 2) ≡ and_digits (suc a / 2) (suc a / 2) (b / 2) =
      digits_spare (λ low. zero) min (suc a / 2) (b / 2) a (suc a / 2) (omega arith)
        (omega arith) in
    simp bit_and-bitwise (omega (arith, spare))

and_digits-zero : (fuel a : ℕ) → and_digits fuel a 0 ≡ 0
and_digits-zero zero a = refl
and_digits-zero (suc fuel) zero = refl
and_digits-zero (suc fuel) (suc a) = omega (arith, and_digits-zero fuel (suc a / 2))

bit_and-zero : (a : ℕ) → bit_and a 0 ≡ 0
bit_and-zero a = bit_and-bitwise a 0 ∙ and_digits-zero a a

-- A lowest one leaves the lowest digit.
low_one : (a m n : ℕ) → n ≡ suc (m * 2) → bit_and a n ≡ bit_and (a / 2) m * 2 + a % 2
low_one a m n e =
    let half : n / 2 ≡ m = omega (arith, e) in bit_and_step a n ∙ rw half (omega (arith, e))

-- Ten ones leave ten digits.
ten_ones : (a : ℕ) → a < 1024 → bit_and a 1023 ≡ a
ten_ones a h = omega (
  arith,
  low_one (a) 511 1023 refl,
  low_one (a / 2) 255 511 refl,
  low_one (a / 2 / 2) 127 255 refl,
  low_one (a / 2 / 2 / 2) 63 127 refl,
  low_one (a / 2 / 2 / 2 / 2) 31 63 refl,
  low_one (a / 2 / 2 / 2 / 2 / 2) 15 31 refl,
  low_one (a / 2 / 2 / 2 / 2 / 2 / 2) 7 15 refl,
  low_one (a / 2 / 2 / 2 / 2 / 2 / 2 / 2) 3 7 refl,
  low_one (a / 2 / 2 / 2 / 2 / 2 / 2 / 2 / 2) 1 3 refl,
  low_one (a / 2 / 2 / 2 / 2 / 2 / 2 / 2 / 2 / 2) 0 1 refl,
  bit_and-zero (a / 2 / 2 / 2 / 2 / 2 / 2 / 2 / 2 / 2 / 2),
)

-- Six zeros below a mask leave the digits above them.
six_zeros : (a : ℕ) → bit_and a 0xFFC0 ≡ bit_and (a / 2 / 2 / 2 / 2 / 2 / 2) 1023 * 64
six_zeros a = omega (
  arith,
  bit_and_step (a) 65472,
  bit_and_step (a / 2) 32736,
  bit_and_step (a / 2 / 2) 16368,
  bit_and_step (a / 2 / 2 / 2) 8184,
  bit_and_step (a / 2 / 2 / 2 / 2) 4092,
  bit_and_step (a / 2 / 2 / 2 / 2 / 2) 2046,
)

-- The upper ten of sixteen bits.
pub upper_ten : (a : ℕ) → a < 65536 → bit_and a 0xFFC0 ≡ a / 64 * 64
upper_ten a h = omega (arith, six_zeros a, ten_ones (a / 2 / 2 / 2 / 2 / 2 / 2) (omega arith))
