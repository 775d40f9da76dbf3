-- ===== src/Prelude/Xor.antt =====
-- Exclusive or at variables: it undoes itself, and it stays within the width of its operands.
use Prim.Native.Nat.{ℕ, zero, suc, ◌+◌, ◌*◌, ◌/◌, ◌%◌, ◌^◌, ◌<◌, bit_xor, differ, bit_xor-bitwise}
use mathlib.Core.Path.{◌≡◌, refl, ◌∙◌}
use native.Mathlib.Nat.{pow-suc}
use native.Mathlib.Omega.{arith}
use webrtc_doctor.Prelude.Digits.{digits_spare}

zero-bit_xor : (b : ℕ) → bit_xor 0 b ≡ b
zero-bit_xor b = bit_xor-bitwise 0 b

differ-zero : (b : ℕ) → differ 0 b ≡ b
differ-zero b = refl

bit_xor_step : (a b : ℕ) → bit_xor a b ≡ bit_xor (a / 2) (b / 2) * 2 + differ (a % 2) (b % 2)
bit_xor_step zero b = omega (arith, zero-bit_xor b, zero-bit_xor (b / 2))
bit_xor_step (suc a) b =
    let half =
      digits_spare (λ low. low) differ (suc a / 2) (b / 2) a (suc a / 2) (omega arith)
        (omega arith) in
    simp bit_xor-bitwise (omega (arith, half))

differ-lt : (a b : ℕ) → a < 2 → b < 2 → differ a b < 2
differ-lt zero b p q = q
differ-lt (suc zero) zero p q = p
differ-lt (suc zero) (suc zero) p q = omega arith
differ-lt (suc zero) (suc (suc b)) p q = absurd (omega arith)
differ-lt (suc (suc a)) b p q = absurd (omega arith)

differ-differ : (a b : ℕ) → a < 2 → b < 2 → differ (differ a b) b ≡ a
differ-differ zero zero p q = refl
differ-differ zero (suc zero) p q = refl
differ-differ zero (suc (suc b)) p q = absurd (omega arith)
differ-differ (suc zero) zero p q = refl
differ-differ (suc zero) (suc zero) p q = refl
differ-differ (suc zero) (suc (suc b)) p q = absurd (omega arith)
differ-differ (suc (suc a)) b p q = absurd (omega arith)

pub bit_xor-lt : (k a b : ℕ) → a < 2 ^ k → b < 2 ^ k → bit_xor a b < 2 ^ k
bit_xor-lt zero zero b p q = omega (arith, zero-bit_xor b)
bit_xor-lt zero (suc a) b p q = absurd (omega arith)
bit_xor-lt (suc k) a b p q = omega (
  arith,
  pow-suc 2 k,
  bit_xor_step a b,
  differ-lt (a % 2) (b % 2) (omega arith) (omega arith),
  bit_xor-lt k (a / 2) (b / 2) (omega (arith, pow-suc 2 k)) (omega (arith, pow-suc 2 k)),
)

pub bit_xor-bit_xor : (k a b : ℕ) → a < 2 ^ k → b < 2 ^ k → bit_xor (bit_xor a b) b ≡ a
bit_xor-bit_xor zero zero b p q = let e : b ≡ 0 = omega arith in rw e (refl)
bit_xor-bit_xor zero (suc a) b p q = absurd (omega arith)
bit_xor-bit_xor (suc k) a b p q =
    let lower : differ (a % 2) (b % 2) < 2 =
      differ-lt (a % 2) (b % 2) (omega arith) (omega arith) in
    let half : bit_xor a b / 2 ≡ bit_xor (a / 2) (b / 2) = omega (arith, bit_xor_step a b) in
    let digit : bit_xor a b % 2 ≡ differ (a % 2) (b % 2) = omega (arith, bit_xor_step a b) in
    bit_xor_step (bit_xor a b) b
    ∙ rw (half, digit)
        (omega (
          arith,
          differ-differ (a % 2) (b % 2) (omega arith) (omega arith),
          bit_xor-bit_xor k (a / 2) (b / 2) (omega (arith, pow-suc 2 k))
              (omega (arith, pow-suc 2 k)),
        ))
