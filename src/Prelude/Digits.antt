-- ===== src/Prelude/Digits.antt =====
-- The loop of the library's operations on binary digits.
use Prim.Native.Nat.{ℕ, zero, suc, ◌/◌, ◌≤◌, digits}
use mathlib.Core.Path.{◌≡◌, refl}
use native.Mathlib.Omega.{arith}

-- Its fuel beyond the left operand does not matter.
module _ (rest : ℕ → ℕ) (one : ℕ → ℕ → ℕ) where
  pub digits_spare :
      (left right fuel other : ℕ)
      → left ≤ fuel
      → left ≤ other
      → digits rest one fuel left right ≡ digits rest one other left right
  digits_spare zero right zero zero _ _ = refl
  digits_spare zero right zero (suc other) _ _ = refl
  digits_spare zero right (suc fuel) zero _ _ = refl
  digits_spare zero right (suc fuel) (suc other) _ _ = refl
  digits_spare (suc left) right zero other few _ = absurd (omega arith)
  digits_spare (suc left) right (suc fuel) zero _ few = absurd (omega arith)
  digits_spare (suc left) right (suc fuel) (suc other) h k =
      let half = digits_spare (suc left / 2) (right / 2) fuel other (omega arith) (omega arith) in
      rw half refl
