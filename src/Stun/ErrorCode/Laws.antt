-- ===== src/Stun/ErrorCode/Laws.antt =====
-- ERROR-CODE: decoding returns, the code fits a u16, and a written code is read back.
use webrtc_doctor.Prelude.{
  ℕ, zero, suc, ◌+◌, ◌*◌, ◌%◌, ◌<◌, ◌≡◌, refl, arith, inl, inr, List, [], ◌∷◌, ◌++◌, append-nil,
  le→ltb, Bool, true, ◌&&◌, ok, Returns, length, ltb, ◌==◌, ==_iff, Bool-cases, bit_and,
}
use mathlib.Core.Path.{subst}
use webrtc_doctor.Bytes.{index, slice}
use webrtc_doctor.Bytes.Laws.{index-lt, slice-le, slice-middle}
use webrtc_doctor.Stun.Types.{CodecError}
use webrtc_doctor.Stun.ErrorCode.{parse_error_code}

-- The mask agrees with the remainder on the numbers `start`, `start + 1`, ..., `count` of them.
masks_from : ℕ → ℕ → Bool
masks_from start zero = true
masks_from start (suc count) = (bit_and start 0x07 == start % 8) && masks_from (start + 1) count

low_bits_from :
    (start count offset : ℕ)
    → masks_from start count ≡ true
    → offset < count
    → bit_and (start + offset) 0x07 ≡ (start + offset) % 8
unfolding masks_from
low_bits_from start zero offset table h = absurd (omega arith)
low_bits_from start (suc count) zero table h =
    let here : start + 0 ≡ start = omega arith in rw here ((==_iff _ _).0 (ground (arith, table)))
low_bits_from start (suc count) (suc offset) table h =
    let there : start + suc offset ≡ start + 1 + offset = omega arith in
    rw there (low_bits_from (start + 1) count offset (ground (arith, table)) (omega arith))

low_bits : (x : ℕ) → x < 256 → bit_and x 0x07 ≡ x % 8
unfolding masks_from
low_bits x h =
    let same : 0 + x ≡ x = omega arith in
    subst (λ y. bit_and y 0x07 ≡ y % 8) same (low_bits_from 0 256 x refl h)

module _ (lossy : List ℕ → List ℕ) where
  -- No value makes `parse_error_code` panic.
  pub parse_error_code-Returns : (value : List ℕ) → Returns (parse_error_code lossy value)
  unfolding parse_error_code
  parse_error_code-Returns value = elim (Bool-cases (ltb (length value) 4)) [
    | inl few ↦ rw few tt
    | inr enough ↦
        let (c, pc) = index-lt {E = CodecError} value 2 (ground arith) in
        let (n, pn) = index-lt {E = CodecError} value 3 (ground arith) in
        rw
          (
            enough,
            pc,
            pn,
            slice-le {E = CodecError} value 4 (length value) (ground arith) (omega arith),
          )
          tt
  ]

  -- The code is the class, of which three bits count, times 100 plus the number. The `u16` sum cannot
  -- wrap; the reason is what follows.
  pub parse_error_code-code :
      (r s class number : ℕ) (reason : List ℕ)
      → class < 256
      → number < 256
      → (parse_error_code lossy (r ∷ s ∷ class ∷ number ∷ reason)
          ≡ ok (record { code = class % 8 * 100 + number; reason = lossy reason }))
        × (class % 8 * 100 + number < 65536)
  unfolding parse_error_code index
  parse_error_code-code r s class number reason hc hn =
      let value : List ℕ = r ∷ s ∷ class ∷ number ∷ [] in
      let enough = le→ltb (length (value ++ reason)) 4 (omega arith) in
      let text : slice {E = CodecError} (value ++ reason) 4 (length (value ++ reason)) ≡ ok reason =
        rw (append-nil reason) at (
          slice-middle {E = CodecError} value reason [] 4 (length (value ++ reason)) refl
            (omega arith)) in
      (rw (enough, low_bits class hc, text) refl, omega arith)
