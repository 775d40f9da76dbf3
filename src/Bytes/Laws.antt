-- ===== src/Bytes/Laws.antt =====
-- Reading: in bounds it never panics, and behind a prefix it reads what was written there.
use webrtc_doctor.Prelude.{
  ℕ, suc, ◌+◌, ◌-◌, ◌/◌, ◌%◌, ◌^◌, ◌≤◌, ◌<◌, ◌≡◌, refl, ap₂, arith, List, [], ◌∷◌, ◌++◌, ◌∙◌, ok,
  take, drop, length, length-append, le→leb, get_elem?-lt, take-append_left, drop-append_left,
}
use webrtc_doctor.Prelude.Xor.{bit_xor-bit_xor, bit_xor-lt}
use webrtc_doctor.Bytes.{
  IsBytes, be16, be32, from_be16, from_be32, index, slice, u16_at, u32_at, xor_bytes,
}

module _ {ε} {E : Type ε} where
  pub index-lt : (buf : List ℕ) (i : ℕ) → i < length buf → (b : ℕ) × (index {E = E} buf i ≡ ok b)
  unfolding index
  index-lt buf i h = let (b, e) = get_elem?-lt buf i h in (b, rw (e, index))

  pub u16_at-lt :
      (buf : List ℕ) (i : ℕ) → i + 2 ≤ length buf → (n : ℕ) × (u16_at {E = E} buf i ≡ ok n)
  unfolding u16_at
  u16_at-lt buf i h =
      let (a, p) = index-lt buf i (omega arith) in
      let (b, q) = index-lt buf (i + 1) (omega arith) in (from_be16 a b, rw (p, q))

  pub u32_at-lt :
      (buf : List ℕ) (i : ℕ) → i + 4 ≤ length buf → (n : ℕ) × (u32_at {E = E} buf i ≡ ok n)
  unfolding u32_at
  u32_at-lt buf i h =
      let (a, p) = index-lt buf i (omega arith) in
      let (b, q) = index-lt buf (i + 1) (omega arith) in
      let (c, r) = index-lt buf (i + 2) (omega arith) in
      let (d, s) = index-lt buf (i + 3) (omega arith) in (from_be32 a b c d, rw (p, q, r, s))

  pub slice-le :
      (buf : List ℕ) (a b : ℕ)
      → a ≤ b
      → b ≤ length buf
      → slice {E = E} buf a b ≡ ok (take (b - a) (drop a buf))
  unfolding slice
  slice-le buf a b h k = rw (le→leb a b h, le→leb b (length buf) k)

  -- Behind a prefix reading goes on as if the prefix were not there.
  pub index-shift :
      (pre xs : List ℕ) (i : ℕ) → index {E = E} (pre ++ xs) (length pre + i) ≡ index xs i
  unfolding index
  index-shift [] xs i = let e : 0 + i ≡ i = omega arith in rw e refl
  index-shift (x ∷ pre) xs i =
      let e : suc (length pre) + i ≡ suc (length pre + i) = omega arith in
      rw e (index-shift pre xs i)

  pub u16_at-shift :
      (pre xs : List ℕ) (i : ℕ) → u16_at {E = E} (pre ++ xs) (length pre + i) ≡ u16_at xs i
  unfolding u16_at
  u16_at-shift pre xs i =
      let e : length pre + i + 1 ≡ length pre + (i + 1) = omega arith in
      rw (e, index-shift pre xs i, index-shift pre xs (i + 1)) refl

  pub u32_at-shift :
      (pre xs : List ℕ) (i : ℕ) → u32_at {E = E} (pre ++ xs) (length pre + i) ≡ u32_at xs i
  unfolding u32_at
  u32_at-shift pre xs i =
      let e : length pre + i + 1 ≡ length pre + (i + 1) = omega arith in
      let f : length pre + i + 2 ≡ length pre + (i + 2) = omega arith in
      let g : length pre + i + 3 ≡ length pre + (i + 3) = omega arith in
      rw
        (
          e,
          f,
          g,
          index-shift pre xs i,
          index-shift pre xs (i + 1),
          index-shift pre xs (i + 2),
          index-shift pre xs (i + 3),
        )
        refl

  -- The range behind a prefix that holds `xs`.
  pub slice-middle :
      (pre xs rest : List ℕ) (a b : ℕ)
      → a ≡ length pre
      → b ≡ length pre + length xs
      → slice {E = E} (pre ++ (xs ++ rest)) a b ≡ ok xs
  slice-middle pre xs rest a b ha hb =
      let width : b - a ≡ length xs = omega arith in
      slice-le (pre ++ (xs ++ rest)) a b (omega arith)
        (omega (arith, length-append pre (xs ++ rest), length-append xs rest))
      ∙ rw (width, ha, drop-append_left pre (xs ++ rest), take-append_left xs rest) refl

pub from_be16-be16 : (n : ℕ) → n < 65536 → from_be16 (n / 256 % 256) (n % 256) ≡ n
from_be16-be16 n h = omega arith

pub from_be32-be32 :
    (n : ℕ)
    → n < 2 ^ 32
    → from_be32 (n / 16777216 % 256) (n / 65536 % 256) (n / 256 % 256) (n % 256) ≡ n
from_be32-be32 n h = omega arith

pub be16-IsBytes : (n : ℕ) → IsBytes (be16 n)
be16-IsBytes n = omega arith

pub be32-IsBytes : (n : ℕ) → IsBytes (be32 n)
be32-IsBytes n = omega arith

pub length-xor_bytes : (a b : List ℕ) → length a ≡ length b → length (xor_bytes a b) ≡ length a
unfolding xor_bytes
length-xor_bytes [] b h = refl
length-xor_bytes (x ∷ a) [] h = absurd (omega arith)
length-xor_bytes (x ∷ a) (y ∷ b) h = omega (arith, length-xor_bytes a b (omega arith))

pub xor_bytes-IsBytes : (a b : List ℕ) → IsBytes a → IsBytes b → IsBytes (xor_bytes a b)
unfolding xor_bytes
xor_bytes-IsBytes [] b h k = tt
xor_bytes-IsBytes (x ∷ a) [] h k = tt
xor_bytes-IsBytes (x ∷ a) (y ∷ b) (p, h) (q, k) = (bit_xor-lt 8 x y p q, xor_bytes-IsBytes a b h k)

-- Masking twice gives the bytes back.
pub xor_bytes-xor_bytes :
    (a b : List ℕ) → length a ≡ length b → IsBytes a → IsBytes b → xor_bytes (xor_bytes a b) b ≡ a
unfolding xor_bytes
xor_bytes-xor_bytes [] b l h k = refl
xor_bytes-xor_bytes (x ∷ a) [] l h k = absurd (omega arith)
xor_bytes-xor_bytes (x ∷ a) (y ∷ b) l (p, h) (q, k) =
    ap₂ ◌∷◌ (bit_xor-bit_xor 8 x y p q) (xor_bytes-xor_bytes a b (omega arith) h k)
