-- ===== src/Bytes.antt =====
-- Byte buffers as the code reads and writes them: `u16::to_be_bytes`, `u32::from_be_bytes`,
-- `buf[i]`, `buf[a..b]`. A byte sequence (a slice, a `Vec<u8>`, an array, the UTF-8 of a `String`) is
-- a list of numbers; that each is below 256 is the predicate `IsBytes`.
pub mod Laws
use webrtc_doctor.Prelude.{
  ℕ, zero, suc, ◌+◌, ◌-◌, ◌*◌, ◌/◌, ◌%◌, ◌<◌, List, [], ◌∷◌, Option, none, some, Result, ok, panic,
  ◌>>=◌, get_elem?, take, drop, length, leb, ◌&&◌, if◌then◌else◌, All, bit_xor,
}

abbrev pub IsBytes : List ℕ → Type 0
IsBytes = All (λ b. b < 256)

-- `as u16`
abbrev pub as_u16 : ℕ → ℕ
as_u16 n = n % 65536

-- `u16::to_be_bytes`
abbrev pub be16 : ℕ → List ℕ
be16 n = n / 256 % 256 ∷ n % 256 ∷ []

-- `u32::to_be_bytes`
abbrev pub be32 : ℕ → List ℕ
be32 n = n / 16777216 % 256 ∷ n / 65536 % 256 ∷ n / 256 % 256 ∷ n % 256 ∷ []

-- `u32::to_le_bytes`
abbrev pub le32 : ℕ → List ℕ
le32 n = n % 256 ∷ n / 256 % 256 ∷ n / 65536 % 256 ∷ n / 16777216 % 256 ∷ []

-- `u16::from_be_bytes`
abbrev pub from_be16 : ℕ → ℕ → ℕ
from_be16 a b = a * 256 + b

-- `u32::from_be_bytes`
abbrev pub from_be32 : ℕ → ℕ → ℕ → ℕ → ℕ
from_be32 a b c d = a * 16777216 + b * 65536 + c * 256 + d

-- `buf[i]`, which panics out of bounds.
unfoldable pub index {ε} : {E : Type ε} → List ℕ → ℕ → Result E ℕ
index buf i = elim (get_elem? buf i) [ none ↦ panic | some b ↦ ok b ]

-- `&buf[a..b]`, which panics unless `a ≤ b ≤ buf.len()`.
unfoldable pub slice {ε} : {E : Type ε} → List ℕ → ℕ → ℕ → Result E (List ℕ)
slice buf a b = if leb a b && leb b (length buf) then ok (take (b - a) (drop a buf)) else panic

-- `u16::from_be_bytes([buf[i], buf[i + 1]])`
unfoldable pub u16_at {ε} : {E : Type ε} → List ℕ → ℕ → Result E ℕ
u16_at buf i = do a ← index buf i; b ← index buf (i + 1); ok (from_be16 a b)

-- `u32::from_be_bytes([buf[i], buf[i + 1], buf[i + 2], buf[i + 3]])`
unfoldable pub u32_at {ε} : {E : Type ε} → List ℕ → ℕ → Result E ℕ
u32_at buf i = do
  a ← index buf i
  b ← index buf (i + 1)
  c ← index buf (i + 2)
  d ← index buf (i + 3)
  ok (from_be32 a b c d)

-- `a[i] ^ b[i]` for each index of both.
unfoldable pub xor_bytes : List ℕ → List ℕ → List ℕ
xor_bytes [] bs = []
xor_bytes (_ ∷ _) [] = []
xor_bytes (a ∷ as') (b ∷ bs) = bit_xor a b ∷ xor_bytes as' bs
