-- ===== src/Checks/Dtls/Fingerprint/Laws.antt =====
-- The form of a fingerprint, and that the digest can be read back from it.
use webrtc_doctor.Prelude.{
  ℕ, ◌+◌, ◌-◌, ◌*◌, ◌/◌, ◌%◌, ◌<◌, ◌≤◌, ◌≡◌, ◌⊎◌, inl, inr, refl, ap, ap₂, arith, List, [], ◌∷◌,
  length, ltb, if◌then◌else◌,
}
use webrtc_doctor.Prelude.Text.{Text}
use webrtc_doctor.Bytes.{IsBytes}
use webrtc_doctor.Checks.Dtls.Fingerprint.{
  Sha256, hex_digit, colon_hex, joined_hex, sha256_fingerprint,
}

-- An upper-case hexadecimal digit.
abbrev pub IsHexDigit : ℕ → Type 0
IsHexDigit c = ((b'0' ≤ c) × (c ≤ b'9')) ⊎ ((b'A' ≤ c) × (c ≤ b'F'))

-- The value of a digit, and of the pairs of digits of a fingerprint.
abbrev pub hex_value : ℕ → ℕ
hex_value c = if ltb c b'A' then c - b'0' else c - b'A' + 10

abbrev pub read_pairs : Text → List ℕ
read_pairs (h ∷ l ∷ []) = (hex_value h * 16 + hex_value l) ∷ []
read_pairs (h ∷ l ∷ c ∷ rest) = (hex_value h * 16 + hex_value l) ∷ read_pairs rest
read_pairs _ = []

hex_value-hex_digit : (n : ℕ) → n < 16 → hex_value (hex_digit n) ≡ n
hex_value-hex_digit n h = ground arith

hex_digit-IsHexDigit : (n : ℕ) → n < 16 → IsHexDigit (hex_digit n)
hex_digit-IsHexDigit n h = ground arith

-- Pairs of digits, with a colon between two pairs.
pub data Colons : Text → Type 0 where
  single : (h l : ℕ) → IsHexDigit h → IsHexDigit l → Colons (h ∷ l ∷ [])
  pair :
      (h l : ℕ) (rest : Text)
      → IsHexDigit h
      → IsHexDigit l
      → Colons rest
      → Colons (h ∷ l ∷ b':' ∷ rest)

joined_hex-Colons : (b : ℕ) (bs : List ℕ) → b < 256 → IsBytes bs → Colons (joined_hex (b ∷ bs))
unfolding joined_hex colon_hex
joined_hex-Colons b [] h hs =
    single _ _ (hex_digit-IsHexDigit (b / 16) (omega arith))
      (hex_digit-IsHexDigit (b % 16) (omega arith))
joined_hex-Colons b (c ∷ bs) h hs =
    pair _ _ _ (hex_digit-IsHexDigit (b / 16) (omega arith))
      (hex_digit-IsHexDigit (b % 16) (omega arith)) (joined_hex-Colons c bs hs.0 hs.1)

read-hex :
    (b : ℕ) → b < 256 → hex_value (hex_digit (b / 16)) * 16 + hex_value (hex_digit (b % 16)) ≡ b
read-hex b h =
    rw (hex_value-hex_digit (b / 16) (omega arith))
      (rw (hex_value-hex_digit (b % 16) (omega arith)) (omega arith))

read_pairs-joined_hex : (bs : List ℕ) → IsBytes bs → read_pairs (joined_hex bs) ≡ bs
unfolding joined_hex colon_hex
read_pairs-joined_hex [] hs = refl
read_pairs-joined_hex (b ∷ []) hs = ap (λ n. n ∷ []) (read-hex b hs.0)
read_pairs-joined_hex (b ∷ c ∷ bs) hs =
    ap₂ (λ n ns. n ∷ ns) (read-hex b hs.0) (read_pairs-joined_hex (c ∷ bs) hs.1)

length-joined_hex : (b : ℕ) (bs : List ℕ) → length (joined_hex (b ∷ bs)) ≡ 2 + 3 * length bs
unfolding joined_hex colon_hex
length-joined_hex b [] = refl
length-joined_hex b (c ∷ bs) = omega (arith, length-joined_hex c bs)

digest_form :
    (d : List ℕ)
    → length d ≡ 32
    → IsBytes d
    → Colons (joined_hex d) × (length (joined_hex d) ≡ 95) × (read_pairs (joined_hex d) ≡ d)
digest_form [] n h = absurd (omega (arith, n))
digest_form (b ∷ bs) n h = (
  joined_hex-Colons b bs h.0 h.1,
  omega (arith, n, length-joined_hex b bs),
  read_pairs-joined_hex (b ∷ bs) h,
)

-- The fingerprint of a certificate is pairs of upper-case hexadecimal digits with a colon between
-- two pairs, 95 characters in all, and the digest of the certificate can be read back from it; the
-- fingerprint of nothing is empty.
pub sha256_fingerprint-Colons :
    (sha256 : Sha256) (cert : List ℕ)
    → (sha256_fingerprint sha256 [] ≡ [])
      × ((cert ≡ [])
          ⊎ (Colons (sha256_fingerprint sha256 cert)
              × (length (sha256_fingerprint sha256 cert) ≡ 95)
              × (read_pairs (sha256_fingerprint sha256 cert) ≡ sha256.digest cert)))
unfolding sha256_fingerprint
sha256_fingerprint-Colons sha256 [] = (refl, inl refl)
sha256_fingerprint-Colons sha256 (b ∷ bs) = (
  refl,
  inr (
      digest_form (sha256.digest (b ∷ bs)) (sha256.length-digest (b ∷ bs))
        (sha256.digest-IsBytes (b ∷ bs))),
)
