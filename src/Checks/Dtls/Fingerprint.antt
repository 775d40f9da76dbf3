-- ===== src/Checks/Dtls/Fingerprint.antt =====
-- `sha256_fingerprint` of checks/dtls.rs; SHA-256 is that of the sha2 crate.
pub mod Laws
use webrtc_doctor.Prelude.{
  ℕ, ◌+◌, ◌-◌, ◌/◌, ◌%◌, ◌≡◌, List, [], ◌∷◌, ◌++◌, length, ltb, if◌then◌else◌,
}
use webrtc_doctor.Prelude.Text.{Text}
use webrtc_doctor.Bytes.{IsBytes}

-- A digest is a `GenericArray<u8, U32>`.
pub record Sha256 : Type 0 where
  pub digest : List ℕ → List ℕ
  pub length-digest : (message : List ℕ) → length (digest message) ≡ 32
  pub digest-IsBytes : (message : List ℕ) → IsBytes (digest message)

abbrev pub hex_digit : ℕ → ℕ
hex_digit n = if ltb n 10 then b'0' + n else b'A' + (n - 10)

-- `{b:02X}`
abbrev pub hex : ℕ → Text
hex b = hex_digit (b / 16) ∷ hex_digit (b % 16) ∷ []

-- The loop, from the second byte on.
unfoldable pub colon_hex : List ℕ → Text
colon_hex [] = []
colon_hex (b ∷ bs) = (b':' ∷ hex b) ++ colon_hex bs

unfoldable pub joined_hex : List ℕ → Text
joined_hex [] = []
joined_hex (b ∷ bs) = hex b ++ colon_hex bs

unfoldable pub sha256_fingerprint : Sha256 → List ℕ → Text
sha256_fingerprint sha256 [] = []
sha256_fingerprint sha256 (b ∷ bs) = joined_hex (sha256.digest (b ∷ bs))
