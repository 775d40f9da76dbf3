-- ===== src/Echo/Payload.antt =====
-- `make_payload`, `parse_seq` and `stats` of turn_echo.rs.
pub mod Laws
use webrtc_doctor.Prelude.{
  ℕ, ◌+◌, ◌*◌, ◌/◌, ◌%◌, ◌^◌, List, [], ◌∷◌, ◌++◌, Option, none, some, length, take, drop, ◌==◌,
  not, bytes_eq, if◌then◌else◌, min, max,
}
use webrtc_doctor.Prelude.Text.{text}
use webrtc_doctor.Bytes.{le32}

unfoldable pub echo_prefix : List ℕ
unfolding text
echo_prefix = text "webrtc-doctor-echo-probe"

unfoldable pub make_payload : ℕ → List ℕ
make_payload seq = echo_prefix ++ le32 seq

-- `u32::from_le_bytes` of a slice, if it has four bytes.
unfoldable pub from_le32 : List ℕ → Option ℕ
from_le32 (a ∷ b ∷ c ∷ d ∷ []) = some (a + b * 256 + c * 65536 + d * 16777216)
from_le32 _ = none

-- The length is tested before the slices are taken, so they stay in bounds.
unfoldable pub parse_seq : List ℕ → Option ℕ
parse_seq payload =
    if not (length payload == length echo_prefix + 4)
    then none
    else if not (bytes_eq (take (length echo_prefix) payload) echo_prefix)
    then none
    else from_le32 (drop (length echo_prefix) payload)

abbrev pub sum : List ℕ → ℕ
sum [] = 0
sum (x ∷ xs) = x + sum xs

-- `iter().min()` and `iter().max()`, 0 for no element.
abbrev pub minimum : List ℕ → ℕ
minimum [] = 0
minimum (x ∷ []) = x
minimum (x ∷ y ∷ ys) = min x (minimum (y ∷ ys))

abbrev pub maximum : List ℕ → ℕ
maximum [] = 0
maximum (x ∷ xs) = max x (maximum xs)

-- (min, avg, max)
unfoldable pub stats : List ℕ → ℕ × ℕ × ℕ
stats rtts_ms = (
  minimum rtts_ms,
  (if length rtts_ms == 0 then 0 else sum rtts_ms % 2 ^ 64 / length rtts_ms),
  maximum rtts_ms,
)
