-- ===== src/Stun/ErrorCode.antt =====
-- `parse_error_code` of stun_codec.rs. `lossy` is `String::from_utf8_lossy` of the standard library,
-- from bytes to the UTF-8 of the text.
pub mod Laws
use webrtc_doctor.Prelude.{
  ℕ, ◌+◌, ◌*◌, List, Result, ok, err, ◌>>=◌, length, ltb, if◌then◌else◌, bit_and, take, drop,
}
use webrtc_doctor.Bytes.{index, slice}
use webrtc_doctor.Stun.Types.{CodecError, truncated_attr}

pub record ErrorCode : Type 0 where
  pub code : ℕ
  pub reason : List ℕ

unfoldable pub parse_error_code : (List ℕ → List ℕ) → List ℕ → Result CodecError ErrorCode
parse_error_code lossy value = if ltb (length value) 4 then err truncated_attr else do
  class ← index value 2
  number ← index value 3
  rest ← slice value 4 (length value)
  ok (record { code = bit_and class 0x07 * 100 + number; reason = lossy rest })
