-- ===== src/Echo/Indication.antt =====
-- `parse_data_indication` of turn_echo.rs.
pub mod Laws
use webrtc_doctor.Prelude.{
  ℕ, zero, suc, ◌+◌, List, Option, none, some, Result, ok, err, stuck, ◌>>=◌, length, ltb, leb,
  ◌==◌, not, if◌then◌else◌,
}
use webrtc_doctor.Bytes.{u16_at, u32_at, slice}
use webrtc_doctor.Stun.AttrType
use webrtc_doctor.Stun.Types.{CodecError, short, bad_cookie, truncated_attr, magic_cookie}
use webrtc_doctor.Stun.Attrs.{padding}

abbrev pub data_indication : ℕ
data_indication = 0x0017

-- The `while` loop, which returns at the first DATA. One unit of fuel is one round.
unfoldable pub data_from : ℕ → List ℕ → ℕ → ℕ → Result CodecError (Option (List ℕ))
data_from zero buf i stop = if leb (i + 4) stop then stuck else ok none
data_from (suc fuel) buf i stop =
    let round = do
      at_type ← u16_at buf i
      al ← u16_at buf (i + 2)
      let val_start = i + 4
      let val_end = val_start + al
      if ltb stop val_end then err truncated_attr else do
        if at_type == AttrType.data_attr
            then (do value ← slice buf val_start val_end; ok (some value))
            else data_from fuel buf (val_end + padding al) stop
    in if leb (i + 4) stop then round else ok none

unfoldable pub parse_data_indication : List ℕ → Result CodecError (Option (List ℕ))
parse_data_indication buf = if ltb (length buf) 20 then err (short (length buf)) else do
  msg_type ← u16_at buf 0
  if not (msg_type == data_indication) then ok none else do
    attrs_len ← u16_at buf 2
    cookie ← u32_at buf 4
    if not (cookie == magic_cookie)
        then err (bad_cookie cookie)
        else if ltb (length buf) (20 + attrs_len)
        then err truncated_attr
        else data_from attrs_len buf 20 (20 + attrs_len)
