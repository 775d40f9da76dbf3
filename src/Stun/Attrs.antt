-- ===== src/Stun/Attrs.antt =====
-- `walk_attrs` of stun_codec.rs.
pub mod Laws
use webrtc_doctor.Prelude.{
  ℕ, zero, suc, ◌+◌, ◌-◌, ◌%◌, List, [], ◌∷◌, ◌++◌, Result, ok, err, stuck, ◌>>=◌, ltb, leb,
  if◌then◌else◌,
}
use webrtc_doctor.Bytes.{u16_at, slice}
use webrtc_doctor.Stun.Types.{CodecError, truncated_attr, Attr}

-- `(4 - (attr_len % 4)) % 4`
abbrev pub padding : ℕ → ℕ
padding n = (4 - n % 4) % 4

-- The `while` loop. One unit of fuel is one round.
unfoldable pub walk_from : ℕ → List ℕ → ℕ → ℕ → List Attr → Result CodecError (List Attr)
walk_from zero buf i stop out = if leb (i + 4) stop then stuck else ok out
walk_from (suc fuel) buf i stop out =
    let round = do
      attr_type ← u16_at buf i
      attr_len ← u16_at buf (i + 2)
      let val_start = i + 4
      let val_end = val_start + attr_len
      if ltb stop val_end then err truncated_attr else do
        value ← slice buf val_start val_end
        walk_from fuel buf (val_end + padding attr_len) stop
            (out ++ record { attr_type = attr_type; value = value } ∷ [])
    in if leb (i + 4) stop then round else ok out

-- A round takes at least four bytes, so `attrs_len` rounds are more than enough.
unfoldable pub walk_attrs : List ℕ → ℕ → Result CodecError (List Attr)
walk_attrs buf attrs_len = walk_from attrs_len buf 20 (20 + attrs_len) []
