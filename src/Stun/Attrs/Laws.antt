-- ===== src/Stun/Attrs/Laws.antt =====
-- `walk_attrs`: it returns on every buffer that holds the section, and it reads back a section that
-- was written attribute by attribute.
use webrtc_doctor.Prelude.{
  ℕ, zero, suc, ◌+◌, ◌≤◌, ◌<◌, ◌≡◌, ◌∙◌, refl, sym, ap, arith, inl, inr, List, [], ◌∷◌, ◌++◌,
  append_assoc, append-nil, ok, Returns, length, length-append, length-replicate, replicate, ltb,
  leb, le→ltb, le→leb, Bool-cases, All,
}
use webrtc_doctor.Bytes.{be16, index, u16_at, slice}
use webrtc_doctor.Bytes.Laws.{u16_at-lt, slice-le, slice-middle, u16_at-shift, from_be16-be16}
use webrtc_doctor.Stun.Types.{CodecError, Attr}
use webrtc_doctor.Stun.Attrs.{padding, walk_from, walk_attrs}

walk_from-Returns :
    (fuel : ℕ) (buf : List ℕ) (i stop : ℕ) (out : List Attr)
    → stop ≤ length buf
    → stop ≤ i + fuel
    → Returns (walk_from fuel buf i stop out)
unfolding walk_from
walk_from-Returns zero buf i stop out h k = ground arith
walk_from-Returns (suc fuel) buf i stop out h k = elim (Bool-cases (leb (i + 4) stop)) [
  | inr done ↦ rw done tt
  | inl more ↦
      let (t, pt) = u16_at-lt {E = CodecError} buf i (ground arith) in
      let (n, pn) = u16_at-lt {E = CodecError} buf (i + 2) (ground arith) in
      rw (more, pt, pn)
        (elim (Bool-cases (ltb stop (i + 4 + n))) [
          | inl over ↦ rw over tt
          | inr inside ↦
              rw
                (
                  inside,
                  slice-le {E = CodecError} buf (i + 4) (i + 4 + n) (omega arith) (ground arith),
                )
                (walk_from-Returns fuel buf (i + 4 + n + padding n) stop _ h (ground arith))
        ])
]

-- No attribute section inside the buffer makes the walk panic or run out of fuel.
pub walk_attrs-Returns :
    (buf : List ℕ) (attrs_len : ℕ)
    → 20 + attrs_len ≤ length buf
    → Returns (walk_attrs buf attrs_len)
unfolding walk_attrs
walk_attrs-Returns buf n h = walk_from-Returns n buf 20 (20 + n) [] h (omega arith)

-- An attribute as it stands on the wire, and a section of them.
unfoldable pub tlv : Attr → List ℕ
tlv a =
    be16 a.attr_type
    ++ (be16 (length a.value) ++ (a.value ++ replicate (padding (length a.value)) 0))

unfoldable pub tlvs : List Attr → List ℕ
tlvs [] = []
tlvs (a ∷ as') = tlv a ++ tlvs as'

-- The fields of the wire hold the type and the length.
abbrev pub IsAttr : Attr → Type 0
IsAttr a = (a.attr_type < 65536) × (length a.value < 65536)

pub length-tlv : (a : Attr) → length (tlv a) ≡ 4 + length a.value + padding (length a.value)
unfolding tlv
length-tlv a = omega (
  arith,
  length-append a.value (replicate (padding (length a.value)) 0),
  length-replicate (padding (length a.value)) (zero),
)

-- Room enough for a section: header and padding of an attribute take at most seven bytes.
abbrev pub room : List Attr → ℕ
room [] = 0
room (a ∷ as') = 7 + length a.value + room as'

pub length-tlvs-le-room : (as' : List Attr) → length (tlvs as') ≤ room as'
unfolding tlvs
length-tlvs-le-room [] = omega arith
length-tlvs-le-room (a ∷ as') =
    omega (arith, length-append (tlv a) (tlvs as'), length-tlv a, length-tlvs-le-room as')

module _ (pre : List ℕ) (a : Attr) (rest : List ℕ) (i : ℕ) (at_i : i ≡ length pre) where
  type_at : IsAttr a → u16_at {E = CodecError} (pre ++ (tlv a ++ rest)) i ≡ ok a.attr_type
  unfolding tlv u16_at index
  type_at h =
      let e : i ≡ length pre + 0 = omega arith in
      rw (e, u16_at-shift pre (tlv a ++ rest) 0, from_be16-be16 a.attr_type h.0) refl

  length_at :
      IsAttr a → u16_at {E = CodecError} (pre ++ (tlv a ++ rest)) (i + 2) ≡ ok (length a.value)
  unfolding tlv u16_at index
  length_at h =
      let e : i + 2 ≡ length pre + 2 = omega arith in
      rw (e, u16_at-shift pre (tlv a ++ rest) 2, from_be16-be16 (length a.value) h.1) refl

  value_at :
      slice {E = CodecError} (pre ++ (tlv a ++ rest)) (i + 4) (i + 4 + length a.value) ≡ ok a.value
  unfolding tlv
  value_at =
      let front : List ℕ = pre ++ (be16 a.attr_type ++ be16 (length a.value)) in
      let pad : List ℕ = replicate (padding (length a.value)) 0 in
      let here : i + 4 ≡ length front =
        omega (arith, length-append pre (be16 a.attr_type ++ be16 (length a.value))) in
      let same : front ++ (a.value ++ (pad ++ rest)) ≡ pre ++ (tlv a ++ rest) =
        simp (append_assoc) in
      rw (← same) (
        slice-middle front a.value (pad ++ rest) (i + 4) (i + 4 + length a.value) here
          (omega arith))

  -- One round over an attribute that was written at `i`.
  walk_from-tlv :
      (fuel stop : ℕ) (out : List Attr)
      → IsAttr a
      → i + 4 + length a.value ≤ stop
      → walk_from (suc fuel) (pre ++ (tlv a ++ rest)) i stop out
        ≡ walk_from fuel (pre ++ (tlv a ++ rest)) (i + length (tlv a)) stop (out ++ a ∷ [])
  unfolding walk_from
  walk_from-tlv fuel stop out h fits =
      let more = le→leb (i + 4) stop (omega arith) in
      let inside = le→ltb stop (i + 4 + length a.value) fits in
      let next : i + 4 + length a.value + padding (length a.value) ≡ i + length (tlv a) =
        omega (arith, length-tlv a) in
      rw (more, type_at h, length_at h, inside, value_at, next) refl

walk_from_done :
    (fuel : ℕ) (buf : List ℕ) (i stop : ℕ) (out : List Attr)
    → stop < i + 4
    → walk_from fuel buf i stop out ≡ ok out
unfolding walk_from
walk_from_done zero buf i stop out h = ground arith
walk_from_done (suc fuel) buf i stop out h = ground arith

walk_from-tlvs :
    (as' : List Attr) (rest : List ℕ) (fuel : ℕ) (pre : List ℕ) (i stop : ℕ) (out : List Attr)
    → All IsAttr as'
    → i ≡ length pre
    → stop ≡ i + length (tlvs as')
    → stop ≤ i + fuel
    → walk_from fuel (pre ++ (tlvs as' ++ rest)) i stop out ≡ ok (out ++ as')
unfolding tlvs
walk_from-tlvs [] rest fuel pre i stop out h p s f =
    walk_from_done fuel (pre ++ rest) i stop out (omega arith) ∙ ap ok (sym (append-nil out))
walk_from-tlvs (a ∷ as') rest zero pre i stop out h p s f =
    absurd (omega (arith, length-append (tlv a) (tlvs as'), length-tlv a))
walk_from-tlvs (a ∷ as') rest (suc fuel) pre i stop out (ha, h) p s f =
    let size = length-append (tlv a) (tlvs as') in
    let small = length-tlv a in
    let later =
      walk_from-tlvs as' rest fuel (pre ++ tlv a) (i + length (tlv a)) stop (out ++ a ∷ []) h
        (omega (arith, length-append pre (tlv a))) (omega (arith, size))
        (omega (arith, size, small)) in
    rw (append_assoc (tlv a) (tlvs as') rest) (
      walk_from-tlv pre a (tlvs as' ++ rest) i p fuel stop out ha (omega (arith, size, small))
      ∙ rw (append_assoc pre (tlv a) (tlvs as' ++ rest)) at later
      ∙ ap ok (append_assoc out (a ∷ []) as'))

pub walk_attrs-tlvs :
    (header : List ℕ) (as' : List Attr) (rest : List ℕ)
    → length header ≡ 20
    → All IsAttr as'
    → walk_attrs (header ++ (tlvs as' ++ rest)) (length (tlvs as')) ≡ ok as'
unfolding walk_attrs
walk_attrs-tlvs header as' rest h k =
    walk_from-tlvs as' rest (length (tlvs as')) header 20 (20 + length (tlvs as')) [] k
      (omega arith) refl (omega arith)
