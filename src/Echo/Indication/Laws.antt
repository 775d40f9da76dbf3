-- ===== src/Echo/Indication/Laws.antt =====
-- `parse_data_indication`: it returns on every datagram, and its own walk over the attributes finds
-- what `walk_attrs` would find.
use webrtc_doctor.Prelude.{
  ℕ, zero, suc, ◌+◌, ◌≤◌, ◌<◌, ◌≡◌, ◌≢◌, ◌∙◌, refl, sym, ap, arith, inl, inr, List, [], ◌∷◌, ◌++◌,
  append-nil, append_assoc, Option, none, some, true, false, ok, Returns, >>=-eq-ok, ok-injective,
  length, ltb, leb, le→ltb, ◌==◌, Bool-cases, if◌then◌else◌, All,
}
use webrtc_doctor.Bytes.{u16_at, slice}
use webrtc_doctor.Bytes.Laws.{u16_at-lt, u32_at-lt, slice-le}
use webrtc_doctor.Stun.AttrType
use webrtc_doctor.Stun.Types.{CodecError, magic_cookie, Attr}
use webrtc_doctor.Stun.Header.Laws.{parse_header-Describes}
use webrtc_doctor.Stun.Attrs.{padding, walk_from, walk_attrs}
use webrtc_doctor.Stun.Attrs.Laws.{tlvs, IsAttr}
use webrtc_doctor.Turn.Message.Laws.{attr, message, parse-message}
use webrtc_doctor.Echo.Indication.{data_indication, data_from, parse_data_indication}

data_from-Returns :
    (fuel : ℕ) (buf : List ℕ) (i stop : ℕ)
    → stop ≤ length buf
    → stop ≤ i + fuel
    → Returns (data_from fuel buf i stop)
unfolding data_from
data_from-Returns zero buf i stop h k = ground arith
data_from-Returns (suc fuel) buf i stop h k = elim (Bool-cases (leb (i + 4) stop)) [
  | inr done ↦ rw done tt
  | inl more ↦
      let (t, pt) = u16_at-lt {E = CodecError} buf i (ground arith) in
      let (n, pn) = u16_at-lt {E = CodecError} buf (i + 2) (ground arith) in
      rw (more, pt, pn)
        (elim (Bool-cases (ltb stop (i + 4 + n))) [
          | inl over ↦ rw over tt
          | inr inside ↦ rw inside (elim (Bool-cases (t == AttrType.data_attr)) [
            | inl found ↦
                rw
                  (
                    found,
                    slice-le {E = CodecError} buf (i + 4) (i + 4 + n) (omega arith) (ground arith),
                  )
                  tt
            | inr other ↦
                rw other (data_from-Returns fuel buf (i + 4 + n + padding n) stop h (ground arith))
          ])
        ])
]

-- No datagram makes `parse_data_indication` panic, and its loop ends.
pub parse_data_indication-Returns : (buf : List ℕ) → Returns (parse_data_indication buf)
unfolding parse_data_indication
parse_data_indication-Returns buf = elim (Bool-cases (ltb (length buf) 20)) [
  | inl few ↦ rw few tt
  | inr enough ↦
      let (t, pt) = u16_at-lt {E = CodecError} buf 0 (ground arith) in
      let (n, pn) = u16_at-lt {E = CodecError} buf 2 (ground arith) in
      let (c, pc) = u32_at-lt {E = CodecError} buf 4 (ground arith) in
      rw (enough, pt)
        (elim (Bool-cases (t == data_indication)) [
          | inr other ↦ rw other tt
          | inl same ↦
              rw (same, pn, pc)
                (elim (Bool-cases (c == magic_cookie)) [
                  | inr bad ↦ rw bad tt
                  | inl good ↦ rw good (elim (Bool-cases (ltb (length buf) (20 + n))) [
                    | inl cut ↦ rw cut tt
                    | inr whole ↦
                        rw whole (data_from-Returns n buf 20 (20 + n) (ground arith) (omega arith))
                  ])
                ])
        ])
]

-- The value of the first DATA attribute.
abbrev pub first_data : List Attr → Option (List ℕ)
first_data [] = none
first_data (a ∷ as') = if a.attr_type == AttrType.data_attr then some a.value else first_data as'

-- One round on an attribute that fits.
data_from-step :
    (fuel : ℕ) (buf : List ℕ) (i stop t n : ℕ) (v : List ℕ) (as' : List Attr)
    → leb (i + 4) stop ≡ true
    → u16_at {E = CodecError} buf i ≡ ok t
    → u16_at {E = CodecError} buf (i + 2) ≡ ok n
    → ltb stop (i + 4 + n) ≡ false
    → slice {E = CodecError} buf (i + 4) (i + 4 + n) ≡ ok v
    → data_from fuel buf (i + 4 + n + padding n) stop ≡ ok (first_data as')
    → data_from (suc fuel) buf i stop ≡ ok (first_data (attr t v ∷ as'))
unfolding data_from
data_from-step fuel buf i stop t n v as' more pt pn inside pv d =
    rw (more, pt, pn, inside)
      (elim (Bool-cases (t == AttrType.data_attr)) [
        | inl found ↦ rw (found, pv) refl
        | inr other ↦ rw other d
      ])

data_from-end :
    (fuel : ℕ) (buf : List ℕ) (i stop : ℕ)
    → leb (i + 4) stop ≡ false
    → data_from fuel buf i stop ≡ ok none
unfolding data_from
data_from-end zero buf i stop done = rw done refl
data_from-end (suc fuel) buf i stop done = rw done refl

data_from-walk_from :
    (fuel : ℕ) (buf : List ℕ) (i stop : ℕ) (out all : List Attr)
    → walk_from fuel buf i stop out ≡ ok all
    → (as' : List Attr) × (all ≡ out ++ as') × (data_from fuel buf i stop ≡ ok (first_data as'))
unfolding walk_from
data_from-walk_from zero buf i stop out all e = elim (Bool-cases (leb (i + 4) stop)) [
  | inl more ↦ cc (rw (more, walk_from) at e)
  | inr done ↦
      let same : out ≡ all = ok-injective (rw (done, walk_from) at e) in
      ([], sym same ∙ sym (append-nil out), data_from-end zero buf i stop done)
]
data_from-walk_from (suc fuel) buf i stop out all e = elim (Bool-cases (leb (i + 4) stop)) [
  | inr done ↦
      let same : out ≡ all = ok-injective (rw (done, walk_from) at e) in
      ([], sym same ∙ sym (append-nil out), data_from-end (suc fuel) buf i stop done)
  | inl more ↦
      let (t, pt, e₁) = >>=-eq-ok (u16_at {E = CodecError} buf i) _ (rw (more, walk_from) at e) in
      let (n, pn, e₂) = >>=-eq-ok (u16_at {E = CodecError} buf (i + 2)) _ e₁ in
      elim (Bool-cases (ltb stop (i + 4 + n))) [
        | inl over ↦ cc (rw over at e₂)
        | inr inside ↦
            let (v, pv, e₃) =
              >>=-eq-ok (slice {E = CodecError} buf (i + 4) (i + 4 + n)) _ (rw inside at e₂) in
            let (as', split, d) =
              data_from-walk_from fuel buf (i + 4 + n + padding n) stop (out ++ attr t v ∷ []) all
                e₃ in
            (
              attr t v ∷ as',
              split ∙ append_assoc out (attr t v ∷ []) as',
              data_from-step fuel buf i stop t n v as' more pt pn inside pv d,
            )
      ]
]

-- On a Data Indication that a relay writes, whatever its id, with attributes that fit a message: the
-- value of the first DATA attribute, `none` if there is none.
pub parse_data_indication-message :
    (txid : List ℕ) (as' : List Attr)
    → length txid ≡ 12
    → length (tlvs as') < 65536
    → All IsAttr as'
    → parse_data_indication (message data_indication txid as') ≡ ok (first_data as')
unfolding parse_data_indication walk_attrs
parse_data_indication-message txid as' hx hl ha =
    let buf = message data_indication txid as' in
    let (h, w) = parse-message data_indication txid as' (omega arith) hx hl ha in
    let d = parse_header-Describes buf txid _ h in
    let (same, split, found) =
      data_from-walk_from (length (tlvs as')) buf 20 (20 + length (tlvs as')) [] as' w in
    let enough = le→ltb (length buf) 20 (omega (arith, d.fits)) in
    let fits = le→ltb (length buf) (20 + length (tlvs as')) d.fits in
    rw (enough, d.type_bytes, d.length_bytes, d.cookie_bytes, fits, found)
      (ap (λ t. ok (first_data t)) (sym split))

-- Any other kind of message is passed over.
parse_data_indication-other :
    (method : ℕ) (txid : List ℕ) (as' : List Attr)
    → method < 65536
    → method ≢ data_indication
    → length txid ≡ 12
    → length (tlvs as') < 65536
    → All IsAttr as'
    → parse_data_indication (message method txid as') ≡ ok none
unfolding parse_data_indication
parse_data_indication-other method txid as' hm other hx hl ha =
    let buf = message method txid as' in
    let (h, w) = parse-message method txid as' hm hx hl ha in
    let d = parse_header-Describes buf txid _ h in
    let enough = le→ltb (length buf) 20 (omega (arith, d.fits)) in
    let differs : (method == data_indication) ≡ false = ground arith in
    rw (enough, d.type_bytes, differs) refl
