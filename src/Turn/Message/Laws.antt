-- ===== src/Turn/Message/Laws.antt =====
-- What the primitives write: a header and a section of attributes that the STUN codec reads back.
use webrtc_doctor.Prelude.{
  ℕ, ◌+◌, ◌-◌, ◌<◌, ◌≡◌, ◌∙◌, refl, sym, ap, arith, List, [], ◌∷◌, ◌++◌, append_assoc, append-nil,
  ok, length, length-append, le→ltb, All,
}
use webrtc_doctor.Bytes.{be16, be32, as_u16}
use webrtc_doctor.Stun.AttrType
use webrtc_doctor.Stun.Types.{Attr, magic_cookie}
use webrtc_doctor.Stun.Header.{parse_header}
use webrtc_doctor.Stun.Header.Laws.{header_bytes, parse_header-header_bytes}
use webrtc_doctor.Stun.Attrs.{walk_attrs}
use webrtc_doctor.Stun.Attrs.Laws.{tlv, tlvs, IsAttr, walk_attrs-tlvs}
use webrtc_doctor.Turn.Message.{
  Digests, stun_header, append_attr, put_length, set_attrs_length, attach_message_integrity,
}

abbrev pub attr : ℕ → List ℕ → Attr
attr attr_type value = record { attr_type = attr_type; value = value }

-- A whole message: the header with the length of the section, then the section.
unfoldable pub message : ℕ → List ℕ → List Attr → List ℕ
message method txid as' = header_bytes method (length (tlvs as')) txid ++ tlvs as'

-- The message under construction: the length field may still be another.
unfoldable pub draft : ℕ → ℕ → List ℕ → List Attr → List ℕ
draft method n txid as' = header_bytes method n txid ++ tlvs as'

pub tlvs-append : (as' bs : List Attr) → tlvs (as' ++ bs) ≡ tlvs as' ++ tlvs bs
unfolding tlvs
tlvs-append [] bs = refl
tlvs-append (a ∷ as') bs = rw (tlvs-append as' bs) (sym (append_assoc (tlv a) (tlvs as') (tlvs bs)))

pub stun_header-draft :
    (method : ℕ) (txid : List ℕ) → stun_header method txid ≡ draft method 0 txid []
unfolding stun_header draft header_bytes tlvs
stun_header-draft method txid =
    sym (append-nil (be16 method ++ be16 0 ++ be32 magic_cookie ++ txid))

append_attr-tlv :
    (msg : List ℕ) (attr_type : ℕ) (value : List ℕ)
    → length value < 65536
    → append_attr msg attr_type value ≡ msg ++ tlv (attr attr_type value)
unfolding append_attr tlv
append_attr-tlv msg t value h =
    let fits : as_u16 (length value) ≡ length value = omega arith in rw fits (simp append_assoc)

-- `append_attr` adds one attribute to the section.
pub append_attr-draft :
    (method n : ℕ) (txid : List ℕ) (as' : List Attr) (attr_type : ℕ) (value : List ℕ)
    → length value < 65536
    → append_attr (draft method n txid as') attr_type value
      ≡ draft method n txid (as' ++ attr attr_type value ∷ [])
unfolding draft tlvs
append_attr-draft method n txid as' t value h =
    append_attr-tlv (header_bytes method n txid ++ tlvs as') t value h
    ∙ rw (tlvs-append as' (attr t value ∷ []), append-nil (tlv (attr t value)))
        (append_assoc (header_bytes method n txid) (tlvs as') (tlv (attr t value)))

length-header_bytes :
    (method n : ℕ) (txid : List ℕ) → length txid ≡ 12 → length (header_bytes method n txid) ≡ 20
unfolding header_bytes
length-header_bytes method n txid h = omega arith

length-draft :
    (method n : ℕ) (txid : List ℕ) (as' : List Attr)
    → length txid ≡ 12
    → length (draft method n txid as') ≡ 20 + length (tlvs as')
unfolding draft header_bytes
length-draft method n txid as' h = omega (arith, length-append txid (tlvs as'))

put_length-draft :
    (method n m : ℕ) (txid : List ℕ) (as' : List Attr)
    → put_length (draft method n txid as') m ≡ draft method m txid as'
unfolding draft header_bytes
put_length-draft method n m txid as' = refl

-- The digest of `attach_message_integrity` is taken over the message so far, with the length that
-- the message has once the digest is there (24 bytes more).
abbrev pub integrity : Digests → List ℕ → ℕ → List ℕ → List Attr → List ℕ
integrity digests key method txid as' =
    digests.hmac_sha1 key (draft method (length (tlvs as') + 24) txid as')

tlv-digest :
    (d : List ℕ)
    → length d ≡ 20
    → tlv (attr AttrType.message_integrity d) ≡ be16 AttrType.message_integrity ++ be16 20 ++ d
unfolding tlv
tlv-digest d h = rw h (ap (λ t. be16 AttrType.message_integrity ++ be16 20 ++ t) (append-nil d))

signed :
    (method : ℕ) (txid : List ℕ) (as' : List Attr) (d : List ℕ)
    → length d ≡ 20
    → draft method (length (tlvs as') + 24) txid as'
        ++ be16 AttrType.message_integrity
        ++ be16 20
        ++ d
      ≡ message method txid (as' ++ attr AttrType.message_integrity d ∷ [])
unfolding message draft tlvs
signed method txid as' d h =
    let whole : tlvs (as' ++ attr AttrType.message_integrity d ∷ [])
        ≡ tlvs as' ++ (be16 AttrType.message_integrity ++ be16 20 ++ d) =
      tlvs-append as' (attr AttrType.message_integrity d ∷ [])
      ∙ ap (λ t. tlvs as' ++ t)
          (append-nil (tlv (attr AttrType.message_integrity d)) ∙ tlv-digest d h) in
    let size : length (tlvs as' ++ (be16 AttrType.message_integrity ++ be16 20 ++ d))
        ≡ length (tlvs as') + 24 =
      omega (arith, length-append (tlvs as') (be16 AttrType.message_integrity ++ be16 20 ++ d)) in
    rw (whole, size) (simp append_assoc)

module _ {ε} {E : Type ε} (method n : ℕ) (txid : List ℕ) (as' : List Attr)
    (twelve : length txid ≡ 12) where
  -- `set_attrs_length` completes a message whose section fits the length field.
  pub set_attrs_length-draft :
      length (tlvs as') < 65536
      → set_attrs_length {E = E} (draft method n txid as') ≡ ok (message method txid as')
  unfolding set_attrs_length message draft
  set_attrs_length-draft h =
      let size = length-draft method n txid as' twelve in
      let enough = le→ltb (length (draft method n txid as')) 20 (omega (arith, size)) in
      let value : as_u16 (length (draft method n txid as') - 20) ≡ length (tlvs as') =
        omega (arith, size) in
      rw (enough, value) (ap ok (put_length-draft method n (length (tlvs as')) txid as'))

  -- `attach_message_integrity` completes a message: its last attribute is the digest.
  pub attach_message_integrity-draft :
      (digests : Digests) (key : List ℕ)
      → length (tlvs as') + 24 < 65536
      → attach_message_integrity digests {E = E} (draft method n txid as') key
        ≡ ok (
            message method txid
              (as' ++ attr AttrType.message_integrity (integrity digests key method txid as') ∷ []))
  unfolding attach_message_integrity
  attach_message_integrity-draft digests key h =
      let size = length-draft method n txid as' twelve in
      let enough = le→ltb (length (draft method n txid as')) 20 (omega (arith, size)) in
      let value : as_u16 (length (draft method n txid as') - 20 + 24) ≡ length (tlvs as') + 24 =
        omega (arith, size) in
      rw (enough, value, put_length-draft method n (length (tlvs as') + 24) txid as')
        (ap ok (
          signed method txid as' (integrity digests key method txid as')
            (digests.length-hmac_sha1 key _)))

-- A message with no attributes is its header alone.
pub message-nil :
    (method : ℕ) (txid : List ℕ)
    → be16 method ++ be16 0 ++ be32 magic_cookie ++ txid ≡ message method txid []
unfolding message header_bytes tlvs
message-nil method txid = sym (append-nil (be16 method ++ be16 0 ++ be32 magic_cookie ++ txid))

-- A complete message is read back whole by the STUN codec.
pub parse-message :
    (method : ℕ) (txid : List ℕ) (as' : List Attr)
    → method < 65536
    → length txid ≡ 12
    → length (tlvs as') < 65536
    → All IsAttr as'
    → (parse_header (message method txid as') txid
        ≡ ok (record { msg_type = method; attrs_len = length (tlvs as'); txid = txid }))
      × (walk_attrs (message method txid as') (length (tlvs as')) ≡ ok as')
unfolding message
parse-message method txid as' hm hx hl ha = (
  parse_header-header_bytes method (length (tlvs as')) txid (tlvs as') hm hl hx (omega arith),
  rw (append-nil (tlvs as')) at
      (walk_attrs-tlvs (header_bytes method (length (tlvs as')) txid) as' [] (twenty) ha),
)
  where
    twenty : length (header_bytes method (length (tlvs as')) txid) ≡ 20
    twenty = length-header_bytes method (length (tlvs as')) txid hx
