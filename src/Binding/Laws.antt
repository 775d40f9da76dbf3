-- ===== src/Binding/Laws.antt =====
-- `parse_binding_response`: it returns on every datagram, reports the first address of a success
-- response to this request, and reads back what a server writes.
use webrtc_doctor.Prelude.{
  ℕ, ◌<◌, ◌≡◌, ◌≢◌, refl, ap, arith, inl, inr, ◌⊎◌, List, [], ◌∷◌, ◌++◌, ok, Returns, >>=-Returns,
  >>=-eq-ok, map_err, map_err-Returns, map_err-eq-ok, length, ◌==◌, ==_iff, Bool-cases, All,
}
use webrtc_doctor.Stun.AttrType
use webrtc_doctor.Stun.Types.{Header, Attr, SocketAddr, IsSocketAddr, IsTxid}
use webrtc_doctor.Stun.Header.{parse_header}
use webrtc_doctor.Stun.Header.Laws.{Describes, parse_header-Returns, parse_header-Describes}
use webrtc_doctor.Stun.Attrs.{walk_attrs}
use webrtc_doctor.Stun.Attrs.Laws.{tlvs, IsAttr, walk_attrs-Returns}
use webrtc_doctor.Stun.Address.{parse_xor_address, build_xor_address, parse_mapped_address}
use webrtc_doctor.Stun.Address.Laws.{
  parse_xor_address-Returns, parse_mapped_address-Returns, parse_xor_address-build_xor_address,
}
use webrtc_doctor.Turn.Message.Laws.{attr, message, message-nil, parse-message}
use webrtc_doctor.Turn.Allocate.Requests.{Carries}
use webrtc_doctor.Binding.{
  binding_request, binding_success, build_binding_request, codec, first_address,
  parse_binding_response,
}

first_address-Returns : (txid : List ℕ) (as' : List Attr) → Returns (first_address txid as')
unfolding first_address
first_address-Returns txid [] = tt
first_address-Returns txid (a ∷ as') =
    elim (Bool-cases (a.attr_type == AttrType.xor_mapped_address)) [
      | inl x ↦ rw x (map_err-Returns codec _ (parse_xor_address-Returns a.value txid))
      | inr other ↦ rw other (elim (Bool-cases (a.attr_type == AttrType.mapped_address)) [
        | inl m ↦ rw m (map_err-Returns codec _ (parse_mapped_address-Returns a.value))
        | inr neither ↦ rw neither (first_address-Returns txid as')
      ])
    ]

-- Every datagram gets an answer: the parser never reads out of bounds.
pub parse_binding_response-Returns : (buf txid : List ℕ) → Returns (parse_binding_response buf txid)
unfolding parse_binding_response
parse_binding_response-Returns buf txid =
    >>=-Returns (map_err codec (parse_header buf txid)) _
      (map_err-Returns codec _ (parse_header-Returns buf txid))
      (λ h e. elim (Bool-cases (h.msg_type == binding_success)) [
        | inr other ↦ rw other tt
        | inl good ↦ rw good (
            let d = parse_header-Describes buf txid h (map_err-eq-ok codec _ e) in
            >>=-Returns (map_err codec (walk_attrs buf h.attrs_len)) _
              (map_err-Returns codec _ (walk_attrs-Returns buf h.attrs_len d.fits))
              (λ as' e'. first_address-Returns txid as'))
      ])

-- An attribute that gives an address, and one that gives none.
abbrev pub Gives : List ℕ → Attr → SocketAddr → Type 0
Gives txid a addr =
    ((a.attr_type ≡ AttrType.xor_mapped_address) × (parse_xor_address a.value txid ≡ ok addr))
    ⊎ ((a.attr_type ≡ AttrType.mapped_address) × (parse_mapped_address a.value ≡ ok addr))

abbrev pub IsOther : Attr → Type 0
IsOther a = (a.attr_type ≢ AttrType.xor_mapped_address) × (a.attr_type ≢ AttrType.mapped_address)

-- `addr` is what the first address attribute of a section gives.
abbrev pub FirstGives : List ℕ → List Attr → SocketAddr → Type 0
FirstGives txid [] addr = ⊥
FirstGives txid (a ∷ as') addr = Gives txid a addr ⊎ (IsOther a × FirstGives txid as' addr)

first_address-FirstGives :
    (txid : List ℕ) (as' : List Attr) (addr : SocketAddr)
    → first_address txid as' ≡ ok addr
    → FirstGives txid as' addr
unfolding first_address
first_address-FirstGives txid [] addr e = cc
first_address-FirstGives txid (a ∷ as') addr e =
    elim (Bool-cases (a.attr_type == AttrType.xor_mapped_address)) [
      | inl x ↦ inl (inl ((==_iff _ _).0 x, map_err-eq-ok codec _ (rw (x, first_address) at e)))
      | inr other ↦ elim (Bool-cases (a.attr_type == AttrType.mapped_address)) [
        | inl m ↦
            inl (inr ((==_iff _ _).0 m, map_err-eq-ok codec _ (rw (other, m, first_address) at e)))
        | inr neither ↦ inr (
          (ground arith, ground arith),
          first_address-FirstGives txid as' addr (rw (other, neither, first_address) at e),
        )
      ]
    ]

-- A reported address: the datagram is a success response to this request, and the address is that of
-- the first address attribute, of either kind.
pub record BackedAddress (buf txid : List ℕ) (addr : SocketAddr) : Type 0 where
  pub header : Header
  pub attrs : List Attr
  pub described : Describes buf txid header
  pub is_success : header.msg_type ≡ binding_success
  pub walked : walk_attrs buf header.attrs_len ≡ ok attrs
  pub gives : FirstGives txid attrs addr

-- A reported address is backed by the datagram: it is a success response to this request, and the
-- address is what its first address attribute, of either kind, decodes to.
pub parse_binding_response-BackedAddress :
    (buf txid : List ℕ) (addr : SocketAddr)
    → parse_binding_response buf txid ≡ ok addr
    → BackedAddress buf txid addr
unfolding parse_binding_response
parse_binding_response-BackedAddress buf txid addr e =
    let (h, eh, e') = >>=-eq-ok (map_err codec (parse_header buf txid)) _ e in
    elim (Bool-cases (h.msg_type == binding_success)) [
      | inr other ↦ cc (rw other at e')
      | inl good ↦
          let (as', ea, eb) =
            >>=-eq-ok (map_err codec (walk_attrs buf h.attrs_len)) _ (rw good at e') in
          record {
            header = h;
            attrs = as';
            described = parse_header-Describes buf txid h (map_err-eq-ok codec _ eh);
            is_success = (==_iff _ _).0 good;
            walked = map_err-eq-ok codec _ ea;
            gives = first_address-FirstGives txid as' addr eb;
          }
    ]

first_address-skip :
    (txid : List ℕ) (front rest : List Attr)
    → All IsOther front
    → first_address txid (front ++ rest) ≡ first_address txid rest
unfolding first_address
first_address-skip txid [] rest h = refl
first_address-skip txid (a ∷ front) rest (o, h) =
    ground (arith, first_address-skip txid front rest h)

first_address-found :
    (txid : List ℕ) (addr : SocketAddr) (back : List Attr)
    → IsTxid txid
    → IsSocketAddr addr
    → first_address txid (attr AttrType.xor_mapped_address (build_xor_address addr txid) ∷ back)
      ≡ ok addr
unfolding first_address
first_address-found txid addr back ht ha =
    ap (map_err codec) (parse_xor_address-build_xor_address addr txid ha ht)

-- The reflexive address that a server writes is the one that the client reports, whatever attributes
-- of other types stand before it and whatever attributes follow, as far as they fit a message.
pub parse_binding_response-written :
    (txid : List ℕ) (addr : SocketAddr) (front back : List Attr)
    → IsTxid txid
    → IsSocketAddr addr
    → All IsOther front
    → All IsAttr (front ++ attr AttrType.xor_mapped_address (build_xor_address addr txid) ∷ back)
    → length (tlvs (front ++ attr AttrType.xor_mapped_address (build_xor_address addr txid) ∷ back))
      < 65536
    → parse_binding_response
        (message binding_success txid
          (front ++ attr AttrType.xor_mapped_address (build_xor_address addr txid) ∷ back))
        txid
      ≡ ok addr
unfolding parse_binding_response
parse_binding_response-written txid addr front back ht ha others fits small =
    let (h, w) = parse-message binding_success txid _ (omega arith) ht.0 small fits in
    rw (h, w, first_address-skip txid front _ others, first_address-found txid addr back ht ha) refl

-- The request is a message with no attributes, and a server reads it back as such.
pub build_binding_request-Carries :
    (txid : List ℕ)
    → length txid ≡ 12
    → (build_binding_request txid ≡ (txid, message binding_request txid []))
      × Carries (message binding_request txid []) binding_request txid []
unfolding build_binding_request tlvs
build_binding_request-Carries txid h = (
  ap (λ m. (txid, m)) (message-nil binding_request txid),
  parse-message binding_request txid [] (omega arith) h (omega arith) tt,
)
