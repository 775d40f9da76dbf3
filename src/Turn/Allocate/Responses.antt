-- ===== src/Turn/Allocate/Responses.antt =====
-- `parse_allocate_response`: it returns on every datagram, and what it reports is backed by the
-- datagram.
use webrtc_doctor.Prelude.{
  ℕ, ◌≡◌, ◌≢◌, refl, arith, inl, inr, ◌⊎◌, List, [], ◌∷◌, none, some, ok, Returns, >>=-Returns,
  map_err, map_err-Returns, >>=-eq-ok, length, leb, ◌==◌, ==_iff, ◌&&◌, Bool-cases,
}
use webrtc_doctor.Bytes.Laws.{u32_at-lt}
use webrtc_doctor.Stun.AttrType
use webrtc_doctor.Stun.Types.{Header, Attr, SocketAddr}
use webrtc_doctor.Stun.Header.Laws.{Describes}
use webrtc_doctor.Stun.Attrs.{walk_attrs}
use webrtc_doctor.Stun.Sections.{sections-Returns, sections-Read}
use mathlib.Core.List.{Memᴰ}
use webrtc_doctor.Stun.Address.{parse_xor_address}
use webrtc_doctor.Stun.Address.Laws.{parse_xor_address-Returns}
use webrtc_doctor.Stun.ErrorCode.{parse_error_code}
use webrtc_doctor.Stun.ErrorCode.Laws.{parse_error_code-Returns}
use webrtc_doctor.Turn.Method.{allocate_success, allocate_error}
use webrtc_doctor.Turn.Allocate.{
  success, AllocateError, codec, Granted, Refused, success_attr, success_attrs, error_attr,
  error_attrs, granted_outcome, refused_outcome, response_outcome, parse_allocate_response,
}

success_attr-Returns : (txid : List ℕ) (a : Attr) (g : Granted) → Returns (success_attr txid a g)
unfolding success_attr
success_attr-Returns txid a g = elim (Bool-cases (a.attr_type == AttrType.xor_relayed_address)) [
  | inl relay ↦ rw relay (
      >>=-Returns (map_err codec (parse_xor_address a.value txid)) _
        (map_err-Returns codec _ (parse_xor_address-Returns a.value txid)) (λ addr e. tt))
  | inr other ↦
      rw other (elim (Bool-cases (a.attr_type == AttrType.lifetime && leb 4 (length a.value))) [
        | inl life ↦
            let (n, pn) = u32_at-lt {E = AllocateError} a.value 0 (ground arith) in rw (life, pn) tt
        | inr unknown ↦ rw unknown tt
      ])
]

success_attrs-Returns :
    (txid : List ℕ) (as' : List Attr) (g : Granted) → Returns (success_attrs txid as' g)
unfolding success_attrs
success_attrs-Returns txid [] g = tt
success_attrs-Returns txid (a ∷ as') g =
    >>=-Returns (success_attr txid a g) _ (success_attr-Returns txid a g)
      (λ next e. success_attrs-Returns txid as' next)

module _ (lossy : List ℕ → List ℕ) where
  error_attr-Returns : (a : Attr) (r : Refused) → Returns (error_attr lossy a r)
  unfolding error_attr
  error_attr-Returns a r = elim (Bool-cases (a.attr_type == AttrType.error_code)) [
    | inl coded ↦ rw coded (
        >>=-Returns (map_err codec (parse_error_code lossy a.value)) _
          (map_err-Returns codec _ (parse_error_code-Returns lossy a.value)) (λ ec e. tt))
    | inr other ↦ rw other (ground arith)
  ]

  error_attrs-Returns : (as' : List Attr) (r : Refused) → Returns (error_attrs lossy as' r)
  unfolding error_attrs
  error_attrs-Returns [] r = tt
  error_attrs-Returns (a ∷ as') r =
      >>=-Returns (error_attr lossy a r) _ (error_attr-Returns a r)
        (λ next e. error_attrs-Returns as' next)

  granted_outcome-Returns : (g : Granted) → Returns (granted_outcome lossy g)
  unfolding granted_outcome
  granted_outcome-Returns g = ground arith

  refused_outcome-Returns : (r : Refused) → Returns (refused_outcome lossy r)
  unfolding refused_outcome
  refused_outcome-Returns r = ground arith

  response_outcome-Returns :
      (txid : List ℕ) (h : Header) (as' : List Attr) → Returns (response_outcome lossy txid h as')
  unfolding response_outcome
  response_outcome-Returns txid h as' = elim (Bool-cases (h.msg_type == allocate_success)) [
    | inl good ↦ rw good (
        >>=-Returns (success_attrs txid as' (record { relayed = none; lifetime = 0 })) _
          (success_attrs-Returns txid as' _) (λ g e. granted_outcome-Returns g))
    | inr other ↦ rw other (elim (Bool-cases (h.msg_type == allocate_error)) [
      | inl bad ↦ rw bad (
          >>=-Returns
            (error_attrs lossy as' (record { code = 0; reason = []; realm = none; nonce = none })) _
            (error_attrs-Returns as' _) (λ r e. refused_outcome-Returns r))
      | inr unknown ↦ rw unknown tt
    ])
  ]

  -- Every datagram gets an answer, an outcome or an error: the parser never reads out of bounds.
  pub parse_allocate_response-Returns :
      (buf txid : List ℕ) → Returns (parse_allocate_response lossy buf txid)
  unfolding parse_allocate_response
  parse_allocate_response-Returns buf txid =
      sections-Returns codec (response_outcome lossy txid) buf txid (response_outcome-Returns txid)

-- The relayed address comes from the variable as it was, or from an attribute of the list.
abbrev Relays : List ℕ → SocketAddr → Attr → Type 0
Relays txid addr a =
    (a.attr_type ≡ AttrType.xor_relayed_address) × (parse_xor_address a.value txid ≡ ok addr)

success_attr-relayed :
    (txid : List ℕ) (addr : SocketAddr) (a : Attr) (g next : Granted)
    → success_attr txid a g ≡ ok next
    → next.relayed ≡ some addr
    → (g.relayed ≡ some addr) ⊎ Relays txid addr a
unfolding success_attr
success_attr-relayed txid addr a g next e r = ground arith

success_attrs-relayed :
    (txid : List ℕ) (addr : SocketAddr) (as' : List Attr) (g g' : Granted)
    → success_attrs txid as' g ≡ ok g'
    → g'.relayed ≡ some addr
    → (g.relayed ≡ some addr) ⊎ ((a : Attr) × Memᴰ a as' × Relays txid addr a)
unfolding success_attrs
success_attrs-relayed txid addr [] g g' e r = inl (ground arith)
success_attrs-relayed txid addr (a ∷ as') g g' e r =
    let (next, step, later) = >>=-eq-ok (success_attr txid a g) _ e in
    elim (success_attrs-relayed txid addr as' next g' later r) [
      | inr (b, m, p) ↦ inr (b, Memᴰ.tail m, p)
      | inl kept ↦ elim (success_attr-relayed txid addr a g next step kept) [
        | inl before ↦ inl before
        | inr here ↦ inr (a, Memᴰ.head refl, here)
      ]
    ]

-- A reported allocation: the datagram is a success response to this request, and the relayed address
-- stands in one of its attributes.
pub record BackedAllocation (buf txid : List ℕ) (addr : SocketAddr) : Type 0 where
  pub header : Header
  pub attrs : List Attr
  pub described : Describes buf txid header
  pub walked : walk_attrs buf header.attrs_len ≡ ok attrs
  pub is_success : header.msg_type ≡ allocate_success
  pub source : Attr
  pub listed : Memᴰ source attrs
  pub relays : Relays txid addr source

module _ (lossy : List ℕ → List ℕ) where
  granted_outcome-success :
      (g : Granted) (addr : SocketAddr) (seconds : ℕ)
      → granted_outcome lossy g ≡ ok (success addr seconds)
      → g.relayed ≡ some addr
  unfolding granted_outcome
  granted_outcome-success g addr seconds e = ground arith

  refused_outcome-ne-success :
      (r : Refused) (addr : SocketAddr) (seconds : ℕ)
      → refused_outcome lossy r ≢ ok (success addr seconds)
  unfolding refused_outcome
  refused_outcome-ne-success r addr seconds e = ground arith

  response_outcome-success :
      (txid : List ℕ) (h : Header) (as' : List Attr) (addr : SocketAddr) (seconds : ℕ)
      → response_outcome lossy txid h as' ≡ ok (success addr seconds)
      → (h.msg_type ≡ allocate_success) × (a : Attr) × Memᴰ a as' × Relays txid addr a
  unfolding response_outcome
  response_outcome-success txid h as' addr seconds e =
      elim (Bool-cases (h.msg_type == allocate_success)) [
        | inl good ↦
            let (g, eg, e') =
              >>=-eq-ok (success_attrs txid as' (record { relayed = none; lifetime = 0 })) _
                (rw (good, response_outcome) at e) in
            elim (success_attrs-relayed txid addr as' _ g eg
              (granted_outcome-success g addr seconds e')) [
                | inl before ↦ cc
                | inr (a, m, p) ↦ ((==_iff _ _).0 good, a, m, p)
              ]
        | inr other ↦ elim (Bool-cases (h.msg_type == allocate_error)) [
          | inl bad ↦
              let (r, er, e') =
                >>=-eq-ok
                  (error_attrs lossy as'
                    (record { code = 0; reason = []; realm = none; nonce = none }))
                  _ (rw (other, bad, response_outcome) at e) in
              absurd (refused_outcome-ne-success r addr seconds e')
          | inr unknown ↦ cc (rw (other, unknown, response_outcome) at e)
        ]
      ]

  -- A reported allocation is backed by the datagram: it is a success response to this request, and the
  -- relayed address is what one of its XOR-RELAYED-ADDRESS attributes decodes to.
  pub parse_allocate_response-BackedAllocation :
      (buf txid : List ℕ) (addr : SocketAddr) (seconds : ℕ)
      → parse_allocate_response lossy buf txid ≡ ok (success addr seconds)
      → BackedAllocation buf txid addr
  unfolding parse_allocate_response
  parse_allocate_response-BackedAllocation buf txid addr seconds e =
      let r = sections-Read codec (response_outcome lossy txid) buf txid e in
      let (good, a, m, p) = response_outcome-success txid r.header r.attrs addr seconds r.result in
      record {
        header = r.header;
        attrs = r.attrs;
        described = r.described;
        walked = r.walked;
        is_success = good;
        source = a;
        listed = m;
        relays = p;
      }
