-- ===== src/Turn/Allocate/Requests.antt =====
-- The bytes of the Allocate requests, and what a server that reads STUN finds in them.
use webrtc_doctor.Prelude.{
  ℕ, ◌+◌, ◌≤◌, ◌<◌, ◌≡◌, refl, ap, arith, List, [], ◌∷◌, ◌++◌, ok, length, length-append,
}
use webrtc_doctor.Bytes.{be32}
use webrtc_doctor.Stun.AttrType
use webrtc_doctor.Stun.Types.{CodecError, Attr}
use webrtc_doctor.Stun.Header.{parse_header}
use webrtc_doctor.Stun.Attrs.{walk_attrs}
use webrtc_doctor.Stun.Attrs.Laws.{tlv, tlvs, length-tlv, length-tlvs-le-room}
use webrtc_doctor.Turn.Method.{allocate_request, transport_udp}
use webrtc_doctor.Turn.Message.{Digests}
use webrtc_doctor.Turn.Message.Laws.{
  attr, message, draft, stun_header-draft, tlvs-append, append_attr-draft, set_attrs_length-draft,
  integrity, attach_message_integrity-draft, parse-message,
}
use webrtc_doctor.Turn.Allocate.{build_allocate_unauth, build_allocate_authed}

abbrev pub transport : Attr
transport = attr AttrType.requested_transport (be32 transport_udp)

-- A datagram that a server accepts as the message with these attributes.
abbrev pub Carries : List ℕ → ℕ → List ℕ → List Attr → Type 0
Carries msg method txid as' =
    (parse_header msg txid
      ≡ ok (record { msg_type = method; attrs_len = length (tlvs as'); txid = txid }))
    × (walk_attrs msg (length (tlvs as')) ≡ ok as')

pub build_allocate_unauth-message {ε} :
    {E : Type ε} (txid : List ℕ)
    → length txid ≡ 12
    → build_allocate_unauth {E = E} txid ≡ ok (txid, message allocate_request txid (transport ∷ []))
unfolding build_allocate_unauth tlvs tlv
build_allocate_unauth-message {E} txid h =
    rw
      (
        stun_header-draft allocate_request txid,
        append_attr-draft allocate_request 0 txid [] AttrType.requested_transport
            (be32 transport_udp) (omega arith),
        set_attrs_length-draft {E = E} allocate_request 0 txid (transport ∷ []) h (omega arith),
      )
      refl

-- The unauthenticated request carries REQUESTED-TRANSPORT = UDP and nothing else.
pub build_allocate_unauth-Carries :
    (txid : List ℕ)
    → length txid ≡ 12
    → (build_allocate_unauth {E = CodecError} txid
        ≡ ok (txid, message allocate_request txid (transport ∷ [])))
      × Carries
          (message allocate_request txid (transport ∷ []))
          allocate_request
          txid
          (transport ∷ [])
unfolding tlvs tlv
build_allocate_unauth-Carries txid h = (
  build_allocate_unauth-message txid h,
  parse-message allocate_request txid (transport ∷ []) (omega arith) h (omega arith) (omega arith),
)

-- The attributes of a request with long-term credentials, before the digest.
abbrev pub credentials : Attr → List ℕ → List ℕ → List ℕ → List Attr
credentials first username realm nonce =
    first
    ∷ attr AttrType.username username
    ∷ attr AttrType.realm realm
    ∷ attr AttrType.nonce nonce
    ∷ []

-- Those attributes with the digest at the end.
abbrev pub authenticated : Digests → List ℕ → ℕ → List ℕ → List Attr → List Attr
authenticated digests key method txid as' =
    as' ++ attr AttrType.message_integrity (integrity digests key method txid as') ∷ []

-- Texts that leave the section within a u16.
abbrev pub FitsRequest : List ℕ → List ℕ → List ℕ → Type 0
FitsRequest username realm nonce = length username + length realm + length nonce ≤ 65400

pub length-credentials :
    (first : Attr) (username realm nonce : List ℕ)
    → length first.value ≤ 20
    → FitsRequest username realm nonce
    → length (tlvs (credentials first username realm nonce)) + 48 < 65536
length-credentials first username realm nonce h fits =
    omega (arith, length-tlvs-le-room (credentials first username realm nonce))

pub length-authenticated :
    (digests : Digests) (key : List ℕ) (method : ℕ) (txid : List ℕ) (as' : List Attr)
    → length (tlvs as') + 48 < 65536
    → length (tlvs (authenticated digests key method txid as')) < 65536
unfolding tlvs
length-authenticated digests key method txid as' h =
    let d = integrity digests key method txid as' in
    let last = attr AttrType.message_integrity d in
    omega (
      arith,
      ap length (tlvs-append as' (last ∷ [])),
      length-append (tlvs as') (tlv last ++ []),
      length-append (tlv last) [],
      length-tlv last,
      digests.length-hmac_sha1 key (draft method (length (tlvs as') + 24) txid as'),
    )

pub build_allocate_authed-message {ε} :
    {E : Type ε} (digests : Digests) (txid username realm nonce key : List ℕ)
    → length txid ≡ 12
    → FitsRequest username realm nonce
    → build_allocate_authed {E = E} digests txid username realm nonce key
      ≡ ok (
        txid,
        message allocate_request txid (
            authenticated digests key allocate_request txid
              (credentials transport username realm nonce)),
      )
unfolding build_allocate_authed
build_allocate_authed-message {E} digests txid u r n key h fits =
    rw
      (
        stun_header-draft allocate_request txid,
        append_attr-draft allocate_request 0 txid [] AttrType.requested_transport
            (be32 transport_udp) (omega arith),
        append_attr-draft allocate_request 0 txid (transport ∷ []) AttrType.username u
            (omega arith),
        append_attr-draft allocate_request 0 txid (transport ∷ attr AttrType.username u ∷ [])
            AttrType.realm r (omega arith),
        append_attr-draft allocate_request 0 txid
            (transport ∷ attr AttrType.username u ∷ attr AttrType.realm r ∷ []) AttrType.nonce n
            (omega arith),
        attach_message_integrity-draft {E = E} allocate_request 0 txid (credentials transport u r n)
            h digests key (omega (arith, length-credentials transport u r n (omega arith) fits)),
      )
      refl

-- For texts that fit a message and an id of twelve bytes, the authenticated request is read back as
-- a message that carries REQUESTED-TRANSPORT, USERNAME, REALM, NONCE and, last, a
-- MESSAGE-INTEGRITY whose digest is the HMAC of the message before it, with the final length.
pub build_allocate_authed-Carries :
    (digests : Digests) (txid username realm nonce key : List ℕ)
    → length txid ≡ 12
    → FitsRequest username realm nonce
    → let as' =
        authenticated digests key allocate_request txid
          (credentials transport username realm nonce) in
      (build_allocate_authed {E = CodecError} digests txid username realm nonce key
        ≡ ok (txid, message allocate_request txid as'))
      × Carries (message allocate_request txid as') allocate_request txid as'
build_allocate_authed-Carries digests txid u r n key h fits = (
  build_allocate_authed-message digests txid u r n key h fits,
  parse-message allocate_request txid _ (omega arith) h
      (length-authenticated digests key allocate_request txid _
        (length-credentials transport u r n (omega arith) fits))
      (omega (
        arith,
        digests.length-hmac_sha1 key (
            draft allocate_request (length (tlvs (credentials transport u r n)) + 24) txid
              (credentials transport u r n)),
      )),
)
