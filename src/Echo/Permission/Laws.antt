-- ===== src/Echo/Permission/Laws.antt =====
-- The CreatePermission request that the check writes, and the responses that it understands.
use webrtc_doctor.Prelude.{
  ℕ, ◌+◌, ◌*◌, ◌%◌, ◌<◌, ◌≡◌, refl, arith, inl, inr, List, [], ◌∷◌, ok, Returns, >>=-Returns,
  map_err, map_err-Returns, map_err-eq-ok, length, ◌==◌, Bool-cases, All, ◌++◌, false,
}
use webrtc_doctor.Stun.AttrType
use webrtc_doctor.Stun.Types.{CodecError, Attr, SocketAddr, IsSocketAddr, IsTxid}
use webrtc_doctor.Stun.Header.{parse_header}
use webrtc_doctor.Stun.Header.Laws.{parse_header-Returns, parse_header-Describes}
use webrtc_doctor.Stun.Attrs.{walk_attrs}
use webrtc_doctor.Stun.Attrs.Laws.{tlvs, IsAttr, walk_attrs-Returns}
use webrtc_doctor.Stun.Address.{build_xor_address}
use webrtc_doctor.Stun.Address.Laws.{length-build_xor_address}
use webrtc_doctor.Stun.ErrorCode.Laws.{parse_error_code-Returns, parse_error_code-code}
use webrtc_doctor.Turn.Method.{
  create_permission_request, create_permission_success, create_permission_error,
}
use webrtc_doctor.Turn.Message.{Digests}
use webrtc_doctor.Turn.Message.Laws.{
  attr, message, draft, stun_header-draft, append_attr-draft, attach_message_integrity-draft,
  parse-message,
}
use webrtc_doctor.Turn.Allocate.Requests.{
  Carries, credentials, authenticated, FitsRequest, length-credentials, length-authenticated,
}
use webrtc_doctor.Turn.Allocate.Total.{signed-Returns}
use webrtc_doctor.Echo.Permission.{
  build_create_permission, codec, success, error, first_error_code,
  parse_create_permission_response,
}

abbrev pub peer_address : SocketAddr → List ℕ → Attr
peer_address peer txid = attr AttrType.xor_peer_address (build_xor_address peer txid)

build_create_permission-message {ε} :
    {E : Type ε} (digests : Digests) (txid username realm nonce key : List ℕ) (peer : SocketAddr)
    → IsTxid txid
    → IsSocketAddr peer
    → FitsRequest username realm nonce
    → build_create_permission {E = E} digests txid username realm nonce key peer
      ≡ ok (
        txid,
        message create_permission_request txid (
            authenticated digests key create_permission_request txid
              (credentials (peer_address peer txid) username realm nonce)),
      )
unfolding build_create_permission
build_create_permission-message {E} digests txid u r n key peer hx hp fits =
    let small = length-build_xor_address peer txid hp hx in
    let first : Attr = peer_address peer txid in
    rw
      (
        stun_header-draft create_permission_request txid,
        append_attr-draft create_permission_request 0 txid [] AttrType.xor_peer_address
            (build_xor_address peer txid) (omega (arith, small)),
        append_attr-draft create_permission_request 0 txid (first ∷ []) AttrType.username u
            (omega arith),
        append_attr-draft create_permission_request 0 txid (first ∷ attr AttrType.username u ∷ [])
            AttrType.realm r (omega arith),
        append_attr-draft create_permission_request 0 txid
            (first ∷ attr AttrType.username u ∷ attr AttrType.realm r ∷ []) AttrType.nonce n
            (omega arith),
        attach_message_integrity-draft {E = E} create_permission_request 0 txid
            (credentials first u r n) hx.0 digests key
            (omega (arith, length-credentials first u r n (omega (arith, small)) fits)),
      )
      refl

-- For texts that fit a message, the request carries the peer's address, USERNAME, REALM, NONCE and,
-- last, a MESSAGE-INTEGRITY whose digest is the HMAC of the message before it, with the final length.
pub build_create_permission-Carries :
    (digests : Digests) (txid username realm nonce key : List ℕ) (peer : SocketAddr)
    → IsTxid txid
    → IsSocketAddr peer
    → FitsRequest username realm nonce
    → let as' =
        authenticated digests key create_permission_request txid
          (credentials (peer_address peer txid) username realm nonce) in
      (build_create_permission {E = CodecError} digests txid username realm nonce key peer
        ≡ ok (txid, message create_permission_request txid as'))
      × Carries (message create_permission_request txid as') create_permission_request txid as'
build_create_permission-Carries digests txid u r n key peer hx hp fits =
    let small = length-build_xor_address peer txid hp hx in
    let first : Attr = peer_address peer txid in
    (
      build_create_permission-message digests txid u r n key peer hx hp fits,
      parse-message create_permission_request txid _ (omega arith) hx.0
          (length-authenticated digests key create_permission_request txid _
            (length-credentials first u r n (omega (arith, small)) fits))
          (omega (
            arith,
            small,
            digests.length-hmac_sha1 key (
                draft create_permission_request (length (tlvs (credentials first u r n)) + 24) txid
                  (credentials first u r n)),
          )),
    )

-- The builder returns whatever the texts.
pub build_create_permission-Returns :
    (digests : Digests) (txid username realm nonce key : List ℕ) (peer : SocketAddr)
    → length txid ≡ 12
    → Returns (build_create_permission {E = ⊥} digests txid username realm nonce key peer)
unfolding build_create_permission
build_create_permission-Returns digests txid u r n key peer h =
    >>=-Returns _ _
      (signed-Returns digests create_permission_request txid key AttrType.xor_peer_address
        AttrType.username AttrType.realm AttrType.nonce (build_xor_address peer txid) u r n h)
      (λ msg e. tt)

module _ (lossy : List ℕ → List ℕ) where
  first_error_code-Returns : (as' : List Attr) → Returns (first_error_code lossy as')
  unfolding first_error_code
  first_error_code-Returns [] = tt
  first_error_code-Returns (a ∷ as') = elim (Bool-cases (a.attr_type == AttrType.error_code)) [
    | inl coded ↦ rw coded (
        >>=-Returns (map_err codec _) _
          (map_err-Returns codec _ (parse_error_code-Returns lossy a.value)) (λ ec e. tt))
    | inr other ↦ rw other (first_error_code-Returns as')
  ]

  -- Every datagram gets an answer, an outcome or an error: the parser never reads out of bounds.
  pub parse_create_permission_response-Returns :
      (buf txid : List ℕ) → Returns (parse_create_permission_response lossy buf txid)
  unfolding parse_create_permission_response
  parse_create_permission_response-Returns buf txid =
      >>=-Returns (map_err codec (parse_header buf txid)) _
        (map_err-Returns codec _ (parse_header-Returns buf txid))
        (λ h e. elim (Bool-cases (h.msg_type == create_permission_success)) [
          | inl good ↦ rw good tt
          | inr other ↦ rw other (elim (Bool-cases (h.msg_type == create_permission_error)) [
            | inr unknown ↦ rw unknown tt
            | inl bad ↦ rw bad (
                let d = parse_header-Describes buf txid h (map_err-eq-ok codec _ e) in
                >>=-Returns (map_err codec (walk_attrs buf h.attrs_len)) _
                  (map_err-Returns codec _ (walk_attrs-Returns buf h.attrs_len d.fits))
                  (λ as' e'. first_error_code-Returns as'))
          ])
        ])

  -- The first ERROR-CODE counts, whatever stands before and after it.
  first_error_code-coded :
      (before after : List Attr) (class number : ℕ) (reason : List ℕ)
      → All (λ a. (a.attr_type == AttrType.error_code) ≡ false) before
      → class < 8
      → number < 256
      → first_error_code lossy
          (before ++ attr AttrType.error_code (0 ∷ 0 ∷ class ∷ number ∷ reason) ∷ after)
        ≡ ok (error (class * 100 + number) (lossy reason))
  unfolding first_error_code
  first_error_code-coded [] after class number reason h hc hn =
      let small : class % 8 ≡ class = omega arith in
      rw ((parse_error_code-code lossy 0 0 class number reason (omega arith) hn).0, small) refl
  first_error_code-coded (a ∷ before) after class number reason (u, h) hc hn =
      rw u (first_error_code-coded before after class number reason h hc hn)

  -- The two answers of a server, as far as they fit a message: a success response, whatever it
  -- carries, and an error response with any attributes around its first ERROR-CODE, whose code, of a
  -- class below 8 and a number below 256, and reason the client reports.
  pub parse_create_permission_response-written :
      (txid reason : List ℕ) (class number : ℕ) (as' before after : List Attr)
      → let refusal =
          before ++ attr AttrType.error_code (0 ∷ 0 ∷ class ∷ number ∷ reason) ∷ after in
        length txid ≡ 12
        → class < 8
        → number < 256
        → length (tlvs as') < 65536
        → All IsAttr as'
        → length (tlvs refusal) < 65536
        → All IsAttr refusal
        → All (λ a. (a.attr_type == AttrType.error_code) ≡ false) before
        → (parse_create_permission_response lossy (message create_permission_success txid as') txid
            ≡ ok success)
          × (parse_create_permission_response lossy
                (message create_permission_error txid refusal)
                txid
              ≡ ok (error (class * 100 + number) (lossy reason)))
  unfolding parse_create_permission_response
  parse_create_permission_response-written txid reason class number as' before after hx hc hn small
        fits room valid first =
      let (h, w) = parse-message create_permission_success txid as' (omega arith) hx small fits in
      let (h', w') = parse-message create_permission_error txid _ (omega arith) hx room valid in
      (rw h refl, rw (h', w') (first_error_code-coded before after class number reason first hc hn))
