-- ===== src/Turn/Allocate/Written.antt =====
-- `parse_allocate_response` understands the responses that a server writes.
use webrtc_doctor.Prelude.{
  ℕ, ◌+◌, ◌*◌, ◌%◌, ◌^◌, ◌<◌, ◌≡◌, ◌≢◌, ◌∙◌, refl, arith, List, [], ◌∷◌, false, ok, length, ◌==◌,
  All, Bool-cases, inl, inr, ◌++◌, if◌then◌else◌, Option, none, some, Result, err,
}
use webrtc_doctor.Bytes.{be32, u32_at, index}
use webrtc_doctor.Bytes.Laws.{from_be32-be32}
use webrtc_doctor.Stun.AttrType
use webrtc_doctor.Stun.Types.{Attr, SocketAddr, IsSocketAddr, IsTxid}
use webrtc_doctor.Stun.Attrs.Laws.{tlvs, IsAttr, length-tlvs-le-room}
use webrtc_doctor.Stun.Address.{build_xor_address}
use webrtc_doctor.Stun.Address.Laws.{parse_xor_address-build_xor_address, length-build_xor_address}
use webrtc_doctor.Stun.ErrorCode.Laws.{parse_error_code-code}
use webrtc_doctor.Turn.Method.{allocate_success, allocate_error}
use webrtc_doctor.Turn.Message.Laws.{attr, message, parse-message}
use webrtc_doctor.Turn.Allocate.{
  AllocateError, AllocateOutcome, missing_attr, refused_outcome, success, unauthorized, error,
  success_attr, success_attrs, error_attr, error_attrs, granted_outcome, refused_outcome,
  response_outcome, parse_allocate_response,
}

module _ (lossy : List ℕ → List ℕ) where
  -- What a complete message with these attributes is parsed to.
  parse-written :
      (method : ℕ) (txid : List ℕ) (as' : List Attr)
      → method < 65536
      → length txid ≡ 12
      → length (tlvs as') < 65536
      → All IsAttr as'
      → parse_allocate_response lossy (message method txid as') txid
        ≡ response_outcome lossy txid
            (record { msg_type = method; attrs_len = length (tlvs as'); txid = txid })
            as'
  unfolding parse_allocate_response
  parse-written method txid as' hm hx hl ha =
      let (h, w) = parse-message method txid as' hm hx hl ha in rw (h, w) refl

  -- What the loop over an error response keeps: the last REALM as text and the last NONCE.
  abbrev pub last_of {ℓ} : {A : Type ℓ} → ℕ → (List ℕ → A) → List Attr → Option A → Option A
  last_of kind f [] found = found
  last_of kind f (a ∷ as') found =
      if a.attr_type == kind
      then last_of kind f as' (some (f a.value))
      else last_of kind f as' found

  -- No ERROR-CODE among the attributes.
  abbrev pub Uncoded : List Attr → Type 0
  Uncoded = All (λ a. (a.attr_type == AttrType.error_code) ≡ false)

  error_attrs-Uncoded :
      (as' : List Attr) (code : ℕ) (reason : List ℕ) (realm salt : Option (List ℕ))
      → Uncoded as'
      → error_attrs lossy as' (record { code = code; reason = reason; realm = realm; nonce = salt })
        ≡ ok (record {
          code = code;
          reason = reason;
          realm = last_of AttrType.realm lossy as' realm;
          nonce = last_of AttrType.nonce (λ v. v) as' salt;
        })
  unfolding error_attrs error_attr
  error_attrs-Uncoded [] code reason realm salt h = refl
  error_attrs-Uncoded (a ∷ as') code reason realm salt (u, h) =
      elim (Bool-cases (a.attr_type == AttrType.realm)) [
        | inl is_realm ↦
            let not_nonce : (a.attr_type == AttrType.nonce) ≡ false = ground arith in
            rw (u, is_realm, not_nonce)
              (error_attrs-Uncoded as' code reason (some (lossy a.value)) salt h)
        | inr not_realm ↦ elim (Bool-cases (a.attr_type == AttrType.nonce)) [
          | inl is_nonce ↦
              rw (u, not_realm, is_nonce)
                (error_attrs-Uncoded as' code reason realm (some a.value) h)
          | inr not_nonce ↦
              rw (u, not_realm, not_nonce) (error_attrs-Uncoded as' code reason realm salt h)
        ]
      ]

  abbrev pub coded : ℕ → ℕ → List ℕ → Attr
  coded class number reason = attr AttrType.error_code (0 ∷ 0 ∷ class ∷ number ∷ reason)

  error_attrs-coded :
      (before after : List Attr) (class number : ℕ) (reason text : List ℕ)
      (realm salt : Option (List ℕ)) (code : ℕ)
      → Uncoded before
      → Uncoded after
      → class < 8
      → number < 256
      → error_attrs lossy
          (before ++ coded class number reason ∷ after)
          (record { code = code; reason = text; realm = realm; nonce = salt })
        ≡ ok (record {
          code = class * 100 + number;
          reason = lossy reason;
          realm = last_of AttrType.realm lossy (before ++ after) realm;
          nonce = last_of AttrType.nonce (λ v. v) (before ++ after) salt;
        })
  unfolding error_attrs error_attr
  error_attrs-coded [] after class number reason text realm salt code u h hc hn =
      let small : class % 8 ≡ class = omega arith in
      rw ((parse_error_code-code lossy 0 0 class number reason (omega arith) hn).0, small)
        (error_attrs-Uncoded after (class * 100 + number) (lossy reason) realm salt h)
  error_attrs-coded (a ∷ before) after class number reason text realm salt code (u, us) h hc hn =
      elim (Bool-cases (a.attr_type == AttrType.realm)) [
        | inl is_realm ↦
            let not_nonce : (a.attr_type == AttrType.nonce) ≡ false = ground arith in
            rw (u, is_realm, not_nonce)
              (error_attrs-coded before after class number reason text (some (lossy a.value)) salt
                code us h hc hn)
        | inr not_realm ↦ elim (Bool-cases (a.attr_type == AttrType.nonce)) [
          | inl is_nonce ↦
              rw (u, not_realm, is_nonce)
                (error_attrs-coded before after class number reason text realm (some a.value) code
                  us h hc hn)
          | inr not_nonce ↦
              rw (u, not_realm, not_nonce)
                (error_attrs-coded before after class number reason text realm salt code us h hc hn)
        ]
      ]

  -- What the client reports: a code other than 401 with the text of its reason, whatever stands
  -- beside it; 401 with the realm and the nonce, or the first of the two that is missing.
  pub data Reports (code : ℕ) (reason : List ℕ) (realm salt : Option (List ℕ))
      : Result AllocateError AllocateOutcome → Type 0 where
    other : code ≢ 401 → Reports code reason realm salt (ok (error code reason))
    challenged :
        (r n : List ℕ)
        → code ≡ 401
        → realm ≡ some r
        → salt ≡ some n
        → Reports code reason realm salt (ok (unauthorized r n))
    no_realm :
        code ≡ 401
        → realm ≡ none
        → Reports code reason realm salt (err (missing_attr AttrType.realm))
    no_nonce :
        (r : List ℕ)
        → code ≡ 401
        → realm ≡ some r
        → salt ≡ none
        → Reports code reason realm salt (err (missing_attr AttrType.nonce))

  refused_outcome-Reports :
      (code : ℕ) (reason : List ℕ) (realm salt : Option (List ℕ))
      → Reports code reason realm salt (
          refused_outcome lossy
            (record { code = code; reason = reason; realm = realm; nonce = salt }))
  unfolding refused_outcome
  refused_outcome-Reports code reason none salt = elim (Bool-cases (code == 401)) [
    | inr differs ↦ rw differs (other (ground arith))
    | inl same ↦ rw same (no_realm (ground arith) refl)
  ]
  refused_outcome-Reports code reason (some r) none = elim (Bool-cases (code == 401)) [
    | inr differs ↦ rw differs (other (ground arith))
    | inl same ↦ rw same (no_nonce r (ground arith) refl refl)
  ]
  refused_outcome-Reports code reason (some r) (some n) = elim (Bool-cases (code == 401)) [
    | inr differs ↦ rw differs (other (ground arith))
    | inl same ↦ rw same (challenged r n (ground arith) refl refl)
  ]

  -- An error response with one ERROR-CODE, of a class below 8 and a number below 256, that stands
  -- anywhere among other attributes, as far as they fit a message: unless the code is 401, the client
  -- reports it with the text of its reason, also where there is a REALM or a NONCE; on 401 it reports
  -- the text of the last REALM and the last NONCE, and the one that is missing where one is.
  pub parse_allocate_response-refused :
      (txid reason : List ℕ) (class number : ℕ) (before after : List Attr)
      → length txid ≡ 12
      → length (tlvs (before ++ coded class number reason ∷ after)) < 65536
      → All IsAttr (before ++ coded class number reason ∷ after)
      → Uncoded before
      → Uncoded after
      → class < 8
      → number < 256
      → Reports
          (class * 100 + number)
          (lossy reason)
          (last_of AttrType.realm lossy (before ++ after) none)
          (last_of AttrType.nonce (λ v. v) (before ++ after) none)
          (parse_allocate_response lossy
            (message allocate_error txid (before ++ coded class number reason ∷ after))
            txid)
  unfolding response_outcome
  parse_allocate_response-refused txid reason class number before after hx hl ha hb hf hc hn =
      rw
        (
          parse-written allocate_error txid _ (omega arith) hx hl ha,
          error_attrs-coded before after class number reason [] none none 0 hb hf hc hn,
        )
        (refused_outcome-Reports _ _ _ _)

  -- A granted allocation, for every address and every lifetime that fits a u32: the client gets the
  -- address and the lifetime that the server wrote.
  pub parse_allocate_response-granted :
      (txid : List ℕ) (addr : SocketAddr) (seconds : ℕ)
      → IsTxid txid
      → IsSocketAddr addr
      → seconds < 2 ^ 32
      → parse_allocate_response lossy
          (message allocate_success txid (
            attr AttrType.xor_relayed_address (build_xor_address addr txid)
            ∷ attr AttrType.lifetime (be32 seconds)
            ∷ []))
          txid
        ≡ ok (success addr seconds)
  unfolding response_outcome success_attrs success_attr granted_outcome u32_at index
  parse_allocate_response-granted txid addr seconds hx ha hs =
      let small = length-build_xor_address addr txid ha hx in
      parse-written allocate_success txid _ (omega arith) hx.0
        (omega (
          arith,
          small,
          length-tlvs-le-room (
              attr AttrType.xor_relayed_address (build_xor_address addr txid)
              ∷ attr AttrType.lifetime (be32 seconds)
              ∷ []),
        ))
        (omega (arith, small))
      ∙ rw (parse_xor_address-build_xor_address addr txid ha hx, from_be32-be32 seconds hs) refl
