-- ===== src/Turn/Allocate/Total.antt =====
-- The request builders return whatever the texts: the buffer has its header before a length is
-- written.
use webrtc_doctor.Prelude.{
  ℕ, ◌≤◌, ◌≡◌, arith, List, ◌++◌, Returns, >>=-Returns, length, length-append, replicate, le→ltb,
}
use webrtc_doctor.Bytes.{be16, be32, as_u16}
use webrtc_doctor.Stun.AttrType
use webrtc_doctor.Stun.Attrs.{padding}
use webrtc_doctor.Turn.Method.{allocate_request, transport_udp}
use webrtc_doctor.Turn.Message.{Digests, stun_header, append_attr, attach_message_integrity}
use webrtc_doctor.Turn.Allocate.{build_allocate_unauth, build_allocate_authed}
use webrtc_doctor.Turn.Allocate.Requests.{build_allocate_unauth-message}

pub build_allocate_unauth-Returns :
    (txid : List ℕ) → length txid ≡ 12 → Returns (build_allocate_unauth {E = ⊥} txid)
build_allocate_unauth-Returns txid h = rw (build_allocate_unauth-message {E = ⊥} txid h) tt

attach_message_integrity-Returns :
    (digests : Digests) (msg key : List ℕ)
    → 20 ≤ length msg
    → Returns (attach_message_integrity digests {E = ⊥} msg key)
unfolding attach_message_integrity
attach_message_integrity-Returns digests msg key h = rw (le→ltb (length msg) 20 h) tt

length-append_attr :
    (msg : List ℕ) (t : ℕ) (value : List ℕ) → length msg ≤ length (append_attr msg t value)
unfolding append_attr
length-append_attr msg t value = omega (
  arith,
  length-append msg (be16 t),
  length-append (msg ++ be16 t) (be16 (as_u16 (length value))),
  length-append (msg ++ be16 t ++ be16 (as_u16 (length value))) value,
  length-append (msg ++ be16 t ++ be16 (as_u16 (length value)) ++ value)
      (replicate (padding (length value)) 0),
)

length-stun_header :
    (method : ℕ) (txid : List ℕ) → length txid ≡ 12 → length (stun_header method txid) ≡ 20
unfolding stun_header
length-stun_header method txid h = omega (arith, h)

-- The four attributes before the digest, on a header: enough bytes for a length.
pub signed-Returns :
    (digests : Digests) (method : ℕ) (txid key : List ℕ) (t₁ t₂ t₃ t₄ : ℕ) (v₁ v₂ v₃ v₄ : List ℕ)
    → length txid ≡ 12
    → Returns (
        attach_message_integrity digests {E = ⊥}
          (append_attr
            (append_attr (append_attr (append_attr (stun_header method txid) t₁ v₁) t₂ v₂) t₃ v₃)
            t₄
            v₄)
          key)
signed-Returns digests method txid key t₁ t₂ t₃ t₄ v₁ v₂ v₃ v₄ h =
    let m₀ : List ℕ = stun_header method txid in
    let m₁ : List ℕ = append_attr m₀ t₁ v₁ in
    let m₂ : List ℕ = append_attr m₁ t₂ v₂ in
    let m₃ : List ℕ = append_attr m₂ t₃ v₃ in
    attach_message_integrity-Returns digests _ key (
      omega (
        arith,
        length-stun_header method txid h,
        length-append_attr m₀ t₁ v₁,
        length-append_attr m₁ t₂ v₂,
        length-append_attr m₂ t₃ v₃,
        length-append_attr m₃ t₄ v₄,
      ))

pub build_allocate_authed-Returns :
    (digests : Digests) (txid username realm nonce key : List ℕ)
    → length txid ≡ 12
    → Returns (build_allocate_authed {E = ⊥} digests txid username realm nonce key)
unfolding build_allocate_authed
build_allocate_authed-Returns digests txid u r n key h =
    >>=-Returns _ _
      (signed-Returns digests allocate_request txid key AttrType.requested_transport
        AttrType.username AttrType.realm AttrType.nonce (be32 transport_udp) u r n h)
      (λ msg e. tt)
