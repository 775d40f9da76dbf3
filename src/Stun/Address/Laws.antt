-- ===== src/Stun/Address/Laws.antt =====
-- The address attributes: decoding returns on every value, stays within the ranges of the types, and
-- undoes encoding.
use webrtc_doctor.Prelude.{
  ℕ, ◌/◌, ◌%◌, ◌^◌, ◌≤◌, ◌<◌, ◌≡◌, ◌∙◌, refl, arith, inl, inr, List, [], ◌∷◌, ◌++◌, append-nil,
  false, ok, Returns, length, ltb, ◌==◌, le→ltb, Bool-cases, take, drop, All-append, bit_xor,
}
use webrtc_doctor.Prelude.Xor.{bit_xor-lt, bit_xor-bit_xor}
use webrtc_doctor.Bytes.{IsBytes, be16, be32, from_be16, index, u16_at, u32_at, slice, xor_bytes}
use webrtc_doctor.Bytes.Laws.{
  index-lt, u16_at-lt, u32_at-lt, slice-le, slice-middle, from_be16-be16, from_be32-be32,
  be32-IsBytes, length-xor_bytes, xor_bytes-xor_bytes,
}
use webrtc_doctor.Stun.Types.{
  CodecError, magic_cookie, cookie_high, IpAddr, v4, v6, SocketAddr, IsSocketAddr, IsIp, IsTxid,
}
use webrtc_doctor.Stun.Address.{
  mask, build_address, parse_xor_address, build_xor_address, parse_mapped_address,
}

-- The reads that both decoders make on a value of the length that they have tested.
record Reads (value : List ℕ) : Type 0 where
  family_read : (f : ℕ) × (index {E = CodecError} value 1 ≡ ok f)
  port_read : (p : ℕ) × (u16_at {E = CodecError} value 2 ≡ ok p)

reads : (value : List ℕ) → 4 ≤ length value → Reads value
reads value h = record {
  family_read = index-lt value 1 (omega arith);
  port_read = u16_at-lt value 2 (omega arith);
}

address_read :
    (value : List ℕ)
    → ltb (length value) 8 ≡ false
    → (a : ℕ) × (u32_at {E = CodecError} value 4 ≡ ok a)
address_read value h = u32_at-lt value 4 (ground arith)

body_read :
    (value : List ℕ)
    → ltb (length value) 20 ≡ false
    → slice {E = CodecError} value 4 20 ≡ ok (take 16 (drop 4 value))
body_read value h = slice-le value 4 20 (omega arith) (ground arith)

module _ (value : List ℕ) where
  -- No value makes `parse_xor_address` panic.
  pub parse_xor_address-Returns : (txid : List ℕ) → Returns (parse_xor_address value txid)
  unfolding parse_xor_address
  parse_xor_address-Returns txid = elim (Bool-cases (ltb (length value) 4)) [
    | inl few ↦ rw few tt
    | inr enough ↦
        let r = reads value (ground arith) in
        let (f, pf) = r.family_read in
        let (p, pp) = r.port_read in
        rw (enough, pf, pp)
          (elim (Bool-cases (f == 0x01)) [
            | inl is_v4 ↦ rw is_v4 (elim (Bool-cases (ltb (length value) 8)) [
              | inl cut ↦ rw cut tt
              | inr whole ↦ let (a, pa) = address_read value whole in rw (whole, pa) tt
            ])
            | inr not_v4 ↦ rw not_v4 (elim (Bool-cases (f == 0x02)) [
              | inl is_v6 ↦ rw is_v6 (elim (Bool-cases (ltb (length value) 20)) [
                | inl cut ↦ rw cut tt
                | inr whole ↦ rw (whole, body_read value whole) tt
              ])
              | inr other ↦ rw other tt
            ])
          ])
  ]

  -- No value makes `parse_mapped_address` panic.
  pub parse_mapped_address-Returns : Returns (parse_mapped_address value)
  unfolding parse_mapped_address
  parse_mapped_address-Returns = elim (Bool-cases (ltb (length value) 4)) [
    | inl few ↦ rw few tt
    | inr enough ↦
        let r = reads value (ground arith) in
        let (f, pf) = r.family_read in
        let (p, pp) = r.port_read in
        rw (enough, pf, pp)
          (elim (Bool-cases (f == 0x01)) [
            | inl is_v4 ↦ rw is_v4 (elim (Bool-cases (ltb (length value) 8)) [
              | inl cut ↦ rw cut tt
              | inr whole ↦ let (a, pa) = address_read value whole in rw (whole, pa) tt
            ])
            | inr not_v4 ↦ rw not_v4 (elim (Bool-cases (f == 0x02)) [
              | inl is_v6 ↦ rw is_v6 (elim (Bool-cases (ltb (length value) 20)) [
                | inl cut ↦ rw cut tt
                | inr whole ↦ rw (whole, body_read value whole) tt
              ])
              | inr other ↦ rw other tt
            ])
          ])
  ]

mask-IsBytes : (txid : List ℕ) → IsTxid txid → IsBytes (mask txid)
mask-IsBytes txid h =
    All-append (λ b. b < 256) (be32 magic_cookie) txid (be32-IsBytes magic_cookie) h.1

port_unmasked :
    (p : ℕ)
    → p < 65536
    → from_be16 (bit_xor p cookie_high / 256 % 256) (bit_xor p cookie_high % 256)
      ≡ bit_xor p cookie_high
port_unmasked p h =
    from_be16-be16 (bit_xor p cookie_high) (bit_xor-lt 16 p cookie_high h (omega arith))

parse-build_v4 :
    (a port : ℕ) (txid : List ℕ)
    → a < 2 ^ 32
    → port < 2 ^ 16
    → parse_xor_address (build_xor_address (record { ip = v4 a; port = port }) txid) txid
      ≡ ok (record { ip = v4 a; port = port })
unfolding parse_xor_address build_xor_address u16_at u32_at index
parse-build_v4 a port txid ha hp =
    rw
      (
        port_unmasked port hp,
        from_be32-be32 (bit_xor a magic_cookie) (bit_xor-lt 32 a magic_cookie ha (omega arith)),
        bit_xor-bit_xor 16 port cookie_high hp (omega arith),
        bit_xor-bit_xor 32 a magic_cookie ha (omega arith),
      )
      refl

parse-build_v6 :
    (octets : List ℕ) (port : ℕ) (txid : List ℕ)
    → (length octets ≡ 16) × IsBytes octets
    → port < 2 ^ 16
    → IsTxid txid
    → parse_xor_address (build_xor_address (record { ip = v6 octets; port = port }) txid) txid
      ≡ ok (record { ip = v6 octets; port = port })
unfolding parse_xor_address build_xor_address u16_at u32_at index
parse-build_v6 octets port txid ho hp ht =
    let xport = bit_xor port cookie_high in
    let body : List ℕ = xor_bytes octets (mask txid) in
    let front : List ℕ = 0 ∷ 2 ∷ be16 xport in
    let same : length octets ≡ length (mask txid) = omega arith in
    let size : length body ≡ 16 = length-xor_bytes octets (mask txid) same ∙ ho.0 in
    let some_bytes = le→ltb (length (front ++ body)) 4 (omega arith) in
    let enough = le→ltb (length (front ++ body)) 20 (omega arith) in
    let read : slice {E = CodecError} (front ++ body) 4 20 ≡ ok body =
      rw (append-nil body) at
        (slice-middle {E = CodecError} front body [] 4 20 refl (omega arith)) in
    rw
      (
        some_bytes,
        port_unmasked port hp,
        enough,
        read,
        xor_bytes-xor_bytes octets (mask txid) same ho.1 (mask-IsBytes txid ht),
        bit_xor-bit_xor 16 port cookie_high hp (omega arith),
      )
      refl

-- Decoding undoes encoding, for every v4 and v6 address and port and every transaction id.
pub parse_xor_address-build_xor_address :
    (addr : SocketAddr) (txid : List ℕ)
    → IsSocketAddr addr
    → IsTxid txid
    → parse_xor_address (build_xor_address addr txid) txid ≡ ok addr
parse_xor_address-build_xor_address addr txid h ht = go addr.ip addr.port h
  where
    go :
        (ip : IpAddr) (port : ℕ)
        → IsSocketAddr (record { ip = ip; port = port })
        → parse_xor_address (build_xor_address (record { ip = ip; port = port }) txid) txid
          ≡ ok (record { ip = ip; port = port })
    go (v4 a) port h = parse-build_v4 a port txid h.0 h.1
    go (v6 o) port h = parse-build_v6 o port txid h.0 h.1 ht

-- An encoded address takes 8 bytes or 20.
pub length-build_xor_address :
    (addr : SocketAddr) (txid : List ℕ)
    → IsSocketAddr addr
    → IsTxid txid
    → length (build_xor_address addr txid) ≤ 20
unfolding build_xor_address
length-build_xor_address addr txid h ht = go addr.ip h.0
  where
    go :
        (ip : IpAddr)
        → IsIp ip
        → length (0 ∷ build_address ip (be16 (bit_xor addr.port cookie_high)) txid) ≤ 20
    go (v4 a) h = omega arith
    go (v6 o) h = omega (arith, length-xor_bytes o (mask txid) (omega arith))
