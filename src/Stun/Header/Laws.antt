-- ===== src/Stun/Header/Laws.antt =====
-- `parse_header`: it returns on every buffer, what it accepts fits the buffer, and it reads back a
-- header that was written.
use webrtc_doctor.Prelude.{
  ℕ, ◌+◌, ◌≤◌, ◌<◌, ◌≡◌, refl, arith, inl, inr, List, ◌++◌, Option, ok, Returns, length,
  length-append, ltb, le→ltb, bytes_eq_self, eq_of_bytes_eq, Bool-cases, take, drop,
}
use webrtc_doctor.Bytes.{be16, be32, index, u16_at, u32_at, slice}
use webrtc_doctor.Bytes.Laws.{u16_at-lt, u32_at-lt, slice-le, slice-middle, from_be16-be16}
use webrtc_doctor.Stun.Types.{CodecError, Header, magic_cookie, IsTxid}
use webrtc_doctor.Stun.Header.{parse_header, new_txid}

-- The reads of `parse_header` on a buffer that has the 20 bytes.
record Reads (buf : List ℕ) : Type 0 where
  type_read : (t : ℕ) × (u16_at {E = CodecError} buf 0 ≡ ok t)
  length_read : (n : ℕ) × (u16_at {E = CodecError} buf 2 ≡ ok n)
  cookie_read : (c : ℕ) × (u32_at {E = CodecError} buf 4 ≡ ok c)
  txid_read : (x : List ℕ) × (slice {E = CodecError} buf 8 20 ≡ ok x)

reads : (buf : List ℕ) → 20 ≤ length buf → Reads buf
reads buf h = record {
  type_read = u16_at-lt buf 0 (omega arith);
  length_read = u16_at-lt buf 2 (omega arith);
  cookie_read = u32_at-lt buf 4 (omega arith);
  txid_read = (take 12 (drop 8 buf), slice-le buf 8 20 (omega arith) h);
}

-- No datagram makes `parse_header` panic.
pub parse_header-Returns : (buf txid : List ℕ) → Returns (parse_header buf txid)
unfolding parse_header
parse_header-Returns buf txid = elim (Bool-cases (ltb (length buf) 20)) [
  | inl few ↦ rw few tt
  | inr enough ↦
      let r = reads buf (ground arith) in
      let (t, pt) = r.type_read in
      let (n, pn) = r.length_read in
      let (c, pc) = r.cookie_read in
      let (x, px) = r.txid_read in rw (enough, pt, pn, pc, px) (ground arith)
]

-- What an accepted header says of the buffer.
pub record Describes (buf txid : List ℕ) (h : Header) : Type 0 where
  pub fits : 20 + h.attrs_len ≤ length buf
  pub echoed : h.txid ≡ txid
  pub type_bytes : u16_at {E = CodecError} buf 0 ≡ ok h.msg_type
  pub length_bytes : u16_at {E = CodecError} buf 2 ≡ ok h.attrs_len
  pub cookie_bytes : u32_at {E = CodecError} buf 4 ≡ ok magic_cookie
  pub txid_bytes : slice {E = CodecError} buf 8 20 ≡ ok txid

pub parse_header-Describes :
    (buf txid : List ℕ) (h : Header) → parse_header buf txid ≡ ok h → Describes buf txid h
unfolding parse_header
parse_header-Describes buf txid h e = elim (Bool-cases (ltb (length buf) 20)) [
  | inl few ↦ cc (rw (few) at e)
  | inr enough ↦
      let r = reads buf (ground arith) in
      let (t, pt) = r.type_read in
      let (n, pn) = r.length_read in
      let (c, pc) = r.cookie_read in
      let (x, px) = r.txid_read in ground (arith, pt, pn, pc, px, eq_of_bytes_eq x txid)
]

-- The 20 bytes that the builders write.
unfoldable pub header_bytes : ℕ → ℕ → List ℕ → List ℕ
header_bytes msg_type attrs_len txid =
    be16 msg_type ++ (be16 attrs_len ++ (be32 magic_cookie ++ txid))

-- A header that was written with a type and a length that fit a u16 and an id of twelve bytes is read
-- back, whatever follows it, as long as the buffer holds the section that it announces.
pub parse_header-header_bytes :
    (msg_type attrs_len : ℕ) (txid body : List ℕ)
    → msg_type < 65536
    → attrs_len < 65536
    → length txid ≡ 12
    → attrs_len ≤ length body
    → parse_header (header_bytes msg_type attrs_len txid ++ body) txid
      ≡ ok (record { msg_type = msg_type; attrs_len = attrs_len; txid = txid })
unfolding parse_header header_bytes u16_at u32_at index
parse_header-header_bytes t n txid body ht hn hx hb =
    let enough =
      le→ltb (length (header_bytes t n txid ++ body)) 20 (omega (arith, length-append txid body)) in
    let fits =
      le→ltb (length (header_bytes t n txid ++ body)) (20 + n)
        (omega (arith, length-append txid body)) in
    let middle =
      slice-middle {E = CodecError} (be16 t ++ (be16 n ++ be32 magic_cookie)) txid body 8 20
        (omega arith) (omega arith) in
    rw (enough, from_be16-be16 t ht, from_be16-be16 n hn, middle, bytes_eq_self txid, fits) refl

-- A transaction id is twelve bytes.
pub new_txid-IsTxid : (nanos : Option ℕ) (stack_addr : ℕ) → IsTxid (new_txid nanos stack_addr)
unfolding new_txid
new_txid-IsTxid nanos stack_addr = omega arith
