-- ===== src/Stun/Sections.antt =====
-- The opening that every response parser shares: `parse_header`, then `walk_attrs` over the length
-- that the header declares, then `body` on both.
use webrtc_doctor.Prelude.{
  ℕ, ◌≡◌, List, Result, ok, Returns, ◌>>=◌, >>=-Returns, >>=-eq-ok, map_err, map_err-Returns,
  map_err-eq-ok,
}
use webrtc_doctor.Stun.Types.{CodecError, Header, Attr}
use webrtc_doctor.Stun.Header.{parse_header}
use webrtc_doctor.Stun.Header.Laws.{Describes, parse_header-Returns, parse_header-Describes}
use webrtc_doctor.Stun.Attrs.{walk_attrs}
use webrtc_doctor.Stun.Attrs.Laws.{walk_attrs-Returns}

module _ {F A : Type 0} (inject : CodecError → F) (body : Header → List Attr → Result F A) where
  abbrev pub sections : List ℕ → List ℕ → Result F A
  sections buf txid = do
    header ← map_err inject (parse_header buf txid)
    attrs ← map_err inject (walk_attrs buf header.attrs_len)
    body header attrs

  -- No datagram makes the opening panic.
  pub sections-Returns :
      (buf txid : List ℕ)
      → ((h : Header) (as' : List Attr) → Returns (body h as'))
      → Returns (sections buf txid)
  sections-Returns buf txid total =
      >>=-Returns (map_err inject (parse_header buf txid)) _
        (map_err-Returns inject _ (parse_header-Returns buf txid))
        (λ h e.
          let d = parse_header-Describes buf txid h (map_err-eq-ok inject _ e) in
          >>=-Returns (map_err inject (walk_attrs buf h.attrs_len)) _
            (map_err-Returns inject _ (walk_attrs-Returns buf h.attrs_len d.fits))
            (λ as' e'. total h as'))

  -- What a successful parse has read.
  pub record Read (buf txid : List ℕ) (a : A) : Type 0 where
    pub header : Header
    pub attrs : List Attr
    pub described : Describes buf txid header
    pub walked : walk_attrs buf header.attrs_len ≡ ok attrs
    pub result : body header attrs ≡ ok a

  pub sections-Read : (buf txid : List ℕ) {a : A} → sections buf txid ≡ ok a → Read buf txid a
  sections-Read buf txid e =
      let (h, eh, e') = >>=-eq-ok (map_err inject (parse_header buf txid)) _ e in
      let (as', ea, eb) = >>=-eq-ok (map_err inject (walk_attrs buf h.attrs_len)) _ e' in
      record {
        header = h;
        attrs = as';
        described = parse_header-Describes buf txid h (map_err-eq-ok inject _ eh);
        walked = map_err-eq-ok inject _ ea;
        result = eb;
      }
