-- ===== src/Command/Number.antt =====
-- `str::parse::<u16>` and its errors.
pub mod Laws
use webrtc_doctor.Prelude.{
  ℕ, ◌+◌, ◌*◌, ◌-◌, Bool, ◌&&◌, List, [], ◌∷◌, ◌++◌, ok, err, Result, leb, ◌==◌, if◌then◌else◌,
}
use webrtc_doctor.Prelude.Text.{Text, text}

pub data ParseIntError : Type 0 where
  empty_number invalid_digit pos_overflow : ParseIntError

-- `Display`
unfoldable pub show_parse_int_error : ParseIntError → Text
show_parse_int_error empty_number = text "cannot parse integer from empty string"
show_parse_int_error invalid_digit = text "invalid digit found in string"
show_parse_int_error pos_overflow = text "number too large to fit in target type"

abbrev pub is_digit : ℕ → Bool
is_digit c = leb b'0' c && leb c b'9'

-- The digits after those of `n`.
unfoldable pub scan : Text → ℕ → Result ParseIntError ℕ
scan [] n = ok n
scan (c ∷ s) n =
    let more = scan s (n * 10 + (c - b'0')) in
    if is_digit c
    then if leb 65536 (n * 10 + (c - b'0')) then err pos_overflow else more
    else err invalid_digit

-- A leading `+` is allowed before digits, a `-` is not.
unfoldable pub parse_u16 : Text → Result ParseIntError ℕ
parse_u16 [] = err empty_number
parse_u16 (c ∷ []) = scan (c ∷ []) 0
parse_u16 (c ∷ d ∷ s) = if c == b'+' then scan (d ∷ s) 0 else scan (c ∷ d ∷ s) 0
