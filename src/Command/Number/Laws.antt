-- ===== src/Command/Number/Laws.antt =====
-- A printed number is digits, and is read back; what is read fits sixteen bits.
use webrtc_doctor.Prelude.{
  ℕ, suc, zero, ◌+◌, ◌*◌, ◌-◌, ◌/◌, ◌%◌, ◌<◌, ◌≤◌, ◌≡◌, ◌≢◌, refl, arith, false, ◌∙◌, [], ◌∷◌, ok,
  All,
}
use webrtc_doctor.Prelude.Text.{Text, show_nat, digits_of}
use mathlib.Core.List.{cons-ne-nil}
use webrtc_doctor.Command.Split.{has}
use webrtc_doctor.Command.Number.{is_digit, scan, parse_u16}

abbrev pub IsDigit : ℕ → Type 0
IsDigit c = (b'0' ≤ c) × (c ≤ b'9')

scan_last : (n : ℕ) (out : Text) → n < 65536 → scan ((b'0' + n % 10) ∷ out) (n / 10) ≡ scan out n
unfolding scan
scan_last n out h = ground arith

scan-digits_of :
    (fuel n : ℕ) (out : Text) → n < 65536 → n < fuel → scan (digits_of fuel n out) 0 ≡ scan out n
unfolding scan digits_of
scan-digits_of zero n out h k = absurd (omega arith)
scan-digits_of (suc fuel) n out h k =
    grind (arith, scan-digits_of fuel (n / 10) ((b'0' + n % 10) ∷ out), scan_last n out h)

digits_of-IsDigit :
    (fuel n : ℕ) (out : Text) → All IsDigit out → n < fuel → All IsDigit (digits_of fuel n out)
unfolding digits_of
digits_of-IsDigit zero n out h k = h
digits_of-IsDigit (suc fuel) n out h k =
    ground (arith, digits_of-IsDigit fuel (n / 10) ((b'0' + n % 10) ∷ out))

pub show_nat-IsDigit : (n : ℕ) → All IsDigit (show_nat n)
unfolding show_nat
show_nat-IsDigit n = digits_of-IsDigit (suc n) n [] tt (omega arith)

digits_of-ne-nil : (fuel n : ℕ) (out : Text) → out ≢ [] → digits_of fuel n out ≢ []
unfolding digits_of
digits_of-ne-nil zero n out h = h
digits_of-ne-nil (suc fuel) n out h =
    ground (arith, digits_of-ne-nil fuel (n / 10) ((b'0' + n % 10) ∷ out))

show_nat-ne-nil : (n : ℕ) → show_nat n ≢ []
unfolding show_nat digits_of
show_nat-ne-nil n =
    ground (arith, digits_of-ne-nil n (n / 10) ((b'0' + n % 10) ∷ []) (cons-ne-nil _ _))

parse_u16-scan : (c : ℕ) (s : Text) → IsDigit c → parse_u16 (c ∷ s) ≡ scan (c ∷ s) 0
unfolding parse_u16
parse_u16-scan c [] h = refl
parse_u16-scan c (d ∷ s) h = ground arith

pub scan-lt : (s : Text) (n m : ℕ) → n < 65536 → scan s n ≡ ok m → m < 65536
unfolding scan
scan-lt [] n m h e = ground arith
scan-lt (c ∷ s) n m h e = ground (arith, scan-lt s (n * 10 + (c - b'0')) m)

pub parse_u16-lt : (s : Text) (n : ℕ) → parse_u16 s ≡ ok n → n < 65536
unfolding parse_u16
parse_u16-lt [] n e = cc
parse_u16-lt (c ∷ []) n e = scan-lt (c ∷ []) 0 n (omega arith) e
parse_u16-lt (c ∷ d ∷ s) n e =
    ground (arith, scan-lt (d ∷ s) 0 n (omega arith), scan-lt (c ∷ d ∷ s) 0 n (omega arith))

parse_u16-digits :
    (s : Text) (n : ℕ) → All IsDigit s → s ≢ [] → scan s 0 ≡ ok n → parse_u16 s ≡ ok n
parse_u16-digits [] n d ne e = absurd (ne refl)
parse_u16-digits (c ∷ s) n d ne e = parse_u16-scan c s d.0 ∙ e

-- A printed number is read back.
pub parse_u16-show_nat : (n : ℕ) → n < 65536 → parse_u16 (show_nat n) ≡ ok n
unfolding show_nat scan
parse_u16-show_nat n h =
    parse_u16-digits _ n (digits_of-IsDigit (suc n) n [] tt (omega arith)) (show_nat-ne-nil n)
      (scan-digits_of (suc n) n [] h (omega arith))

has-digits : (c : ℕ) (s : Text) → is_digit c ≡ false → All IsDigit s → has c s ≡ false
unfolding has
has-digits c [] h d = refl
has-digits c (x ∷ s) h d = ground (arith, has-digits c s h d.1)

-- No separator stands in a printed number.
pub has-show_nat : (c n : ℕ) → is_digit c ≡ false → has c (show_nat n) ≡ false
has-show_nat c n h = has-digits c _ h (show_nat-IsDigit n)
