-- ===== src/Prelude/Text.antt =====
-- Rust texts as the bytes of their UTF-8, and the decimal form of a number.
use Prim.Native.Nat.{ℕ, zero, suc, ◌+◌, ◌/◌, ◌%◌}
use Prim.Native.Char.{code}
use Prim.Native.String.{String}
use mathlib.Core.List.{List, [], ◌∷◌, ◌++◌}
use webrtc_doctor.Prelude.Tests.{ltb, if◌then◌else◌}

abbrev pub Text : Type 0
Text = List ℕ

-- The bytes of one code point.
unfoldable pub utf8 : ℕ → List ℕ
utf8 c =
    if ltb c 0x80
    then c ∷ []
    else if ltb c 0x800
    then (0xC0 + c / 64) ∷ (0x80 + c % 64) ∷ []
    else if ltb c 0x10000
    then (0xE0 + c / 4096) ∷ (0x80 + c / 64 % 64) ∷ (0x80 + c % 64) ∷ []
    else (0xF0 + c / 262144) ∷ (0x80 + c / 4096 % 64) ∷ (0x80 + c / 64 % 64) ∷ (0x80 + c % 64) ∷ []

-- A text literal. `String` has its own `[]` and `∷`.
unfoldable pub text : String → Text
unfolding utf8
text String.[] = []
text (String.◌∷◌ c s) = utf8 (code c) ++ text s

-- The digits of `n`, lowest last; `n` has at most `fuel` of them.
unfoldable pub digits_of : ℕ → ℕ → Text → Text
digits_of zero n out = out
digits_of (suc fuel) n out =
    let more = digits_of fuel (n / 10) ((b'0' + n % 10) ∷ out) in
    if ltb n 10 then (b'0' + n) ∷ out else more

-- `Display` of an unsigned number. A number has no more digits than its value plus one.
unfoldable pub show_nat : ℕ → Text
unfolding digits_of
show_nat n = digits_of (suc n) n []
