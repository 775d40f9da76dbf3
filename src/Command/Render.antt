-- ===== src/Command/Render.antt =====
-- `format_endpoint` of render.rs, which the candidates of `ice` are printed with.
pub mod Candidates
pub mod Pretty
use webrtc_doctor.Prelude.{
  ℕ, ◌<◌, ◌≡◌, ◌≢◌, refl, sym, arith, Bool, true, false, [], ◌∷◌, ◌++◌, none, ok, append_assoc,
  if◌then◌else◌,
}
use mathlib.Core.Path.{subst}
use webrtc_doctor.Prelude.Text.{Text, text, utf8, show_nat}
use webrtc_doctor.Command.Split.{has, strip_prefix}
use webrtc_doctor.Command.Number.Laws.{parse_u16-show_nat, has-show_nat}
use webrtc_doctor.Command.HostPort.{parse_host_port}
use webrtc_doctor.Command.HostPort.Laws.{Spells, in_brackets, plain, parse_host_port_iff}

unfoldable pub format_endpoint : Text → ℕ → Text
format_endpoint addr port =
    if has b':' addr
    then text "[" ++ addr ++ text "]:" ++ show_nat port
    else addr ++ text ":" ++ show_nat port

-- An address without brackets.
abbrev pub IsAddress : Text → Type 0
IsAddress addr = (addr ≢ []) × (has b']' addr ≡ false) × (has b'[' addr ≡ false)

no_bracket :
    (addr rest : Text)
    → addr ≢ []
    → has b'[' addr ≡ false
    → strip_prefix b'[' (addr ++ b':' ∷ rest) ≡ none
unfolding has strip_prefix
no_bracket [] rest ne h = absurd (ne refl)
no_bracket (c ∷ cs) rest ne h = ground arith

format_endpoint-Spells :
    (addr : Text) (port : ℕ) (colons : Bool)
    → has b':' addr ≡ colons
    → IsAddress addr
    → Spells
        (if colons
          then text "[" ++ addr ++ text "]:" ++ show_nat port
          else addr ++ text ":" ++ show_nat port)
        addr
        (show_nat port)
unfolding text utf8
format_endpoint-Spells addr port true e h =
    subst (λ t. Spells t addr (show_nat port))
      (sym (append_assoc (b'[' ∷ addr) (b']' ∷ b':' ∷ []) (show_nat port)))
      (in_brackets addr (show_nat port) h.1)
format_endpoint-Spells addr port false e h =
    subst (λ t. Spells t addr (show_nat port)) (sym (append_assoc addr (b':' ∷ []) (show_nat port)))
      (plain addr (show_nat port) e (has-show_nat b':' port refl)
        (no_bracket addr (show_nat port) h.0 h.2))

-- The endpoint of a candidate is printed in a form that `parse_host_port` reads back, for every
-- nonempty address without brackets and every port of sixteen bits.
pub parse_host_port-format_endpoint :
    (addr : Text) (port : ℕ)
    → IsAddress addr
    → port < 65536
    → parse_host_port (format_endpoint addr port) ≡ ok (addr, port)
unfolding format_endpoint
parse_host_port-format_endpoint addr port h small =
    (parse_host_port_iff (format_endpoint addr port) addr port).1 (
      show_nat port,
      format_endpoint-Spells addr port (has b':' addr) refl h,
      h.0,
      parse_u16-show_nat port small,
    )
