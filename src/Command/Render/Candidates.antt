-- ===== src/Command/Render/Candidates.antt =====
-- The rows that `print_candidates` of render.rs makes of the detail of `ice.gather`, without the
-- colours and the padding.
use webrtc_doctor.Prelude.{ℕ, ◌%◌, List, [], ◌∷◌, ◌++◌, Option, none, some, bytes_eq, if◌then◌else◌}
use webrtc_doctor.Prelude.Text.{Text, text}
use webrtc_doctor.Report.Json.{Json, num, str, arr, obj, Items, nil, cons, Fields, end, field}
use webrtc_doctor.Checks.IceGather.{Candidate, kind_text}
use webrtc_doctor.Probe.Platform.{Platform}
use webrtc_doctor.Command.Render.{format_endpoint}

-- `Value::get` with a key
field_at : Text → Fields → Option Json
field_at key end = none
field_at key (field k v rest) =
    let more = field_at key rest in if bytes_eq k key then some v else more

json_get : Text → Json → Option Json
unfolding field_at
json_get key (obj fields) = field_at key fields
json_get key _ = none

-- `as_str`, `as_array`, `as_u64`
abbrev as_str : Json → Option Text
as_str (str t) = some t
as_str _ = none

abbrev as_array : Json → Option Items
as_array (arr i) = some i
as_array _ = none

abbrev as_u64 : Json → Option ℕ
as_u64 (num n) = some n
as_u64 _ = none

abbrev and_then {ℓ κ} : {A : Type ℓ} {B : Type κ} → Option A → (A → Option B) → Option B
and_then none f = none
and_then (some a) f = f a

abbrev unwrap_or {ℓ} : {A : Type ℓ} → Option A → A → A
unwrap_or none d = d
unwrap_or (some a) d = a

-- The kind, the endpoint and where it comes from.
abbrev pub Row : Type 0
Row = Text × Text × Text

abbrev suffix : Option Text → Option Text → Text
suffix (some interface) via = text "(" ++ interface ++ text ")"
suffix none (some via) = text "via " ++ via
suffix none none = []

-- The closure of `filter_map`.
rendered_row : Json → Option Row
rendered_row c = and_then (and_then (json_get (text "kind") c) as_str) λ kind.
    and_then (and_then (json_get (text "address") c) as_str) λ addr.
      and_then (json_get (text "port") c) λ port. some (
        kind,
        format_endpoint addr (unwrap_or (as_u64 port) 0 % 65536),
        suffix (and_then (json_get (text "interface") c) as_str)
            (and_then (json_get (text "via") c) as_str),
      )

abbrev push {ℓ} : {A : Type ℓ} → Option A → List A → List A
push none rows = rows
push (some row) rows = row ∷ rows

rendered : Items → List Row
rendered nil = []
rendered (cons c rest) = push (rendered_row c) (rendered rest)

-- The rows for the detail of a result.
pub candidate_rows : Option Json → List Row
candidate_rows none = []
candidate_rows (some d) = elim (and_then (json_get (text "candidates") d) as_array) [
  | none ↦ []
  | some c ↦ rendered c
]

-- The row of a candidate.
abbrev pub row_of : Candidate → Row
row_of c = (kind_text c.kind, format_endpoint c.address (c.port % 65536), suffix c.interface c.via)
