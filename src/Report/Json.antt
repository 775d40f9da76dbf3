-- ===== src/Report/Json.antt =====
-- The values of `serde_json::json!` that the checks attach. A float is the fraction that it rounds.
use webrtc_doctor.Prelude.{ℕ, Bool, List, [], ◌∷◌}
use webrtc_doctor.Prelude.Text.{Text}

mutual
  pub data Json : Type 0 where
    null : Json
    bool : Bool → Json
    num : ℕ → Json
    float : ℕ → ℕ → Json
    str : Text → Json
    arr : Items → Json
    obj : Fields → Json

  pub data Items : Type 0 where
    nil : Items
    cons : Json → Items → Items

  pub data Fields : Type 0 where
    end : Fields
    field : Text → Json → Fields → Fields

-- An array of the values of a list.
abbrev pub items {ℓ} : {A : Type ℓ} → (A → Json) → List A → Items
items f [] = nil
items f (x ∷ xs) = cons (f x) (items f xs)
