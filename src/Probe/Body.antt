-- ===== src/Probe/Body.antt =====
-- The body of `Check::run`. `C` is the context and `W` the world; a body goes on with a value, or it
-- has returned its result and the context, or it has panicked.
pub mod Laws
pub mod Traced
use webrtc_doctor.Prelude.{Option, none, some, Result, ok, err, panic, stuck}
use webrtc_doctor.Prelude.Text.{Text}
use webrtc_doctor.Report.Status.{CheckResult}

pub data Exit {ℓ} (C W : Type 0) (A : Type ℓ) : Type ℓ where
  returned : CheckResult → C → W → Exit C W A
  next : A → W → Exit C W A
  panicked : Exit C W A

abbrev pub Body {ℓ} : Type 0 → Type 0 → Type ℓ → Type ℓ
Body C W A = W → Exit C W A

infixl 5 ◌>>=◌
unfoldable pub ◌>>=◌ {ℓ κ} :
    {C W : Type 0} {A : Type ℓ} {B : Type κ} → Body C W A → (A → Body C W B) → Body C W B
(m >>= f) w = elim (m w) [
  | returned r c w' ↦ returned r c w'
  | next a w' ↦ f a w'
  | panicked ↦ panicked
]

-- An operation of the world.
unfoldable pub ask {ℓ} : {C W : Type 0} {A : Type ℓ} → (W → A × W) → Body C W A
ask f w = next ((f w).0) ((f w).1)

unfoldable pub pure {ℓ} : {C W : Type 0} {A : Type ℓ} → A → Body C W A
pure a w = next a w

-- `return`
unfoldable pub exit_with {ℓ} : {C W : Type 0} {A : Type ℓ} → CheckResult → C → Body C W A
exit_with r c w = returned r c w

unfoldable pub crash {ℓ} : {C W : Type 0} {A : Type ℓ} → Body C W A
crash w = panicked

-- `match o { Some(a) => a, None => return … }`
unfoldable pub or_return {ℓ} : {C W : Type 0} {A : Type ℓ} → Option A → CheckResult → C → Body C W A
unfolding exit_with pure
or_return none r c = exit_with r c
or_return (some a) r c = pure a

-- `match m { Ok(a) => a, Err(e) => … }`
unfoldable pub or_else {ε ℓ} :
    {C W : Type 0} {E : Type ε} {A : Type ℓ} → Result E A → (E → Body C W A) → Body C W A
unfolding pure crash
or_else (ok a) f = pure a
or_else (err e) f = f e
or_else panic f = crash
or_else stuck f = crash

-- What the pipeline sees of a body: its result, or a panic. A body that has not returned has no
-- result either.
abbrev pub outcome {ℓ} : {C W : Type 0} {A : Type ℓ} → Exit C W A → Option (CheckResult × (C × W))
outcome (returned r c w) = some (r, (c, w))
outcome (next a w) = none
outcome panicked = none
