-- ===== src/Prelude/Outcomes.antt =====
-- The result of code that can fail. `panic` is a Rust panic (an index or a range out of bounds) and
-- `stuck` a loop of the model that ran out of fuel; neither is a value that the code returns.
use mathlib.Core.Path.{◌≡◌, refl}
use mathlib.Core.Option.{Option, none, some}
use native.Mathlib.Omega.{arith}

pub data Result {ε ℓ} (E : Type ε) (A : Type ℓ) : Type (ε ⊔ ℓ) where
  ok : A → Result E A
  err : E → Result E A
  panic : Result E A
  stuck : Result E A

infixl 5 ◌>>=◌
abbrev pub ◌>>=◌ {ε ξ υ} :
    {E : Type ε} {X : Type ξ} {Y : Type υ} → Result E X → (X → Result E Y) → Result E Y
ok x >>= next = next x
err failure >>= next = err failure
panic >>= next = panic
stuck >>= next = stuck

-- `?` with a conversion of the error (`#[from]`).
abbrev pub map_err {ε φ ℓ} :
    {E : Type ε} {F : Type φ} {A : Type ℓ} → (E → F) → Result E A → Result F A
map_err f (ok a) = ok a
map_err f (err e) = err (f e)
map_err f panic = panic
map_err f stuck = stuck

-- `Option::ok_or`
abbrev pub ok_or {ε ℓ} : {E : Type ε} {A : Type ℓ} → Option A → E → Result E A
ok_or none e = err e
ok_or (some a) e = ok a

-- The code returns: a value or an error, no panic, and the fuel sufficed.
abbrev pub Returns {ε ℓ} : {E : Type ε} {A : Type ℓ} → Result E A → Type 0
Returns (ok a) = Unit
Returns (err e) = Unit
Returns panic = ⊥
Returns stuck = ⊥

pub >>=-Returns {ε ℓ κ} :
    {E : Type ε} {A : Type ℓ} {B : Type κ} (m : Result E A) (f : A → Result E B)
    → Returns m
    → ((a : A) → m ≡ ok a → Returns (f a))
    → Returns (m >>= f)
>>=-Returns (ok a) f h k = k a refl
>>=-Returns (err e) f h k = tt
>>=-Returns panic f h k = h
>>=-Returns stuck f h k = h

pub map_err-Returns {ε φ ℓ} :
    {E : Type ε} {F : Type φ} {A : Type ℓ} (f : E → F) (m : Result E A)
    → Returns m
    → Returns (map_err f m)
map_err-Returns f (ok a) h = tt
map_err-Returns f (err e) h = tt
map_err-Returns f panic h = h
map_err-Returns f stuck h = h

pub >>=-eq-ok {ε ξ υ} :
    {E : Type ε} {X : Type ξ} {Y : Type υ} (first : Result E X) (next : X → Result E Y) {y : Y}
    → (first >>= next) ≡ ok y
    → (x : X) × (first ≡ ok x) × (next x ≡ ok y)
>>=-eq-ok (ok x) next done = (x, refl, done)
>>=-eq-ok (err failure) next done = cc
>>=-eq-ok panic next done = cc
>>=-eq-ok stuck next done = cc

pub map_err-eq-ok {ε φ ℓ} :
    {E : Type ε} {F : Type φ} {A : Type ℓ} (f : E → F) (m : Result E A) {a : A}
    → map_err f m ≡ ok a
    → m ≡ ok a
map_err-eq-ok f (ok a) h = ground arith
map_err-eq-ok f (err e) h = cc
map_err-eq-ok f panic h = cc
map_err-eq-ok f stuck h = cc

pub ok-injective {ε ℓ} :
    {E : Type ε} {A : Type ℓ} {a b : A} → ◌≡◌ {A = Result E A} (ok a) (ok b) → a ≡ b
ok-injective e = ground arith

pub ok_or-eq-ok {ε ℓ} :
    {E : Type ε} {A : Type ℓ} (o : Option A) (e : E) {a : A} → ok_or o e ≡ ok a → o ≡ some a
ok_or-eq-ok none e h = cc
ok_or-eq-ok (some a) e h = ground arith
