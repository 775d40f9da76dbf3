-- ===== src/Command/Program.antt =====
-- What `main` and `run_full` are made of: code that goes on with a value, has failed with an
-- `anyhow::Error`, or has panicked.
use webrtc_doctor.Prelude.{
  ◌≡◌, ◌≢◌, ◌++◌, refl, Bool, true, false, if◌then◌else◌, Result, ok, err, panic, stuck, Returns,
}
use webrtc_doctor.Probe.Platform.{Answer, given, io_failed}
use webrtc_doctor.Prelude.Text.{Text, text}
use webrtc_doctor.Probe.Timed.{Io, Task, Timed, finished, broke, timed_out}
use webrtc_doctor.Command.Target.{CliError, message}

pub data Progress {ℓ} (W : Type 0) (A : Type ℓ) : Type ℓ where
  reached : A → W → Progress W A
  bailed : CliError → W → Progress W A
  panicked : Progress W A

abbrev pub Program {ℓ} : Type 0 → Type ℓ → Type ℓ
Program W A = W → Progress W A

infixl 5 ◌>>=◌
unfoldable pub ◌>>=◌ {ℓ κ} :
    {W : Type 0} {A : Type ℓ} {B : Type κ} → Program W A → (A → Program W B) → Program W B
(m >>= f) w = elim (m w) [ reached a w' ↦ f a w' | bailed e w' ↦ bailed e w' | panicked ↦ panicked ]

unfoldable pub pure {ℓ} : {W : Type 0} {A : Type ℓ} → A → Program W A
pure a w = reached a w

-- `anyhow::bail!`
unfoldable pub bail {ℓ} : {W : Type 0} {A : Type ℓ} → CliError → Program W A
bail e w = bailed e w

-- `?`
unfoldable pub or_bail {ℓ} : {W : Type 0} {A : Type ℓ} → Result CliError A → Program W A
or_bail (ok a) w = reached a w
or_bail (err e) w = bailed e w
or_bail panic w = panicked
or_bail stuck w = panicked

-- `?` on an `io::Result`
unfoldable pub io : {W : Type 0} {A : Type 0} → Io W A → Program W A
io m w = elim ((m w).0) [
  | given a ↦ reached a ((m w).1)
  | io_failed e ↦ bailed (message e) ((m w).1)
]

-- `serve(..).await.map_err(..)?` on a server: it goes on until the process is killed, unless it fails.
unfoldable pub serving_or_bail : {W : Type 0} {A : Type 0} → Task W A → Program W (Unit {0})
serving_or_bail m w = elim ((m w).0) [
  | broke e ↦ bailed (message (text "serve failed: " ++ e)) ((m w).1)
  | _ ↦ reached tt ((m w).1)
]

abbrev pub Post {ℓ} : {W : Type 0} {A : Type ℓ} → (A → Type 0) → Progress W A → Type 0
Post R (reached a w) = R a
Post R (bailed e w) = Unit
Post R panicked = ⊥

-- `m` does not panic, and `R` holds of the value with which it goes on, if it does.
pub record Safe {ℓ} {W : Type 0} {A : Type ℓ} (R : A → Type 0) (m : Program W A) : Type ℓ where
  pub from : (w : W) → Post R (m w)

module _ {W : Type 0} where
  pub bind-Safe {ℓ κ} :
      {A : Type ℓ} {B : Type κ} {R : A → Type 0} {S : B → Type 0} {m : Program W A}
      {f : A → Program W B}
      → Safe R m
      → ((a : A) → R a → Safe S (f a))
      → Safe S (m >>= f)
  unfolding ◌>>=◌
  bind-Safe {A = A} {B = B} {R} {S} {m} {f} h k = record { from = λ w. go (m w) (h.from w) }
    where
      go :
          (x : Progress W A)
          → Post R x
          → Post S (elim x as (λ _. Progress W B) [
            | reached a w' ↦ f a w'
            | bailed e w' ↦ bailed e w'
            | panicked ↦ panicked
          ])
      go (reached a w') r = (k a r).from w'
      go (bailed e w') r = tt
      go panicked r = r

  pub pure-Safe {ℓ} : {A : Type ℓ} {R : A → Type 0} (a : A) → R a → Safe {W = W} R (pure a)
  unfolding pure
  pure-Safe a r = record { from = λ w. r }

  pub bail-Safe {ℓ} : {A : Type ℓ} {R : A → Type 0} (e : CliError) → Safe {W = W} R (bail e)
  unfolding bail
  bail-Safe e = record { from = λ w. tt }

  pub or_bail-Safe :
      {A : Type 0} (r : Result CliError A) → Returns r → Safe {W = W} (λ a. r ≡ ok a) (or_bail r)
  unfolding or_bail
  or_bail-Safe (ok a) h = record { from = λ w. refl }
  or_bail-Safe (err e) h = record { from = λ w. tt }
  or_bail-Safe panic h = absurd h
  or_bail-Safe stuck h = absurd h

  pub io-Safe : {A : Type 0} (m : Io W A) → Safe (λ a. (w : W) × ((m w).0 ≡ given a)) (io m)
  unfolding io
  io-Safe {A} m = record { from = λ w. go w ((m w).0) refl ((m w).1) }
    where
      go :
          (w : W) (x : Answer A)
          → (m w).0 ≡ x
          → (w' : W)
          → Post
              (λ a. (v : W) × ((m v).0 ≡ given a))
              (elim x as (λ _. Progress W A) [
                | given a ↦ reached a w'
                | io_failed e ↦ bailed (message e) w'
              ])
      go w (given a) e w' = (w, e)
      go w (io_failed t) e w' = tt

  -- Where it goes on, the server has not failed.
  pub serving_or_bail-Safe :
      {A : Type 0} (m : Task W A)
      → Safe (λ u. (w : W) × ((e : Text) → (m w).0 ≢ broke e)) (serving_or_bail m)
  unfolding serving_or_bail
  serving_or_bail-Safe {A} m = record { from = λ w. go w ((m w).0) refl ((m w).1) }
    where
      go :
          (w : W) (x : Timed A)
          → (m w).0 ≡ x
          → (w' : W)
          → Post
              (λ u. (v : W) × ((e : Text) → (m v).0 ≢ broke e))
              (elim x as (λ _. Progress W (Unit {0})) [
                | broke e ↦ bailed (message (text "serve failed: " ++ e)) w'
                | _ ↦ reached tt w'
              ])
      go w (broke t) e w' = tt
      go w (finished a) e w' = (w, λ t h. cc (e, h))
      go w timed_out e w' = (w, λ t h. cc (e, h))

  pub map-Safe {ℓ} :
      {A : Type ℓ} {R S : A → Type 0} {m : Program W A}
      → Safe R m
      → ((a : A) → R a → S a)
      → Safe S m
  map-Safe {A = A} {R} {S} {m} h k = record { from = λ w. go (m w) (h.from w) }
    where
      go : (x : Progress W A) → Post R x → Post S x
      go (reached a w') r = k a r
      go (bailed e w') r = tt
      go panicked r = r

  -- Code under a test, which it may know.
  pub if_known-Safe {ℓ} :
      {A : Type ℓ} {R : A → Type 0} (b : Bool) {m n : Program W A}
      → (b ≡ true → Safe R m)
      → Safe R n
      → Safe R (if b then m else n)
  if_known-Safe true h k = h refl
  if_known-Safe false h k = k

  pub if-Safe {ℓ} :
      {A : Type ℓ} {R : A → Type 0} (b : Bool) {m n : Program W A}
      → Safe R m
      → Safe R n
      → Safe R (if b then m else n)
  if-Safe b h k = if_known-Safe b (λ e. h) k
