-- ===== src/Probe/Timed.antt =====
-- Operations that can fail, and `tokio::time::timeout` around a series of them.
use webrtc_doctor.Prelude.{ℕ, List, ◌≡◌, refl, ap, length}
use mathlib.Core.Path.{subst}
use webrtc_doctor.Prelude.Text.{Text}
use webrtc_doctor.Probe.Platform.{Answer, given, io_failed}

-- `Ok(Ok(a))`, `Ok(Err(e))` with the text of the error, and `Err(Elapsed)`.
pub data Timed {ℓ} (A : Type ℓ) : Type ℓ where
  finished : A → Timed A
  broke : Text → Timed A
  timed_out : Timed A

-- `[u8; n]`
abbrev pub Array : ℕ → Type 0
Array n = (bytes : List ℕ) × (length bytes ≡ n)

-- An async function that gives an `io::Result`; `?` is the bind.
abbrev pub Io : Type 0 → Type 0 → Type 0
Io W A = W → Answer A × W

unfoldable pub io_then : {W A B : Type 0} → Io W A → (A → Io W B) → Io W B
io_then m f w = elim ((m w).0) [ given a ↦ f a ((m w).1) | io_failed e ↦ (io_failed e, (m w).1) ]

-- One that runs under a timeout, which can cut it off wherever it waits.
abbrev pub Task : Type 0 → Type 0 → Type 0
Task W A = W → Timed A × W

infixl 5 ◌>>=◌
unfoldable pub ◌>>=◌ : {W A B : Type 0} → Task W A → (A → Task W B) → Task W B
(m >>= f) w = elim ((m w).0) [
  | finished a ↦ f a ((m w).1)
  | broke e ↦ (broke e, (m w).1)
  | timed_out ↦ (timed_out, (m w).1)
]

-- An operation that never waits.
unfoldable pub at_once : {W A : Type 0} → Io W A → Task W A
at_once m w = (elim ((m w).0) [ given a ↦ finished a | io_failed e ↦ broke e ], (m w).1)

unfoldable pub read : {W A : Type 0} → (W → A × W) → Task W A
read m w = (finished ((m w).0), (m w).1)

unfoldable pub done : {W A : Type 0} → A → Task W A
done a w = (finished a, w)

-- `let _ = m.await`
unfoldable pub ignore_error : {W : Type 0} → Task W (Unit {0}) → Task W (Unit {0})
ignore_error m w = (elim ((m w).0) [ broke e ↦ finished tt | t ↦ t ], (m w).1)

-- After an operation that has finished, the next runs.
pub >>=-finished :
    {W A B : Type 0} (m : Task W A) (f : A → Task W B) {w w' : W} {a : A}
    → m w ≡ (finished a, w')
    → (m >>= f) w ≡ f a w'
unfolding ◌>>=◌
>>=-finished m f e = λ i. elim ((e i).0) [
  | finished a ↦ f a ((e i).1)
  | broke t ↦ (broke t, (e i).1)
  | timed_out ↦ (timed_out, (e i).1)
]

-- `R` holds of every value that the series finishes with.
pub record Yields {W A : Type 0} (R : A → Type 0) (m : Task W A) : Type 0 where
  pub from : (w : W) (a : A) → (m w).0 ≡ finished a → R a

pub bind-Yields :
    {W A B : Type 0} {R : A → Type 0} {S : B → Type 0} {m : Task W A} {f : A → Task W B}
    → Yields R m
    → ((a : A) → R a → Yields S (f a))
    → Yields S (m >>= f)
unfolding ◌>>=◌
bind-Yields {W} {A} {B} {R} {S} {m} {f} h k = record { from = λ w b e. go (m w) (h.from w) b e }
  where
    go :
        (x : Timed A × W)
        → ((a : A) → x.0 ≡ finished a → R a)
        → (b : B)
        → (elim (x.0) as (λ _. Timed B × W) [
          | finished a ↦ f a (x.1)
          | broke t ↦ (broke t, x.1)
          | timed_out ↦ (timed_out, x.1)
        ]).0
          ≡ finished b
        → S b
    go (finished a, w') r b e = (k a (r a refl)).from w' b e
    go (broke t, w') r b e = cc
    go (timed_out, w') r b e = cc

-- An operation yields what it gives in some world.
pub task-Yields : {W A : Type 0} (m : Task W A) → Yields (λ a. (w : W) × ((m w).0 ≡ finished a)) m
task-Yields m = record { from = λ w a e. (w, e) }

pub at_once-Yields :
    {W A : Type 0} (m : Io W A) → Yields (λ a. (w : W) × ((m w).0 ≡ given a)) (at_once m)
unfolding at_once
at_once-Yields {W} {A} m = record { from = λ w a e. (w, go ((m w).0) a e) }
  where
    go :
        (x : Answer A) (a : A)
        → elim x as (λ _. Timed A) [ given b ↦ finished b | io_failed t ↦ broke t ] ≡ finished a
        → x ≡ given a
    go (given b) a e = ap (λ t. elim t [ finished c ↦ given c | _ ↦ given b ]) e
    go (io_failed t) a e = cc

pub read-Yields : {W A : Type 0} (m : W → A × W) → Yields (λ a. (w : W) × ((m w).0 ≡ a)) (read m)
unfolding read
read-Yields m = record { from = λ w a e. (w, ap (λ t. elim t [ finished b ↦ b | _ ↦ (m w).0 ]) e) }

pub done-Yields : {W A : Type 0} {R : A → Type 0} (a : A) → R a → Yields {W = W} R (done a)
unfolding done
done-Yields {R = R} a r = record {
  from = λ w b e. subst R (ap (λ t. elim t [ finished c ↦ c | _ ↦ a ]) e) r;
}
