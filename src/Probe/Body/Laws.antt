-- ===== src/Probe/Body/Laws.antt =====
-- Reasoning about bodies: `Holds Q R m` when `m` does not panic, `Q` holds of what it returns, and
-- `R` of the value with which it goes on.
use webrtc_doctor.Prelude.{◌≡◌, refl, Option, none, some, Result, ok, err, panic, stuck, Returns}
use webrtc_doctor.Report.Status.{CheckResult}
use webrtc_doctor.Probe.Body.{
  crash, pure, Exit, returned, next, panicked, Body, ◌>>=◌, ask, exit_with, or_return, or_else,
  outcome,
}

abbrev pub Post : {C W A : Type 0} → (CheckResult → C → Type 0) → (A → Type 0) → Exit C W A → Type 0
Post Q R (returned r c w) = Q r c
Post Q R (next a w) = R a
Post Q R panicked = ⊥

pub record Holds {C W A : Type 0} (Q : CheckResult → C → Type 0) (R : A → Type 0) (m : Body C W A)
    : Type 0 where
  pub from : (w : W) → Post Q R (m w)

-- A body that returns.
abbrev pub Ends : {C W A : Type 0} → (CheckResult → C → Type 0) → Body C W A → Type 0
Ends {A} Q m = Holds Q (λ (a : A). ⊥) m

module _ {C W : Type 0} {Q : CheckResult → C → Type 0} where
  pub bind-Holds :
      {A B : Type 0} {R : A → Type 0} {S : B → Type 0} {m : Body C W A} {f : A → Body C W B}
      → Holds Q R m
      → ((a : A) → R a → Holds Q S (f a))
      → Holds Q S (m >>= f)
  unfolding ◌>>=◌
  bind-Holds {A} {B} {R} {S} {m} {f} h k = record { from = λ w. go (m w) (h.from w) }
    where
      go :
          (x : Exit C W A)
          → Post Q R x
          → Post Q S (elim x [
            | returned r c w' ↦ returned r c w'
            | next a w' ↦ f a w'
            | panicked ↦ panicked
          ])
      go (returned r c w') q = q
      go (next a w') q = (k a q).from w'
      go panicked q = q

  pub ask-Holds :
      {A : Type 0} (f : W → A × W) → Holds {C = C} Q (λ a. (w : W) × ((f w).0 ≡ a)) (ask f)
  unfolding ask
  ask-Holds f = record { from = λ w. (w, refl) }

  pub pure-Holds : {A : Type 0} {R : A → Type 0} (a : A) → R a → Holds {C = C} {W = W} Q R (pure a)
  unfolding pure
  pure-Holds a h = record { from = λ w. h }

  pub map-Holds :
      {A : Type 0} {R S : A → Type 0} {m : Body C W A}
      → Holds Q R m
      → ((a : A) → R a → S a)
      → Holds Q S m
  map-Holds {A} {R} {S} {m} h k = record { from = λ w. go (m w) (h.from w) }
    where
      go : (x : Exit C W A) → Post Q R x → Post Q S x
      go (returned r c w') q = q
      go (next a w') q = k a q
      go panicked q = q

  pub exit-Holds :
      {A : Type 0} {R : A → Type 0} (r : CheckResult) (c : C)
      → Q r c
      → Holds {W = W} Q R (exit_with r c)
  unfolding exit_with
  exit-Holds r c q = record { from = λ w. q }

  pub or_return-Holds :
      {A : Type 0} (o : Option A) (r : CheckResult) (c : C)
      → Q r c
      → Holds {C = C} {W = W} Q (λ a. o ≡ some a) (or_return o r c)
  unfolding or_return exit_with pure
  or_return-Holds none r c q = record { from = λ w. q }
  or_return-Holds (some a) r c q = record { from = λ w. refl }

  -- A body that returns never gets to what follows it.
  pub Ends-Holds : {A : Type 0} {R : A → Type 0} {m : Body C W A} → Ends Q m → Holds Q R m
  Ends-Holds {A} {R} {m} h = record { from = λ w. go (m w) (h.from w) }
    where
      go : (x : Exit C W A) → Post Q (λ a. ⊥) x → Post Q R x
      go (returned r c w') q = q
      go (next a w') q = absurd q
      go panicked q = q

  pub or_else-Holds :
      {E A : Type 0} {m : Result E A} {f : E → Body C W A}
      → Returns m
      → ((e : E) → Ends Q (f e))
      → Holds Q (λ a. m ≡ ok a) (or_else m f)
  unfolding or_else pure crash
  or_else-Holds {m = ok a} h k = record { from = λ w. refl }
  or_else-Holds {m = err e} h k = Ends-Holds (k e)
  or_else-Holds {m = panic} h k = absurd h
  or_else-Holds {m = stuck} h k = absurd h

-- A body that has returned, with what holds of its result and its context.
pub record Ended {C W A : Type 0} (Q : CheckResult → C → Type 0) (x : Exit C W A) : Type 0 where
  pub result : CheckResult
  pub context : C
  pub world : W
  pub returns : outcome x ≡ some (result, (context, world))
  pub holds : Q result context

pub outcome-Ends :
    {C W A : Type 0} {Q : CheckResult → C → Type 0} (m : Body C W A) (w : W)
    → Ends Q m
    → Ended Q (m w)
outcome-Ends {C} {W} {A} {Q} m w h = go (m w) (h.from w)
  where
    go : (x : Exit C W A) → Post Q (λ a. ⊥) x → Ended Q x
    go (returned r c w') q = record {
      result = r;
      context = c;
      world = w';
      returns = refl;
      holds = q;
    }
    go (next a w') q = absurd q
    go panicked q = absurd q
