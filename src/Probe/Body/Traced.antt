-- ===== src/Probe/Body/Traced.antt =====
-- Reasoning about a body from one world: what it goes on with, and in which world.
use webrtc_doctor.Prelude.{◌≡◌, refl, Option, none, some, Result, ok, err, panic, stuck, Returns}
use webrtc_doctor.Report.Status.{CheckResult}
use webrtc_doctor.Probe.Body.{
  pure, crash, exit_with, Exit, returned, next, panicked, Body, ◌>>=◌, ask, or_return, or_else,
}
use webrtc_doctor.Probe.Body.Laws.{Post, Holds, Ends, Ended}

abbrev pub PostAt :
    {C W A : Type 0} → (CheckResult → C → Type 0) → (A → W → Type 0) → Exit C W A → Type 0
PostAt Q R (returned r c w) = Q r c
PostAt Q R (next a w) = R a w
PostAt Q R panicked = ⊥

-- From `w`, `m` does not panic, `Q` holds of what it returns, and `R` of the value and the world with
-- which it goes on.
pub record Traces {C W A : Type 0} (Q : CheckResult → C → Type 0) (R : A → W → Type 0)
    (m : Body C W A) (w : W) : Type 0 where
  pub from : PostAt Q R (m w)

module _ {C W : Type 0} {Q : CheckResult → C → Type 0} where
  pub bind-Traces :
      {A B : Type 0} {R : A → W → Type 0} {S : B → W → Type 0} {m : Body C W A} {f : A → Body C W B}
      {w : W}
      → Traces Q R m w
      → ((a : A) (w' : W) → R a w' → Traces Q S (f a) w')
      → Traces Q S (m >>= f) w
  unfolding ◌>>=◌
  bind-Traces {A} {B} {R} {S} {m} {f} {w} h k = record { from = go (m w) (h.from) }
    where
      go :
          (x : Exit C W A)
          → PostAt Q R x
          → PostAt Q S (elim x as (λ _. Exit C W B) [
            | returned r c w' ↦ returned r c w'
            | next a w' ↦ f a w'
            | panicked ↦ panicked
          ])
      go (returned r c w') q = q
      go (next a w') q = (k a w' q).from
      go panicked q = q

  -- What holds from every world holds from one, which the value and the next world come from.
  pub Holds-Traces :
      {A : Type 0} {R : A → Type 0} {m : Body C W A} {w : W}
      → Holds Q R m
      → Traces Q (λ a w'. R a × (m w ≡ next a w')) m w
  Holds-Traces {A} {R} {m} {w} h = record { from = go (m w) refl (h.from w) }
    where
      go : (x : Exit C W A) → m w ≡ x → Post Q R x → PostAt Q (λ a w'. R a × (m w ≡ next a w')) x
      go (returned r c w') e q = q
      go (next a w') e q = (q, e)
      go panicked e q = q

  pub ask-Traces :
      {A B : Type 0} {S : B → W → Type 0} (g : W → A × W) (f : A → Body C W B) {w : W}
      → Traces Q S (f ((g w).0)) ((g w).1)
      → Traces Q S (ask g >>= f) w
  unfolding ask ◌>>=◌
  ask-Traces g f h = record { from = h.from }

  pub pure-Traces :
      {A : Type 0} {R : A → W → Type 0} {w : W} (a : A) → R a w → Traces Q R (pure a) w
  unfolding pure
  pure-Traces a r = record { from = r }

  pub pure_then-Traces :
      {A B : Type 0} {S : B → W → Type 0} {w : W} (a : A) (f : A → Body C W B)
      → Traces Q S (f a) w
      → Traces Q S (pure a >>= f) w
  unfolding pure ◌>>=◌
  pure_then-Traces a f h = record { from = h.from }

  pub Ends-Traces : {A : Type 0} {m : Body C W A} {w : W} → Ends Q m → Traces Q (λ a w'. ⊥) m w
  Ends-Traces {A} {m} {w} h = record { from = go (m w) (h.from w) }
    where
      go : (x : Exit C W A) → Post Q (λ a. ⊥) x → PostAt Q (λ a w'. ⊥) x
      go (returned r c w') q = q
      go (next a w') q = q
      go panicked q = q

  pub or_return-Traces :
      {A B : Type 0} {S : B → W → Type 0} (r : CheckResult) (c : C) (f : A → Body C W B) {w : W}
      (o : Option A)
      → Q r c
      → ((a : A) → o ≡ some a → Traces Q S (f a) w)
      → Traces Q S (or_return o r c >>= f) w
  unfolding or_return exit_with pure ◌>>=◌
  or_return-Traces r c f none q k = record { from = q }
  or_return-Traces r c f (some a) q k = record { from = (k a refl).from }

  pub or_else-Traces :
      {E A B : Type 0} {S : B → W → Type 0} (g : E → Body C W A) (f : A → Body C W B) {w : W}
      (m : Result E A)
      → Returns m
      → ((e : E) → Ends Q (g e))
      → ((a : A) → m ≡ ok a → Traces Q S (f a) w)
      → Traces Q S (or_else m g >>= f) w
  unfolding or_else pure crash ◌>>=◌
  or_else-Traces g f (ok a) h q k = record { from = (k a refl).from }
  or_else-Traces g f (err e) h q k = bind-Traces (Holds-Traces (q e)) (λ a w' bad. absurd (bad.0))
  or_else-Traces g f panic h q k = absurd h
  or_else-Traces g f stuck h q k = absurd h

pub outcome-Traces :
    {C W A : Type 0} {Q : CheckResult → C → Type 0} (m : Body C W A) (w : W)
    → Traces Q (λ a w'. ⊥) m w
    → Ended Q (m w)
outcome-Traces {C} {W} {A} {Q} m w h = go (m w) (h.from)
  where
    go : (x : Exit C W A) → PostAt Q (λ a w'. ⊥) x → Ended Q x
    go (returned r c w') q = record {
      result = r;
      context = c;
      world = w';
      returns = refl;
      holds = q;
    }
    go (next a w') q = absurd q
    go panicked q = absurd q
