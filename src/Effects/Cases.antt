-- ===== src/Effects/Cases.antt =====
-- The outcomes of the first action of a block: an error, which ends it, or a value.
use a5e.Base.{◌≡◌, refl, subst}
use a5e.Base.Result.{Result, ok, err, Failure}
use a5e.Effects.{Act, Trace, continue, ◌>>=◌}
use a5e.Effects.Emits.{Grows, Emits}

module _ {C W : Type 0} where
  pub bind-cases :
      {A B : Type 0} (m : Act C W A) (f : A → Act C W B) (Q : Result B × Trace C W → Type 0)
      (t : Trace C W)
      → ((e : Failure) (u : Trace C W) → m t ≡ (err e, u) → Q (err e, u))
      → ((a : A) (u : Trace C W) → m t ≡ (ok a, u) → Q (f a u))
      → Q ((m >>= f) t)
  unfolding ◌>>=◌
  bind-cases {A} {B} m f Q t failed passed = of (m t).0 (m t).1 refl
    where
      of : (r : Result A) (u : Trace C W) → m t ≡ (r, u) → Q (continue r f u)
      of (ok a) u e = passed a u e
      of (err e') u e = failed e' u e

  pub grown :
      {A : Type 0} {P : C → Type 0} (m : Act C W A) (t u : Trace C W) (r : Result A)
      → Emits P m
      → m t ≡ (r, u)
      → Grows P t u
  grown {P = P} m t u r h e = subst (λ x. Grows P t x.1) e (h.at t)
