-- ===== src/Effects/Ensures.antt =====
-- Postconditions of actions: what holds of a result, whatever the server answers.
use a5e.Base.{◌≡◌, refl, Bool, true, false, if◌then◌else◌}
use a5e.Base.Result.{Result, ok, err, Failure}
use a5e.Effects.{Act, Trace, pure, throw, attempt, continue, ◌>>=◌}

module _ {ℓ} {A : Type 0} (P : A → Type ℓ) where
  abbrev pub OkIs : Result A → Type ℓ
  OkIs (ok a) = P a
  OkIs (err e) = Unit

-- If the action returns, its result satisfies `P`.
pub record Ensures {ℓ} {C W A : Type 0} (P : A → Type ℓ) (m : Act C W A) : Type ℓ where
  pub at : (t : Trace C W) → OkIs P (m t).0

module _ {ℓ} {C W A : Type 0} {P : A → Type ℓ} where
  pub Ensures-pure : (a : A) → P a → Ensures {C = C} {W = W} P (pure a)
  unfolding pure
  Ensures-pure a h = record { at = λ t. h }

  pub Ensures-throw : (e : Failure) → Ensures {C = C} {W = W} P (throw e)
  unfolding throw
  Ensures-throw e = record { at = λ t. tt }

  pub Ensures-any : (m : Act C W A) → ((a : A) → P a) → Ensures P m
  Ensures-any m h = record { at = λ t. of (m t).0 }
    where
      of : (r : Result A) → OkIs P r
      of (ok a) = h a
      of (err e) = tt

  pub Ensures-if :
      (b : Bool) (m n : Act C W A)
      → (b ≡ true → Ensures P m)
      → (b ≡ false → Ensures P n)
      → Ensures P (if b then m else n)
  Ensures-if true m n h k = h refl
  Ensures-if false m n h k = k refl

module _ {ℓ κ} {C W A B : Type 0} {Q : A → Type κ} {P : B → Type ℓ} where
  continues :
      (r : Result A) (f : A → Act C W B) (t : Trace C W)
      → OkIs Q r
      → ((a : A) → Q a → Ensures P (f a))
      → OkIs P (continue r f t).0
  continues (ok a) f t h k = (k a h).at t
  continues (err e) f t h k = tt

  pub Ensures-bind :
      (m : Act C W A) (f : A → Act C W B)
      → Ensures Q m
      → ((a : A) → Q a → Ensures P (f a))
      → Ensures P (m >>= f)
  unfolding ◌>>=◌
  Ensures-bind m f h k = record { at = λ t. continues (m t).0 f (m t).1 (h.at t) k }

module _ {ℓ} {C W A B : Type 0} {P : B → Type ℓ} where
  -- Nothing is known of the first result.
  pub Ensures-then :
      (m : Act C W A) (f : A → Act C W B) → ((a : A) → Ensures P (f a)) → Ensures P (m >>= f)
  unfolding ◌>>=◌
  Ensures-then m f k = record { at = λ t. of (m t).0 (m t).1 }
    where
      of : (r : Result A) (t : Trace C W) → OkIs P (continue r f t).0
      of (ok a) t = (k a).at t
      of (err e) t = tt

module _ {ℓ} {C W A : Type 0} {P : A → Type ℓ} where
  pub Ensures-attempt : (m : Act C W A) → Ensures P m → Ensures (OkIs P) (attempt m)
  unfolding attempt
  Ensures-attempt m h = record { at = λ t. h.at t }

module _ {ℓ κ} {A : Type 0} {Q : A → Type κ} {P : A → Type ℓ} where
  weakened : (r : Result A) → OkIs Q r → ((a : A) → Q a → P a) → OkIs P r
  weakened (ok a) h k = k a h
  weakened (err e) h k = tt

  pub Ensures-weaken :
      {C W : Type 0} → (m : Act C W A) → Ensures Q m → ((a : A) → Q a → P a) → Ensures P m
  Ensures-weaken m h k = record { at = λ t. weakened (m t).0 (h.at t) k }
