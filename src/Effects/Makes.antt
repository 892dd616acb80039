-- ===== src/Effects/Makes.antt =====
-- How many calls of a kind an action makes at most.
use a5e.Base.{
  ℕ, ◌+◌, ◌≤◌, ◌≡◌, refl, sym, ap, ◌∙◌, Bool, true, false, List, [], ◌∷◌, ◌++◌, append-nil,
  append_assoc, tally, tally-append, arith, if◌then◌else◌,
}
use a5e.Base.Result.{Result, ok, err}
use a5e.Effects.{Act, Trace, Server, pure, attempt, continue, ◌>>=◌, call, now}

abbrev pub GrowsBy : {C W : Type 0} → (C → Bool) → ℕ → Trace C W → Trace C W → Type 0
GrowsBy {C = C} p n t t' = (new : List C) × (t'.calls ≡ t.calls ++ new) × (tally p new ≤ n)

pub record Makes {C W A : Type 0} (p : C → Bool) (n : ℕ) (m : Act C W A) : Type 0 where
  pub at : (t : Trace C W) → GrowsBy p n t (m t).1

GrowsBy-nothing : {C W : Type 0} → (p : C → Bool) (n : ℕ) (t : Trace C W) → GrowsBy p n t t
GrowsBy-nothing p n t = ([], sym (append-nil t.calls), omega arith)

GrowsBy-trans :
    {C W : Type 0}
    → (p : C → Bool) (m n : ℕ) (t u v : Trace C W) → GrowsBy p m t u
    → GrowsBy p n u v
    → GrowsBy p (m + n) t v
GrowsBy-trans p m n t u v (xs, e, h) (ys, f, k) = (
  xs ++ ys,
  f ∙ (ap (λ l. l ++ ys) e ∙ append_assoc t.calls xs ys),
  omega (arith, tally-append p xs ys),
)

module _ {C W A : Type 0} {p : C → Bool} where
  pub Makes-pure : (n : ℕ) (a : A) → Makes {C = C} {W = W} p n (pure a)
  unfolding pure
  Makes-pure n a = record { at = λ t. GrowsBy-nothing p n t }

  pub Makes-attempt : (n : ℕ) (m : Act C W A) → Makes p n m → Makes p n (attempt m)
  unfolding attempt
  Makes-attempt n m h = record { at = λ t. h.at t }

  pub Makes-le : (n k : ℕ) (m : Act C W A) → Makes p n m → n ≤ k → Makes p k m
  Makes-le n k m h b = record { at = λ t. let (new, e, c) = h.at t in (new, e, omega arith) }

  pub Makes-if :
      (n : ℕ) (b : Bool) (m k : Act C W A)
      → Makes p n m
      → Makes p n k
      → Makes p n (if b then m else k)
  Makes-if n true m k h l = h
  Makes-if n false m k h l = l

module _ {C W : Type 0} {p : C → Bool} {R : C → Type 0} (srv : Server C R W) where
  pub Makes-call : (n : ℕ) (c : C) → p c ≡ false → Makes p n (call srv c)
  unfolding call
  Makes-call n c e = record { at = λ t. (c ∷ [], refl, rw e (omega arith)) }

  pub Makes-one : (c : C) → Makes p 1 (call srv c)
  unfolding call
  Makes-one c = record { at = λ t. (c ∷ [], refl, ground arith) }

  pub Makes-now : (n : ℕ) → Makes p n (now srv)
  unfolding now
  Makes-now n = record { at = λ t. GrowsBy-nothing p n t }

module _ {C W A B : Type 0} {p : C → Bool} where
  continued :
      (n : ℕ) (r : Result A) (f : A → Act C W B) (t : Trace C W)
      → ((a : A) → Makes p n (f a))
      → GrowsBy p n t (continue r f t).1
  continued n (ok a) f t k = (k a).at t
  continued n (err e) f t k = GrowsBy-nothing p n t

  pub Makes-bind :
      (n k : ℕ) (m : Act C W A) (f : A → Act C W B)
      → Makes p n m
      → ((a : A) → Makes p k (f a))
      → Makes p (n + k) (m >>= f)
  unfolding ◌>>=◌
  Makes-bind n k m f h l = record {
    at = λ t.
        GrowsBy-trans p n k t (m t).1 ((m >>= f) t).1 (h.at t) (continued k (m t).0 f (m t).1 l);
  }
