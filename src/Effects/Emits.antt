-- ===== src/Effects/Emits.antt =====
-- The calls that an action adds to a trace, and a predicate of them.
use a5e.Base.{
  ◌≡◌, refl, sym, ap, ◌∙◌, Bool, true, false, Option, none, some, List, [], ◌∷◌, ◌++◌, All,
  All-append, append-nil, append_assoc, if◌then◌else◌,
}
use a5e.Base.Result.{Result, ok, err, Failure}
use a5e.Effects.{Act, Trace, Server, pure, throw, try_catch, attempt, continue, ◌>>=◌, call, now}
use a5e.Effects.Ensures.{OkIs, Ensures}

-- From one trace to a later one, with calls that satisfy `P`.
abbrev pub Grows {ℓ} : {C W : Type 0} → (C → Type ℓ) → Trace C W → Trace C W → Type ℓ
Grows {C = C} P t t' = (new : List C) × (t'.calls ≡ t.calls ++ new) × All P new

pub record Emits {ℓ} {C W A : Type 0} (P : C → Type ℓ) (m : Act C W A) : Type ℓ where
  pub at : (t : Trace C W) → Grows P t (m t).1

module _ {ℓ} {C W : Type 0} {P : C → Type ℓ} where
  pub Grows-nothing : (t t' : Trace C W) → t'.calls ≡ t.calls → Grows P t t'
  Grows-nothing t t' e = ([], e ∙ sym (append-nil t.calls), tt)

  pub Grows-trans : (t u v : Trace C W) → Grows P t u → Grows P u v → Grows P t v
  Grows-trans t u v (xs, e, h) (ys, f, k) =
      (xs ++ ys, f ∙ (ap (λ l. l ++ ys) e ∙ append_assoc t.calls xs ys), All-append P xs ys h k)

module _ {ℓ} {C W A : Type 0} {P : C → Type ℓ} where
  pub Emits-pure : (a : A) → Emits {C = C} {W = W} P (pure a)
  unfolding pure
  Emits-pure a = record { at = λ t. Grows-nothing t t refl }

  pub Emits-throw : (e : Failure) → Emits {C = C} {W = W} {A = A} P (throw e)
  unfolding throw
  Emits-throw e = record { at = λ t. Grows-nothing t t refl }

  pub Emits-attempt : (m : Act C W A) → Emits P m → Emits P (attempt m)
  unfolding attempt
  Emits-attempt m h = record { at = λ t. h.at t }

  pub Emits-if :
      (b : Bool) (m n : Act C W A)
      → (b ≡ true → Emits P m)
      → (b ≡ false → Emits P n)
      → Emits P (if b then m else n)
  Emits-if true m n h k = h refl
  Emits-if false m n h k = k refl

  pub Emits-option {κ} :
      {X : Type κ} (o : Option X) (m : Act C W A) (f : X → Act C W A)
      → Emits P m
      → ((x : X) → o ≡ some x → Emits P (f x))
      → Emits P (elim o as (λ _. Act C W A) [ none ↦ m | some x ↦ f x ])
  Emits-option none m f h k = h
  Emits-option (some x) m f h k = k x refl

  caught :
      (r : Result A) (handler : Failure → Act C W A) (t : Trace C W)
      → ((e : Failure) → Emits P (handler e))
      → Grows P t
          (elim r as (λ _. Result A × Trace C W) [ ok a ↦ (ok a, t) | err e ↦ handler e t ]).1
  caught (ok a) handler t h = Grows-nothing t t refl
  caught (err e) handler t h = (h e).at t

  pub Emits-try_catch :
      (m : Act C W A) (handler : Failure → Act C W A)
      → Emits P m
      → ((e : Failure) → Emits P (handler e))
      → Emits P (try_catch m handler)
  unfolding try_catch
  Emits-try_catch m handler h k = record {
    at = λ t.
        Grows-trans t (m t).1 (try_catch m handler t).1 (h.at t) (caught (m t).0 handler (m t).1 k);
  }

module _ {ℓ} {C W : Type 0} {P : C → Type ℓ} {R : C → Type 0} (srv : Server C R W) where
  pub Emits-call : (c : C) → P c → Emits P (call srv c)
  unfolding call
  Emits-call c h = record { at = λ t. (c ∷ [], refl, (h, tt)) }

  pub Emits-now : Emits P (now srv)
  unfolding now
  Emits-now = record { at = λ t. Grows-nothing t t refl }

module _ {ℓ κ} {C W A B : Type 0} {Q : A → Type κ} {P : C → Type ℓ} where
  continued :
      (r : Result A) (f : A → Act C W B) (t : Trace C W)
      → OkIs Q r
      → ((a : A) → Q a → Emits P (f a))
      → Grows P t (continue r f t).1
  continued (ok a) f t h k = (k a h).at t
  continued (err e) f t h k = Grows-nothing t t refl

  -- The rest of a block may use what the first action ensures.
  pub Emits-bind_ensured :
      (m : Act C W A) (f : A → Act C W B)
      → Emits P m
      → Ensures Q m
      → ((a : A) → Q a → Emits P (f a))
      → Emits P (m >>= f)
  unfolding ◌>>=◌
  Emits-bind_ensured m f h q k = record {
    at = λ t.
        Grows-trans t (m t).1 ((m >>= f) t).1 (h.at t) (continued (m t).0 f (m t).1 (q.at t) k);
  }

module _ {ℓ} {C W A B : Type 0} {P : C → Type ℓ} where
  pub Emits-bind :
      (m : Act C W A) (f : A → Act C W B)
      → Emits P m
      → ((a : A) → Emits P (f a))
      → Emits P (m >>= f)
  unfolding ◌>>=◌
  Emits-bind m f h k = record {
    at = λ t. Grows-trans t (m t).1 ((m >>= f) t).1 (h.at t) (of (m t).0 (m t).1);
  }
    where
      of : (r : Result A) (t : Trace C W) → Grows P t (continue r f t).1
      of (ok a) t = (k a).at t
      of (err e) t = Grows-nothing t t refl

pub ruleset emits_rules = (
  Emits-pure, Emits-throw, Emits-attempt, Emits-if, Emits-try_catch, Emits-call, Emits-now,
  Emits-bind,
)
