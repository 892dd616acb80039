-- ===== src/Base/Result.antt =====
-- Code that may throw: the value, or the error with its message and, where the API server made it,
-- its HTTP code.
use a5e.Base.{String, ℕ, Option, none, ◌≡◌, refl, ap}

pub record Failure : Type 0 where
  pub code : Option ℕ
  pub message : String

-- `new Error(message)`
abbrev pub thrown : String → Failure
thrown message = record { code = none; message = message }

pub data Result {ℓ} (A : Type ℓ) : Type ℓ where
  err : (failure : Failure) → Result A
  ok : (value : A) → Result A

-- What follows a call that may throw: it is skipped where the call throws.
infixl 5 ◌>>=◌
abbrev pub ◌>>=◌ {ℓ κ} :
    {A : Type ℓ} → {B : Type κ} → (r : Result A) → (next : A → Result B) → Result B
err failure >>= next = err failure
ok value >>= next = next value

pub >>=-eq-ok {ℓ κ} :
    {A : Type ℓ} {B : Type κ} (r : Result A) (next : A → Result B) {b : B}
    → (r >>= next) ≡ ok b
    → (a : A) × (r ≡ ok a) × (next a ≡ ok b)
>>=-eq-ok (ok value) next h = (value, refl, h)
>>=-eq-ok (err failure) next h = cc

abbrev value_or {ℓ} : {A : Type ℓ} → A → Result A → A
value_or fallback (err failure) = fallback
value_or fallback (ok value) = value

pub ok-injective {ℓ} : {A : Type ℓ} → (a b : A) → ok a ≡ ok b → a ≡ b
ok-injective a b e = ap (value_or a) e
