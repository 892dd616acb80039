-- ===== src/Users/Claims/Crowds.antt =====
-- Many names against fewer that are taken, for `claimUsername` of packages/api/src/auth/user-store.ts.
use a5e.Base.{
  ℕ, zero, suc, ◌+◌, ◌≤◌, ◌<◌, ◌≡◌, ◌≢◌, refl, String, true, List, [], ◌∷◌, length, ◌==◌, ==_iff,
  string_eq, arith, if◌then◌else◌, Bool-cases, inl, inr,
}
use a5e.Labels.{includes}

-- The list without one of its entries.
remove : String → List String → List String
remove x [] = []
remove x (y ∷ ys) = let rest = remove x ys in if y == x then ys else y ∷ rest

length-remove :
    (x : String) (ys : List String) → includes ys x ≡ true → length ys ≡ suc (length (remove x ys))
unfolding includes remove
length-remove x [] h = cc
length-remove x (y ∷ ys) h = elim (Bool-cases (y == x)) [
  | inl e ↦ rw e refl
  | inr n ↦ rw n (omega (arith, length-remove x ys (rw n at h)))
]

includes-remove :
    (x z : String) (ys : List String)
    → z ≢ x
    → includes ys z ≡ true
    → includes (remove x ys) z ≡ true
unfolding includes remove
includes-remove x z [] n h = h
includes-remove x z (y ∷ ys) n h = ground (arith, ==_iff y x, ==_iff y z, includes-remove x z ys n)

-- As many distinct names as are taken at least.
module _ (name : ℕ → String) where
  abbrev pub AllTaken : ℕ → ℕ → List String → Type 0
  AllTaken zero a taken = Unit
  AllTaken (suc n) a taken = (includes taken (name a) ≡ true) × AllTaken n (suc a) taken

  abbrev pub Apart : ℕ → Type 0
  Apart last = (i j : ℕ) → i ≤ last → j ≤ last → name i ≡ name j → i ≡ j

  AllTaken-remove :
      (n a b last : ℕ) (taken : List String)
      → Apart last
      → b < a
      → a + n ≤ suc last
      → AllTaken n a taken
      → AllTaken n a (remove (name b) taken)
  AllTaken-remove zero a b last taken p lt le h = tt
  AllTaken-remove (suc n) a b last taken p lt le (h, hs) = (
    includes-remove (name b) (name a) taken (λ e. absurd_lt (p a b (omega arith) (omega arith) e))
        h,
    AllTaken-remove n (suc a) b last taken p (omega arith) (omega arith) hs,
  )
    where
      absurd_lt : a ≡ b → ⊥
      absurd_lt e = absurd (omega arith)

  pub crowded :
      (n a last : ℕ) (taken : List String)
      → Apart last
      → a + n ≤ suc last
      → AllTaken n a taken
      → n ≤ length taken
  crowded zero a last taken p le h = omega arith
  crowded (suc n) a last taken p le (h, hs) = omega (
    arith,
    length-remove (name a) taken h,
    crowded n (suc a) last (remove (name a) taken) p (omega arith)
        (AllTaken-remove n (suc a) a last taken p (omega arith) (omega arith) hs),
  )
