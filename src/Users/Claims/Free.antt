-- ===== src/Users/Claims/Free.antt =====
-- `claimUsername` of packages/api/src/auth/user-store.ts: its candidates against the names that are taken.
use mathlib.Core.Option.{some-injective}
use text.Mathlib.TextLemmas.{append_cancel_left}
use a5e.Base.{
  ℕ, zero, suc, ◌≤◌, ◌≡◌, ◌≢◌, sym, ap, subst, ◌∙◌, String, ◌<>◌, Bool, true, false, not, Option,
  none, some, List, [], ◌∷◌, length, leb, ◌==◌, ==_iff, string_eq, arith, Bool-cases, Option-cases,
  inl, inr, ◌⊎◌, All,
}
use a5e.Base.Decimal.{show_nat}
use a5e.Labels.{includes}
use a5e.Users.{UserCr}
use a5e.Users.Text.{size}
use a5e.Users.Names.{local_cr_name, claimed}
use a5e.Users.Names.Suffixes.{stem, numbered-local_cr_name}
use a5e.Users.Claims.{taken_names, other_name, is_free, candidate, next_free, claim_username}
use a5e.Users.Claims.Crowds.{AllTaken, Apart, crowded}
use a5e.Users.Claims.Numerals.{show_nat-IsNumeral, size-show_nat, show_nat-injective}

le→leb : (a b : ℕ) → a ≤ b → leb a b ≡ true
le→leb a b h = ground arith

-- Beside the object `except`, no user has a username with the name of this one.
abbrev pub Unclaimed : List UserCr → String → String → Type 0
Unclaimed users except username =
    All
      (λ u.
        (u.name ≡ except)
        ⊎ ((other : String)
            → u.spec.username ≡ some other
            → other ≢ ""
            → local_cr_name other ≢ local_cr_name username))
      users

not-false : (b : Bool) → not b ≡ true → b ≡ false
not-false b h = ground arith

is_free-cons :
    (x : String) (rest : List String) (username : String)
    → is_free (x ∷ rest) username ≡ true
    → (x ≢ local_cr_name username) × (is_free rest username ≡ true)
unfolding is_free
is_free-cons x rest username h = elim (Bool-cases (x == local_cr_name username)) [
  | inl e ↦ let h' : false ≡ true = rw (e, includes) at h in cc
  | inr n ↦ (apart n, rw (n, includes) at h)
]
  where
    apart : (x == local_cr_name username) ≡ false → x ≢ local_cr_name username
    apart n e = ground (arith, ==_iff x (local_cr_name username))

other_free :
    (u : UserCr) (o : Option String) (rest : List String) (username : String)
    → is_free (other_name u (claimed o) rest) username ≡ true
    → ((other : String)
        → o ≡ some other
        → other ≢ ""
        → local_cr_name other ≢ local_cr_name username)
      × (is_free rest username ≡ true)
unfolding other_name claimed
other_free u none rest username h = (λ other e n. cc, h)
other_free u (some String.[]) rest username h = (λ other e n. absurd (n (cc)), h)
other_free u (some (String.◌∷◌ c s)) rest username h =
    let (n, k) = is_free-cons (local_cr_name (String.◌∷◌ c s)) rest username h in
    (λ other e m f. n (ap local_cr_name (some-injective (String.◌∷◌ c s) other e) ∙ f), k)

is_free-Unclaimed :
    (users : List UserCr) (except username : String)
    → is_free (taken_names users except) username ≡ true
    → Unclaimed users except username
unfolding taken_names
is_free-Unclaimed [] except username h = tt
is_free-Unclaimed (u ∷ us) except username h = elim (Bool-cases (u.name == except)) [
  | inl e ↦ (inl ((==_iff u.name except).0 e), is_free-Unclaimed us except username (rw e at h))
  | inr n ↦
      let (clear, rest) =
        other_free u u.spec.username (taken_names us except) username (rw n at h) in
      (inr clear, is_free-Unclaimed us except username rest)
]

length-taken_names :
    (users : List UserCr) (except : String) → length (taken_names users except) ≤ length users
unfolding taken_names
length-taken_names [] except = omega arith
length-taken_names (u ∷ us) except = elim (Bool-cases (u.name == except)) [
  | inl e ↦ rw e (omega (arith, length-taken_names us except))
  | inr n ↦ rw n (
      omega (
        arith,
        other_length u (claimed u.spec.username) (taken_names us except),
        length-taken_names us except,
      ))
]
  where
    other_length :
        (u : UserCr) (o : Option String) (rest : List String)
        → length (other_name u o rest) ≤ suc (length rest)
    other_length u none rest = omega arith
    other_length u (some x) rest = omega arith

not_free :
    (taken : List String) (u : String)
    → is_free taken u ≡ false
    → includes taken (local_cr_name u) ≡ true
unfolding is_free
not_free taken u n = not_true (includes taken (local_cr_name u)) n
  where
    not_true : (b : Bool) → not b ≡ false → b ≡ true
    not_true b h = ground arith

module _ (random : ℕ → String) where
  next_free-is_free :
      (fuel : ℕ) (taken : List String) (desired : String) (attempt : ℕ) (u : String)
      → next_free random fuel taken desired attempt ≡ some u
      → is_free taken u ≡ true
  unfolding next_free
  next_free-is_free zero taken desired attempt u e = cc
  next_free-is_free (suc fuel) taken desired attempt u e =
      elim (Bool-cases (is_free taken (candidate random desired attempt))) [
        | inl f ↦ subst (λ x. is_free taken x ≡ true) (some-injective _ u (rw f at e)) f
        | inr n ↦ next_free-is_free fuel taken desired (suc attempt) u (rw n at e)
      ]

  next_free-AllTaken :
      (fuel : ℕ) (taken : List String) (desired : String) (attempt : ℕ)
      → next_free random fuel taken desired attempt ≡ none
      → AllTaken (λ n. local_cr_name (candidate random desired n)) fuel attempt taken
  unfolding next_free
  next_free-AllTaken zero taken desired attempt e = tt
  next_free-AllTaken (suc fuel) taken desired attempt e =
      elim (Bool-cases (is_free taken (candidate random desired attempt))) [
        | inl f ↦ let e' : some (candidate random desired attempt) ≡ none = rw f at e in cc
        | inr n ↦ (
          not_free taken (candidate random desired attempt) n,
          next_free-AllTaken fuel taken desired (suc attempt) (rw n at e),
        )
      ]

  candidate-numbered :
      (desired : String) (n : ℕ)
      → size desired ≤ 121
      → n ≤ 100
      → local_cr_name (candidate random desired n) ≡ "local-" <> (stem desired <> show_nat n)
  unfolding candidate
  candidate-numbered desired n short h = rw (le→leb n 100 h) (
      numbered-local_cr_name desired (show_nat n) (show_nat-IsNumeral n h) (size-show_nat n h)
        short)

  candidate-Apart :
      (desired : String)
      → size desired ≤ 121
      → Apart (λ n. local_cr_name (candidate random desired n)) 100
  candidate-Apart desired short i j le_i le_j e = show_nat-injective i j le_i le_j (
      append_cancel_left (stem desired) _ _ (
        append_cancel_left "local-" _ _ (
          sym (candidate-numbered desired i short le_i)
          ∙ (e ∙ candidate-numbered desired j short le_j))))

  -- The username that is chosen is free: no other user has one with the same object name.
  pub claim_username-Unclaimed :
      (fuel : ℕ) (users : List UserCr) (desired except username : String)
      → claim_username random fuel users desired except ≡ some username
      → Unclaimed users except username
  unfolding claim_username
  claim_username-Unclaimed fuel users desired except username e =
      is_free-Unclaimed users except username
        (elim (Bool-cases (is_free (taken_names users except) desired)) [
          | inl f ↦
              subst (λ x. is_free (taken_names users except) x ≡ true)
                (some-injective desired username (rw f at e)) f
          | inr n ↦ next_free-is_free fuel (taken_names users except) desired 2 username (rw n at e)
        ])

  claim_username-next_free :
      (fuel : ℕ) (users : List UserCr) (desired except : String)
      → claim_username random fuel users desired except ≡ none
      → next_free random fuel (taken_names users except) desired 2 ≡ none
  unfolding claim_username
  claim_username-next_free fuel users desired except e =
      elim (Bool-cases (is_free (taken_names users except) desired)) [
        | inl f ↦ let e' : some desired ≡ none = rw f at e in cc
        | inr n ↦ rw n at e
      ]

  -- A username of at most 121 characters is settled among at most 98 users by the hundredth attempt.
  pub claim_username-Chooses :
      (users : List UserCr) (desired except : String)
      → size desired ≤ 121
      → length users ≤ 98
      → (username : String) × (claim_username random 99 users desired except ≡ some username)
        × Unclaimed users except username
  claim_username-Chooses users desired except short few =
      elim (Option-cases (claim_username random 99 users desired except)) [
        | inl e ↦
            let many =
              crowded (λ n. local_cr_name (candidate random desired n)) 99 2 100
                (taken_names users except) (candidate-Apart desired short) (omega arith)
                (next_free-AllTaken 99 (taken_names users except) desired 2
                  (claim_username-next_free 99 users desired except e)) in
            absurd (omega (arith, length-taken_names users except))
        | inr (u, e) ↦ (u, e, claim_username-Unclaimed 99 users desired except u e)
      ]
