-- ===== src/Users/Claims.antt =====
-- packages/api/src/auth/user-store.ts, `claimUsername`: the attempts at a username. The
-- attempts are made on fuel, and `none` means that none of them was free. The suffixes after the
-- hundredth attempt are `randomUUID().slice(0, 8)`, a parameter.
pub mod Crowds
pub mod Numerals
pub mod Free
pub mod Long
use a5e.Base.{
  ℕ, zero, suc, String, ◌<>◌, Bool, true, false, not, Option, none, some, List, [], ◌∷◌, leb, ◌==◌,
  string_eq, if◌then◌else◌,
}
use a5e.Base.Decimal.{show_nat}
use a5e.Labels.{includes}
use a5e.Users.{UserCr}
use a5e.Users.Names.{local_cr_name, claimed}

other_name : UserCr → Option String → List String → List String
other_name u none rest = rest
other_name u (some username) rest = local_cr_name username ∷ rest

-- The names that the users but one have taken.
unfoldable pub taken_names : List UserCr → String → List String
unfolding other_name claimed
taken_names [] except = []
taken_names (u ∷ us) except =
    let rest = taken_names us except in
    if u.name == except then rest else other_name u (claimed u.spec.username) rest

-- `isFree`
unfoldable pub is_free : List String → String → Bool
unfolding includes
is_free taken candidate = not (includes taken (local_cr_name candidate))

module _ (random : ℕ → String) where
  unfoldable pub candidate : String → ℕ → String
  unfolding show_nat
  candidate desired attempt =
      if leb attempt 100
      then desired <> ("-" <> show_nat attempt)
      else desired <> ("-" <> random attempt)

  unfoldable pub next_free : ℕ → List String → String → ℕ → Option String
  unfolding is_free candidate
  next_free zero taken desired attempt = none
  next_free (suc fuel) taken desired attempt =
      let rest = next_free fuel taken desired (suc attempt) in
      if is_free taken (candidate desired attempt) then some (candidate desired attempt) else rest

  -- `claimUsername`, given the list of users.
  unfoldable pub claim_username : ℕ → List UserCr → String → String → Option String
  unfolding next_free taken_names
  claim_username fuel users desired except =
      if is_free (taken_names users except) desired
      then some desired
      else next_free fuel (taken_names users except) desired 2
