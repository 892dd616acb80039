-- ===== src/Users.antt =====
-- packages/api/src/auth/user-store.ts: the `User` objects of those who log in. `Text` has the operations
-- on strings, `Names` the names of objects and users, `Claims` the choice of a username.
pub mod Text
pub mod Names
pub mod Claims
pub mod Passwords
pub mod Store
pub mod Logins
pub mod Tracking
pub mod Admin
pub mod Rows
pub mod Accounts
pub mod Edits
use a5e.Base.{String, Bool, Option, List}
use a5e.Permissions.{AppRole, Permission}
use a5e.Users.Text.{has_prefix}

pub record UserSpec : Type 0 where
  pub username : Option String
  pub sub : Option String
  pub email : Option String
  pub display_name : Option String
  pub impersonate_groups : List String
  pub role : Option AppRole
  pub permissions : Option (List Permission)

pub record UserCr : Type 0 where
  pub name : String
  pub spec : UserSpec

-- `isLocalAccount`
unfoldable pub is_local_account : UserCr → Bool
unfolding has_prefix
is_local_account cr = has_prefix "local-" cr.name

-- A field of a merge patch: absent, null, or a value.
pub data Change (A : Type 0) : Type 0 where
  keep clear : Change A
  put : A → Change A

pub record UserPatch : Type 0 where
  pub username : Change String
  pub sub : Change String
  pub email : Change String
  pub display_name : Change String
  pub impersonate_groups : Change (List String)
  pub role : Change AppRole
  pub permissions : Change (List Permission)

abbrev pub no_patch : UserPatch
no_patch = record {
  username = keep;
  sub = keep;
  email = keep;
  display_name = keep;
  impersonate_groups = keep;
  role = keep;
  permissions = keep;
}
