-- ===== src/Users/Admin.antt =====
-- packages/api/src/auth/user-store.ts: what an administrator does with users.
use a5e.Base.{
  String, ◌<>◌, Bool, true, false, ◌&&◌, Option, none, some, List, [], map, some_of, ◌==◌,
  string_eq, option_eq, if◌then◌else◌,
}
use a5e.Base.Result.{thrown}
use a5e.Labels.{or_default, includes}
use a5e.Permissions.{AppRole, Permission, no_role}
use a5e.Sessions.{drop_text}
use a5e.Users.{UserCr, UserSpec, UserPatch, Change, keep, clear, put, no_patch, is_local_account}
use a5e.Users.Text.{has_prefix}
use a5e.Users.Names.{local_cr_name, oidc_cr_name, claimed}
use a5e.Users.Passwords.{set_password_hash, delete_password_hash, list_usernames_with_password}
use a5e.Users.Store.{get_user_cr, delete_user_cr, delete_tracker_from, or_clear}
use a5e.Api.{
  Server, Act, call, throw, pure, ◌>>=◌, ◌>>◌, list_users as list_user_crs, create_user, patch_user,
}

pub record CreateAccountInput : Type 0 where
  pub username : String
  pub password : Option String
  pub email : Option String
  pub display_name : Option String
  pub impersonate_groups : List String
  pub role : AppRole
  pub permissions : Option (List Permission)

pub record AppUser : Type 0 where
  pub id : String
  pub username : Option String
  pub has_local_account : Bool
  pub sub : Option String
  pub email : Option String
  pub display_name : Option String
  pub impersonate_groups : List String
  pub role : Option AppRole
  pub has_password : Bool
  pub permissions : List Permission

pub record UserUpdate : Type 0 where
  pub username : Option String
  pub email : Option String
  pub display_name : Option String
  pub impersonate_groups : Option (List String)
  pub role : Option AppRole
  pub password : Option String
  pub permissions : Option (List Permission)

-- `appUserId`: what is missing is written `undefined`.
unfoldable pub app_user_id : UserCr → String
app_user_id cr =
    if is_local_account cr
    then "local:" <> or_default "undefined" cr.spec.username
    else "oidc:" <> or_default "undefined" cr.spec.sub

abbrev pub account : CreateAccountInput → Option String → UserSpec
account input sub = record {
  username = some input.username;
  sub = sub;
  email = input.email;
  display_name = input.display_name;
  impersonate_groups = input.impersonate_groups;
  role = some input.role;
  permissions = some (or_default [] input.permissions);
}

unfoldable pub already_exists : String → String
already_exists username = "local account \"" <> (username <> "\" already exists")

-- A field of a patch: absent where the update has none.
abbrev pub given : {A : Type 0} → Option A → Change A
given none = keep
given (some a) = put a

-- The same with `|| null`.
unfoldable pub given_or_null : Option String → Change String
unfolding claimed
given_or_null none = keep
given_or_null (some s) = or_clear (claimed (some s))

is_kept : {A : Type 0} → Change A → Bool
is_kept keep = true
is_kept clear = false
is_kept (put a) = false

-- `Object.keys(specPatch).length > 0`, negated.
unfoldable pub is_empty_patch : UserPatch → Bool
unfolding is_kept
is_empty_patch p =
    is_kept p.email
    && (is_kept p.display_name
        && (is_kept p.impersonate_groups && (is_kept p.role && is_kept p.permissions)))

abbrev pub account_patch : UserUpdate → UserPatch
account_patch u = record no_patch {
  email = given_or_null u.email;
  display_name = given_or_null u.display_name;
  impersonate_groups = given u.impersonate_groups;
  role = given u.role;
  permissions = given u.permissions;
}

abbrev pub role_patch : UserUpdate → UserPatch
role_patch u = record no_patch { role = given u.role; permissions = given u.permissions }

-- `a ?? b`
abbrev pub coalesce : {A : Type 0} → Option A → Option A → Option A
coalesce none b = b
coalesce (some a) b = some a

abbrev spec_field : {A : Type 0} → (UserSpec → Option A) → Option UserCr → Option A
spec_field f none = none
spec_field f (some cr) = f cr.spec

abbrev pub promotion : String → UserUpdate → Option UserCr → CreateAccountInput
promotion username u existing = record {
  username = username;
  password = u.password;
  email = coalesce u.email (spec_field (λ s. s.email) existing);
  display_name = coalesce u.display_name (spec_field (λ s. s.display_name) existing);
  impersonate_groups = or_default [] u.impersonate_groups;
  role = or_default no_role (coalesce u.role (spec_field (λ s. s.role) existing));
  permissions = coalesce u.permissions (spec_field (λ s. s.permissions) existing);
}

module _ {W : Type 0} (srv : Server W) where
  unfoldable pub set_password : String → Option String → Act W Unit
  set_password username password = elim (claimed password) [
    | none ↦ pure tt
    | some p ↦ set_password_hash srv username p
  ]

  unfoldable pub create_local_account : CreateAccountInput → Act W Unit
  unfolding already_exists
  create_local_account input = do
    existing ← get_user_cr srv (local_cr_name input.username)
    elim existing [
      | some _ ↦ throw (thrown (already_exists input.username))
      | none ↦ (do
        call srv (create_user (local_cr_name input.username) (account input none))
        set_password input.username input.password)
    ]

  abbrev pub is_linked : String → UserCr → Bool
  is_linked sub u = is_local_account u && u.spec.sub == some sub

  unfoldable pub link_new : CreateAccountInput → String → List UserCr → Act W Unit
  link_new input sub users =
      if some_of (is_linked sub) users
      then throw (thrown "this SSO identity is already linked to a local account")
      else (do
        call srv (create_user (local_cr_name input.username) (account input (some sub)))
        set_password input.username input.password
        delete_tracker_from srv users sub)

  -- `createLinkedLocalAccount`
  unfoldable pub create_linked_local_account : CreateAccountInput → String → Act W Unit
  unfolding already_exists
  create_linked_local_account input sub = do
    existing ← get_user_cr srv (local_cr_name input.username)
    elim existing [
      | some _ ↦ throw (thrown (already_exists input.username))
      | none ↦ (do users ← call srv list_user_crs; link_new input sub users)
    ]

  has_password_in : List String → UserCr → Bool
  has_password_in names cr = elim (claimed cr.spec.username) [
    | none ↦ false
    | some username ↦ is_local_account cr && includes names username
  ]

  app_user : List String → UserCr → AppUser
  app_user names cr = record {
    id = app_user_id cr;
    username = cr.spec.username;
    has_local_account = is_local_account cr;
    sub = cr.spec.sub;
    email = cr.spec.email;
    display_name = cr.spec.display_name;
    impersonate_groups = cr.spec.impersonate_groups;
    role = cr.spec.role;
    has_password = has_password_in names cr;
    permissions = or_default [] cr.spec.permissions;
  }

  -- `listUsers`; the two reads of `Promise.all` run in their order.
  unfoldable pub list_users : Act W (List AppUser)
  unfolding app_user has_password_in
  list_users = do
    crs ← call srv list_user_crs
    names ← list_usernames_with_password srv
    pure (map (app_user names) crs)

  unfoldable pub patch_unless_empty : String → UserPatch → Act W Unit
  patch_unless_empty name patch =
      if is_empty_patch patch then pure tt else call srv (patch_user name patch)

  unfoldable pub update_local : String → UserUpdate → Act W Unit
  update_local username u = do
    patch_unless_empty (local_cr_name username) (account_patch u)
    set_password username u.password

  unfoldable pub update_oidc : String → UserUpdate → Act W Unit
  update_oidc sub u = elim (claimed u.username) [
    | none ↦ patch_unless_empty (oidc_cr_name sub) (role_patch u)
    | some username ↦ (do
      existing ← get_user_cr srv (oidc_cr_name sub)
      create_linked_local_account (promotion username u existing) sub)
  ]

  unrecognized : String → Act W Unit
  unrecognized id = throw (thrown ("unrecognized user id \"" <> (id <> "\"")))

  unfoldable pub update_user : String → UserUpdate → Act W Unit
  unfolding unrecognized has_prefix
  update_user id u =
      if has_prefix "local:" id
      then update_local (drop_text 6 id) u
      else if has_prefix "oidc:" id
      then update_oidc (drop_text 5 id) u
      else unrecognized id

  unfoldable pub delete_local : String → Act W Unit
  delete_local username = do
    delete_user_cr srv (local_cr_name username)
    delete_password_hash srv username

  unfoldable pub delete_user : String → Act W Unit
  unfolding unrecognized has_prefix
  delete_user id =
      if has_prefix "local:" id
      then delete_local (drop_text 6 id)
      else if has_prefix "oidc:" id
      then delete_user_cr srv (oidc_cr_name (drop_text 5 id))
      else unrecognized id
