-- ===== src/Settings.antt =====
-- What the routes of the settings read and answer, in packages/api/src/modules/users-settings.ts,
-- permissions-settings.ts and app-settings.ts. The name in a path comes decoded, and zod's reading of
-- permissions is part of the request.
pub mod Routes
pub mod Admins
use a5e.Base.{
  ℕ, String, ◌<>◌, Bool, true, false, not, ◌&&◌, ◌||◌, Option, none, some, List, [], ◌∷◌, ◌==◌,
  string_eq, if◌then◌else◌,
}
use a5e.Base.Result.{Result, ok, err}
use a5e.Labels.{or_default}
use a5e.Permissions.{AppRole, no_role, user, admin, Permission, Group}
use a5e.Sessions.{Session, Stores}
use a5e.Access.{
  Authorized, refused, unauthorized, granted, authorize, resolve_effective_permissions,
}
use a5e.Users.Text.{trim, has_prefix}
use a5e.Users.Names.{claimed}
use a5e.Users.Admin.{
  AppUser, CreateAccountInput, UserUpdate, create_local_account, list_users, update_user,
  delete_user,
}
use a5e.ChangeRequests.Review.{read_enabled}
use a5e.Api.{
  Server, Act, call, throw, pure, attempt, try_catch, ◌>>=◌, ◌>>◌, is_not_found, list_groups,
  get_group, replace_group, create_group, delete_group_object, patch_settings, create_settings,
}

pub data Answer : Type 0 where
  error_answer : (status : ℕ) (error : String) → Answer
  users_answer : List AppUser → Answer
  groups_answer : List Group → Answer
  permissions_answer : AppRole → List Permission → Answer
  settings_answer : (change_requests_enabled : Bool) → Answer
  ok_answer created_answer deleted_answer : Answer

-- `isAppRole`, and the role that it is.
unfoldable pub app_role : String → Option AppRole
app_role s =
    if s == "none"
    then some no_role
    else if s == "user"
    then some user
    else if s == "admin"
    then some admin
    else none

pub data ParsedPermissions : Type 0 where
  absent : ParsedPermissions
  unreadable : (message : String) → ParsedPermissions
  readable : List Permission → ParsedPermissions

pub record NewUser : Type 0 where
  pub username : Option String
  pub password : Option String
  pub email : Option String
  pub display_name : Option String
  pub impersonate_groups : Option (List String)
  pub role : Option String

pub record UserEdit : Type 0 where
  pub username : Option String
  pub role : Option String
  pub email : Option String
  pub display_name : Option String
  pub impersonate_groups : Option (List String)
  pub password : Option String
  pub permissions : ParsedPermissions

-- `text?.trim()`
unfoldable pub trimmed : Option String → Option String
unfolding trim
trimmed none = none
trimmed (some s) = some (trim s)

-- `text?.trim() || undefined`
unfoldable pub trimmed_claim : Option String → Option String
unfolding trimmed claimed
trimmed_claim s = claimed (trimmed s)

abbrev pub is_some : {A : Type 0} → Option A → Bool
is_some none = false
is_some (some a) = true

role_of : Option String → Option AppRole
unfolding app_role
role_of none = none
role_of (some s) = app_role s

unfoldable pub account_input : String → NewUser → CreateAccountInput
unfolding trimmed_claim role_of
account_input username b = record {
  username = username;
  password = b.password;
  email = trimmed_claim b.email;
  display_name = trimmed_claim b.display_name;
  impersonate_groups = or_default [] b.impersonate_groups;
  role = or_default no_role (role_of b.role);
  permissions = none;
}

abbrev parsed : ParsedPermissions → Option (List Permission)
parsed absent = none
parsed (unreadable message) = none
parsed (readable permissions) = some permissions

unfoldable pub update_of : UserEdit → UserUpdate
unfolding trimmed_claim trimmed role_of claimed
update_of b = record {
  username = trimmed_claim b.username;
  email = trimmed b.email;
  display_name = trimmed b.display_name;
  impersonate_groups = b.impersonate_groups;
  role = role_of b.role;
  password = claimed b.password;
  permissions = parsed b.permissions;
}

-- Why an edit is refused, if it is.
unfoldable pub invalid_edit : String → UserEdit → Option String
unfolding role_of trimmed_claim has_prefix
invalid_edit id b =
    let has_non_role_field =
      is_some b.email
      || (is_some b.display_name || (is_some b.impersonate_groups || is_some b.password)) in
    let only_roles =
      if has_prefix "oidc:" id && (has_non_role_field && not (is_some (trimmed_claim b.username)))
      then some
          "only role and permissions can be set for an SSO-only identity — provide a username to give it a local account first"
      else none in
    if is_some b.role && not (is_some (role_of b.role))
    then some "role must be one of: none, user, admin"
    else elim b.permissions [
      | unreadable message ↦ some ("invalid permissions: " <> message)
      | absent ↦ only_roles
      | readable permissions ↦ only_roles
    ]

-- An error of an action, as the answer with a status.
abbrev pub reported : ℕ → Answer → Result (Unit {0}) → Answer
reported status done (ok _) = done
reported status done (err e) = error_answer status e.message
