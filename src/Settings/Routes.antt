-- ===== src/Settings/Routes.antt =====
-- The routes of packages/api/src/modules/users-settings.ts, permissions-settings.ts and app-settings.ts, with
-- packages/api/src/auth/groups.ts and packages/api/src/lib/app-settings-store.ts.
use a5e.Base.{
  String, ◌<>◌, Bool, true, false, not, ◌&&◌, Option, none, some, List, [], string_eq,
  if◌then◌else◌,
}
use a5e.Base.Result.{Result, ok, err}
use a5e.Permissions.{AppRole, user, admin, Permission}
use a5e.Sessions.{Session, Stores}
use a5e.Access.{
  Authorized, refused, unauthorized, granted, authorize, resolve_effective_permissions,
}
use a5e.Users.Names.{claimed}
use a5e.Users.Admin.{create_local_account, list_users, update_user, delete_user}
use a5e.ChangeRequests.Review.{read_enabled}
use a5e.Api.{
  Server, Act, call, throw, pure, attempt, try_catch, ◌>>=◌, ◌>>◌, is_not_found, list_groups,
  get_group, replace_group, create_group, delete_group_object, patch_settings, create_settings,
}
use a5e.Settings.{
  Answer, error_answer, users_answer, groups_answer, permissions_answer, settings_answer, ok_answer,
  created_answer, deleted_answer, ParsedPermissions, absent, unreadable, readable, NewUser,
  UserEdit, trimmed_claim, is_some, account_input, update_of, invalid_edit, reported,
}

module _ {W : Type 0} (srv : Server W) where
  -- `upsertGroup`
  unfoldable pub upsert_group : String → List Permission → Act W Unit
  upsert_group name permissions =
      try_catch (do call srv (get_group name); call srv (replace_group name permissions))
        (λ e. if is_not_found e then call srv (create_group name permissions) else throw e)

  -- `deleteGroup`
  unfoldable pub delete_group : String → Act W Unit
  delete_group name =
      try_catch (call srv (delete_group_object name))
        (λ e. if is_not_found e then pure tt else throw e)

  bool_word : Bool → String
  bool_word true = "true"
  bool_word false = "false"

  words : Option Bool → Option String
  words none = none
  words (some b) = some (bool_word b)

  -- `writeAppSettings`
  unfoldable pub write_app_settings : Option Bool → Act W Bool
  unfolding words bool_word
  write_app_settings enabled = do
    try_catch (call srv (patch_settings (words enabled)))
        (λ e. if is_not_found e then call srv (create_settings (words enabled)) else throw e)
    read_enabled srv

  unfoldable pub answered : Authorized → (Session → AppRole → Act W Answer) → Act W Answer
  answered unauthorized handler = pure (error_answer 401 "unauthorized")
  answered (refused error) handler = pure (error_answer 403 error)
  answered (granted session role) handler = handler session role

  unfoldable pub gated :
      AppRole → Stores → Option String → (Session → AppRole → Act W Answer) → Act W Answer
  unfolding answered
  gated least stores token handler =
      authorize srv stores token least >>= λ auth. answered auth handler

  unfoldable pub list_users_route : Stores → Option String → Act W Answer
  unfolding gated
  list_users_route stores token =
      gated admin stores token
        (λ session role. list_users srv >>= λ users. pure (users_answer users))

  unfoldable pub create_account : NewUser → Act W Answer
  unfolding account_input trimmed_claim claimed
  create_account b = elim (trimmed_claim b.username) [
    | none ↦ pure (error_answer 400 "username is required")
    | some username ↦
        if not (is_some (claimed b.password)) && not (is_some (trimmed_claim b.email))
        then pure
            (error_answer 400 "either a password or an email (for SSO account linking) is required")
        else (do
          result ← attempt (create_local_account srv (account_input username b))
          pure (reported 409 created_answer result))
  ]

  unfoldable pub create_user_route : Stores → Option String → NewUser → Act W Answer
  unfolding gated create_account
  create_user_route stores token b = gated admin stores token (λ session role. create_account b)

  unfoldable pub edit_user : String → UserEdit → Act W Answer
  unfolding invalid_edit update_of
  edit_user id b = elim (invalid_edit id b) [
    | some error ↦ pure (error_answer 400 error)
    | none ↦ (do
      result ← attempt (update_user srv id (update_of b))
      pure (reported 400 ok_answer result))
  ]

  unfoldable pub update_user_route : Stores → Option String → String → UserEdit → Act W Answer
  unfolding gated edit_user
  update_user_route stores token id b = gated admin stores token (λ session role. edit_user id b)

  unfoldable pub delete_user_route : Stores → Option String → String → Act W Answer
  unfolding gated
  delete_user_route stores token id =
      gated admin stores token (λ session role. delete_user srv id >>= λ _. pure deleted_answer)

  unfoldable pub list_groups_route : Stores → Option String → Act W Answer
  unfolding gated
  list_groups_route stores token =
      gated admin stores token
        (λ session role. call srv list_groups >>= λ groups. pure (groups_answer groups))

  unfoldable pub put_group : String → ParsedPermissions → Act W Answer
  unfolding upsert_group
  put_group name (unreadable message) = pure (error_answer 400 ("invalid permissions: " <> message))
  put_group name absent = do upsert_group name []; pure ok_answer
  put_group name (readable permissions) = do upsert_group name permissions; pure ok_answer

  unfoldable pub put_group_route :
      Stores → Option String → String → ParsedPermissions → Act W Answer
  unfolding gated put_group
  put_group_route stores token name permissions =
      gated admin stores token (λ session role. put_group name permissions)

  unfoldable pub delete_group_route : Stores → Option String → String → Act W Answer
  unfolding gated delete_group
  delete_group_route stores token name =
      gated admin stores token (λ session role. delete_group name >>= λ _. pure deleted_answer)

  unfoldable pub own_permissions_route : Stores → Option String → Act W Answer
  unfolding gated
  own_permissions_route stores token = gated user stores token (λ session role.
      resolve_effective_permissions srv session role >>= λ perms.
      pure (permissions_answer role perms))

  unfoldable pub read_settings_route : Stores → Option String → Act W Answer
  unfolding gated
  read_settings_route stores token =
      gated user stores token
        (λ session role. read_enabled srv >>= λ enabled. pure (settings_answer enabled))

  -- The setting of the request: a Boolean, none, or (an error) something else.
  unfoldable pub put_settings : Result (Option Bool) → Act W Answer
  unfolding write_app_settings
  put_settings (err e) = pure (error_answer 400 "changeRequestsEnabled must be a boolean")
  put_settings (ok enabled) = do
    now_enabled ← write_app_settings enabled
    pure (settings_answer now_enabled)

  unfoldable pub put_settings_route : Stores → Option String → Result (Option Bool) → Act W Answer
  unfolding gated put_settings
  put_settings_route stores token enabled =
      gated admin stores token (λ session role. put_settings enabled)
