-- ===== src/Routes/Reads.antt =====
-- What packages/api/src/modules/resource-routes.ts reads before it decides.
use a5e.Base.{String, Option, none, some}
use a5e.Base.Result.{Result, ok, err}
use a5e.Descriptors.{Descriptor}
use a5e.Permissions.{AppRole}
use a5e.Sessions.{Session, SessionKind, local, oidc, Stores, get_stored_session}
use a5e.Users.{UserCr}
use a5e.Users.Store.{get_user_cr, find_user_by_session}
use a5e.Access.{authorize, resolve_role, resolve_effective_permissions}
use a5e.ChangeRequests.Items.{request_namespace}
use a5e.Routes.{in_namespace, get_current}
use a5e.Effects.Emits.{
  Emits, Emits-pure, Emits-bind, Emits-call, Emits-throw, Emits-option, Emits-if, Emits-try_catch,
}
use a5e.Api.{
  Server, Act, Call, call, throw, pure, is_not_found, get_user, list_users, create_user, patch_user,
  delete_user, list_groups, read_password_secret, replace_password_secret, create_password_secret,
  hash_password, verify_hash, read_settings, get_change_request, create_change_request,
  delete_change_request, patch_change_status, create_object, patch_object, delete_object,
  get_object, replace_object, merge_object, get_group, replace_group, create_group,
  delete_group_object, patch_settings, create_settings,
}

-- Calls that change nothing.
abbrev pub IsRead : Call → Type 0
IsRead (get_user _) = Unit
IsRead list_users = Unit
IsRead (create_user _ _) = ⊥
IsRead (patch_user _ _) = ⊥
IsRead (delete_user _) = ⊥
IsRead list_groups = Unit
IsRead read_password_secret = Unit
IsRead (replace_password_secret _) = ⊥
IsRead (create_password_secret _) = ⊥
IsRead (hash_password _) = Unit
IsRead (verify_hash _ _) = Unit
IsRead read_settings = Unit
IsRead (get_change_request _) = Unit
IsRead (create_change_request _ _ _) = ⊥
IsRead (delete_change_request _) = ⊥
IsRead (patch_change_status _ _) = ⊥
IsRead (create_object _ _ _) = ⊥
IsRead (patch_object _ _ _ _) = ⊥
IsRead (delete_object _ _ _) = ⊥
IsRead (get_group _) = Unit
IsRead (replace_group _ _) = ⊥
IsRead (create_group _ _) = ⊥
IsRead (delete_group_object _) = ⊥
IsRead (patch_settings _) = ⊥
IsRead (create_settings _) = ⊥
IsRead (get_object _ _ _) = Unit
IsRead (replace_object _ _ _ _) = ⊥
IsRead (merge_object _ _ _ _) = ⊥

module _ {W : Type 0} (srv : Server W) where
  get_user_cr-IsRead : (name : String) → Emits IsRead (get_user_cr srv name)
  unfolding get_user_cr
  get_user_cr-IsRead name =
      Emits-try_catch _ _
        (Emits-bind (call srv (get_user name)) _ (Emits-call srv (get_user name) tt)
          (λ cr. Emits-pure (some cr)))
        (λ e.
          Emits-if (is_not_found e) (pure none) (throw e) (λ _. Emits-pure none)
            (λ _. Emits-throw e))

  find_user_by_session-IsRead :
      (session : Session) → Emits IsRead (find_user_by_session srv session)
  unfolding find_user_by_session
  find_user_by_session-IsRead session = of _ _ session.kind
    where
      of :
          (a b : String) (kind : SessionKind)
          → Emits IsRead (elim kind as (λ _. Act W (Option UserCr)) [
            | local ↦ get_user_cr srv a
            | oidc ↦ get_user_cr srv b
          ])
      of a b local = get_user_cr-IsRead a
      of a b oidc = get_user_cr-IsRead b

  pub authorize-IsRead :
      (stores : Stores) (token : Option String) (least : AppRole)
      → Emits IsRead (authorize srv stores token least)
  unfolding authorize resolve_role
  authorize-IsRead stores token least =
      Emits-option (get_stored_session token stores) _ _ (Emits-pure _) (λ session _.
        Emits-bind (resolve_role srv session) _
          (Emits-bind (find_user_by_session srv session) _ (find_user_by_session-IsRead session)
            (λ cr. Emits-pure _))
          (λ role. Emits-pure _))

  pub resolve_effective_permissions-IsRead :
      (session : Session) (role : AppRole)
      → Emits IsRead (resolve_effective_permissions srv session role)
  unfolding resolve_effective_permissions
  resolve_effective_permissions-IsRead session role =
      Emits-bind (find_user_by_session srv session) _ (find_user_by_session-IsRead session) (λ cr.
        Emits-bind (call srv list_groups) _ (Emits-call srv list_groups tt)
          (λ groups. Emits-pure _))

  pub get_current-IsRead :
      (d : Descriptor) (namespace : Option String) (name : String)
      → Emits IsRead (get_current srv d namespace name)
  unfolding get_current in_namespace
  get_current-IsRead d namespace name = of (request_namespace d namespace)
    where
      of :
          (r : Result (Option String))
          → Emits IsRead (in_namespace srv r (λ n. call srv (get_object d name n)))
      of (ok n) = Emits-call srv (get_object d name n) tt
      of (err e) = Emits-throw e
