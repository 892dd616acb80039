-- ===== src/Access.antt =====
-- packages/api/src/auth/authorize.ts, roles.ts and permission-engine.ts: who a request comes from, and what
-- they may do, as the stored objects say at the time of the request.
use a5e.Base.{String, ◌<>◌, Option, none, some, List, if◌then◌else◌}
use a5e.Permissions.{
  AppRole, no_role, user, admin, Permission, role_at_least, resolve_role as role_of,
  resolve_effective_permissions as permissions_of,
}
use a5e.Permissions
use a5e.Sessions.{Session, Stores, get_stored_session}
use a5e.Users.{UserCr}
use a5e.Users.Store.{find_user_by_session}
use a5e.Api.{Server, Act, call, pure, ◌>>=◌, list_groups}

-- What the engine reads of a `User` object.
abbrev pub engine_view : Option UserCr → Option Permissions.UserSpec
engine_view none = none
engine_view (some cr) = some (record { role = cr.spec.role; permissions = cr.spec.permissions })

pub data Authorized : Type 0 where
  refused : (error : String) → Authorized
  unauthorized : Authorized
  granted : Session → AppRole → Authorized

role_word : AppRole → String
role_word no_role = "none"
role_word user = "user"
role_word admin = "admin"

refusal : AppRole → AppRole → String
unfolding role_word
refusal no_role least = "no role assigned yet — ask an admin to grant you access"
refusal user least = "requires the \"" <> (role_word least <> "\" role")
refusal admin least = "requires the \"" <> (role_word least <> "\" role")

module _ {W : Type 0} (srv : Server W) where
  unfoldable pub resolve_role : Session → Act W AppRole
  unfolding role_of
  resolve_role session = do cr ← find_user_by_session srv session; pure (role_of (engine_view cr))

  unfoldable pub granted_if : AppRole → Session → AppRole → Authorized
  unfolding refusal
  granted_if least session role =
      if role_at_least role least then granted session role else refused (refusal role least)

  unfoldable pub authorize : Stores → Option String → AppRole → Act W Authorized
  unfolding granted_if
  authorize stores token least = elim (get_stored_session token stores) [
    | none ↦ pure unauthorized
    | some session ↦ (do role ← resolve_role session; pure (granted_if least session role))
  ]

  -- `resolveEffectivePermissions(session, role)`
  unfoldable pub resolve_effective_permissions : Session → AppRole → Act W (List Permission)
  unfolding permissions_of
  resolve_effective_permissions session role = do
    cr ← find_user_by_session srv session
    groups ← call srv list_groups
    pure (permissions_of (some role) (engine_view cr) session.impersonate_groups groups)
