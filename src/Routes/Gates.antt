-- ===== src/Routes/Gates.antt =====
-- The gates of the routes that write, in packages/api/src/modules/resource-routes.ts.
use a5e.Base.{◌≡◌, String, Bool, true, Option, List}
use a5e.Base.Result.{Result, ok}
use a5e.Permissions.{AppRole, user, Permission}
use a5e.Sessions.{Session, Stores}
use a5e.Access.{granted, authorize, resolve_effective_permissions}
use a5e.ChangeRequests.{Body}
use a5e.Routes.{Answer}
use a5e.Routes.Reads.{IsRead}
use a5e.Effects.Emits.{Grows, Emits}
use a5e.Api.{Server, Trace, Act}

module _ {W : Type 0} (srv : Server W) where
  -- What a route that writes may do: it only reads, or `authorize` lets the session pass as a user, its
  -- permissions and the object, as they are read in this order, allow the write, and the rest is the write.
  pub data Guarded (stores : Stores) (token : Option String) (load : Act W Body)
      (allowed : List Permission → Body → Bool) (write : Act W Answer) (t : Trace W)
      (result : Result Answer × Trace W) : Type 0 where
    only_reads : Grows IsRead t result.1 → Guarded stores token load allowed write t result
    allowed_write :
        (session : Session) (role : AppRole) (current : Body) (perms : List Permission)
        (u v w : Trace W)
        → authorize srv stores token user t ≡ (ok (granted session role), u)
        → load u ≡ (ok current, v)
        → resolve_effective_permissions srv session role v ≡ (ok perms, w)
        → allowed perms current ≡ true
        → Grows IsRead t w
        → result ≡ write w
        → Guarded stores token load allowed write t result
