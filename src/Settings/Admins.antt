-- ===== src/Settings/Admins.antt =====
-- Who may use the routes of packages/api/src/modules/users-settings.ts, permissions-settings.ts and
-- app-settings.ts.
use a5e.Base.{ℕ, ◌≡◌, refl, ap, ◌∙◌, String, Bool, Option, none, some}
use a5e.Base.Result.{Result, ok, err, Failure}
use a5e.Permissions.{AppRole, no_role, user, admin, role_at_least}
use a5e.Sessions.{Session, Stores, get_stored_session}
use a5e.Access.{Authorized, refused, unauthorized, granted, granted_if, authorize, resolve_role}
use a5e.Users.Admin.{list_users, delete_user}
use a5e.Settings.{
  Answer, error_answer, users_answer, groups_answer, deleted_answer, ParsedPermissions, NewUser,
  UserEdit,
}
use a5e.Settings.Routes.{
  answered, gated, create_account, edit_user, put_group, delete_group, put_settings,
  list_users_route, create_user_route, update_user_route, delete_user_route, list_groups_route,
  put_group_route, delete_group_route, put_settings_route,
}
use a5e.Routes.Reads.{IsRead, authorize-IsRead}
use a5e.Effects.Cases.{bind-cases, grown}
use a5e.Effects.Emits.{Grows}
use a5e.Api.{Server, Trace, Act, call, pure, ◌>>=◌, list_groups}

granted_if-admin :
    {W : Type 0} (srv : Server W) (session s : Session) (role r : AppRole)
    → granted_if srv admin session role ≡ granted s r
    → r ≡ admin
unfolding granted_if role_at_least
granted_if-admin srv session s no_role r e = cc
granted_if-admin srv session s user r e = cc
granted_if-admin srv session s admin r e = cc

ok-injective : {A : Type 0} (a b : A) → ok a ≡ ok b → a ≡ b
ok-injective a b e = cc

module _ {W : Type 0} (srv : Server W) where
  authorize-admin :
      (stores : Stores) (token : Option String) (session : Session) (role : AppRole) (t u : Trace W)
      → authorize srv stores token admin t ≡ (ok (granted session role), u)
      → role ≡ admin
  unfolding authorize pure
  authorize-admin stores token session role t u e = of (get_stored_session token stores) e
    where
      of :
          (o : Option Session)
          → elim o as (λ _. Act W Authorized) [
            | none ↦ pure unauthorized
            | some s ↦ (resolve_role srv s >>= λ r. pure (granted_if srv admin s r))
          ]
              t
            ≡ (ok (granted session role), u)
          → role ≡ admin
      of none f = let e' : ok unauthorized ≡ ok (granted session role) = ap (λ x. x.0) f in cc
      of (some s) f =
          bind-cases (resolve_role srv s) (λ r. pure (granted_if srv admin s r))
            (λ x. x ≡ (ok (granted session role), u) → role ≡ admin) t
            (λ e' v _ f'. let g : err e' ≡ ok (granted session role) = ap (λ x. x.0) f' in cc)
            (λ r v _ f'.
              let g : ok (granted_if srv admin s r) ≡ ok (granted session role) =
                ap (λ x. x.0) f' in
              granted_if-admin srv s session r role (ok-injective _ _ g))
            f

  -- What a route for administrators may do: it only reads, and its answer is a status and an error or what
  -- was thrown; or the session is that of an administrator, and after the reads the route is its body.
  pub data AdminOnly (stores : Stores) (token : Option String) (body : Act W Answer) (t : Trace W)
      (result : Result Answer × Trace W) : Type 0 where
    thrown_early :
        (e : Failure) (u : Trace W)
        → Grows IsRead t u
        → result ≡ (err e, u)
        → AdminOnly stores token body t result
    turned_away :
        (status : ℕ) (error : String) (u : Trace W)
        → Grows IsRead t u
        → result ≡ (ok (error_answer status error), u)
        → AdminOnly stores token body t result
    by_admin :
        (session : Session) (u : Trace W)
        → authorize srv stores token admin t ≡ (ok (granted session admin), u)
        → Grows IsRead t u
        → result ≡ body u
        → AdminOnly stores token body t result

  gated-AdminOnly :
      (stores : Stores) (token : Option String) (body : Act W Answer) (t : Trace W)
      → AdminOnly stores token body t (gated srv admin stores token (λ session role. body) t)
  unfolding gated answered pure
  gated-AdminOnly stores token body t =
      bind-cases (authorize srv stores token admin) _ Q t
        (λ e u m. thrown_early e u (reads u (err e) m) refl)
        (λ auth u m. by_auth auth u (reads u (ok auth) m) m)
    where
      Q : Result Answer × Trace W → Type 0
      Q = AdminOnly stores token body t

      reads :
          (u : Trace W) (r : Result Authorized)
          → authorize srv stores token admin t ≡ (r, u)
          → Grows IsRead t u
      reads u r m = grown _ t u r (authorize-IsRead srv stores token admin) m

      by_auth :
          (auth : Authorized) (u : Trace W)
          → Grows IsRead t u
          → authorize srv stores token admin t ≡ (ok auth, u)
          → Q (answered srv auth (λ session role. body) u)
      by_auth unauthorized u g m = turned_away 401 "unauthorized" u g refl
      by_auth (refused error) u g m = turned_away 403 error u g refl
      by_auth (granted session role) u g m =
          by_admin session u
            (m
              ∙ ap (λ r. (ok (granted session r), u))
                  (authorize-admin stores token session role t u m))
            g refl

  -- Each route for the users, the groups and the settings that lists or writes either only reads and
  -- answers with an error, or the session is that of an administrator, as its `User` object says at the
  -- time, and after the reads the route is its body.
  pub settings-AdminOnly :
      (stores : Stores) (token : Option String) (id name : String) (b : NewUser) (edit : UserEdit)
      (permissions : ParsedPermissions) (enabled : Result (Option Bool)) (t : Trace W)
      → AdminOnly stores token
          (list_users srv >>= λ users. pure (users_answer users))
          t
          (list_users_route srv stores token t)
        × AdminOnly stores token (create_account srv b) t (create_user_route srv stores token b t)
        × AdminOnly stores token
            (edit_user srv id edit)
            t
            (update_user_route srv stores token id edit t)
        × AdminOnly stores token
            (delete_user srv id >>= λ _. pure deleted_answer)
            t
            (delete_user_route srv stores token id t)
        × AdminOnly stores token
            (call srv list_groups >>= λ groups. pure (groups_answer groups))
            t
            (list_groups_route srv stores token t)
        × AdminOnly stores token
            (put_group srv name permissions)
            t
            (put_group_route srv stores token name permissions t)
        × AdminOnly stores token
            (delete_group srv name >>= λ _. pure deleted_answer)
            t
            (delete_group_route srv stores token name t)
        × AdminOnly stores token
            (put_settings srv enabled)
            t
            (put_settings_route srv stores token enabled t)
  unfolding list_users_route create_user_route update_user_route delete_user_route list_groups_route
      put_group_route delete_group_route put_settings_route
  settings-AdminOnly stores token id name b edit permissions enabled t = (
    gated-AdminOnly stores token _ t,
    gated-AdminOnly stores token _ t,
    gated-AdminOnly stores token _ t,
    gated-AdminOnly stores token _ t,
    gated-AdminOnly stores token _ t,
    gated-AdminOnly stores token _ t,
    gated-AdminOnly stores token _ t,
    gated-AdminOnly stores token _ t,
  )
