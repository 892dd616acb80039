-- ===== src/Users/Tracking.antt =====
-- What the tracking of a login may write, of packages/api/src/auth/user-store.ts.
use a5e.Base.{ℕ, ◌≡◌, refl, String, Option, none, some, [], string_eq, option_eq}
use a5e.Permissions.{no_role}
use a5e.Users.{UserCr, keep, put}
use a5e.Users.Names.{oidc_cr_name, claimed}
use a5e.Users.Claims.{claim_username}
use a5e.Users.Store.{get_user_cr, track_oidc_login, claim, backfilled}
use a5e.Api.{
  Server, Call, call, throw, pure, ◌>>=◌, is_not_found, get_user, list_users, create_user,
  patch_user,
}
use a5e.Users.Logins.{OnUsers}
use a5e.Effects.Emits.{
  Emits, Emits-pure, Emits-bind, Emits-call, Emits-if, Emits-try_catch, Emits-throw, Emits-option,
}

-- A tracked login keeps role, permissions, groups and sub, and starts without a role.
abbrev pub TracksOnly : String → Call → Type 0
TracksOnly sub =
    OnUsers
      (λ name spec.
        (name ≡ oidc_cr_name sub)
        × (spec.role ≡ some no_role)
        × (spec.permissions ≡ some [])
        × (spec.impersonate_groups ≡ []))
      (λ name patch.
        (name ≡ oidc_cr_name sub)
        × (patch.role ≡ keep)
        × (patch.permissions ≡ keep)
        × (patch.impersonate_groups ≡ keep)
        × (patch.sub ≡ keep))
      (λ name. ⊥)

module _ {W : Type 0} (srv : Server W) (sub : String) (random : ℕ → String) (fuel : ℕ) where
  claim-TracksOnly :
      (desired except : String) → Emits (TracksOnly sub) (claim srv random fuel desired except)
  unfolding claim
  claim-TracksOnly desired except =
      Emits-bind (call srv list_users) _ (Emits-call srv list_users tt) (λ users.
        Emits-option (claim_username random fuel users desired except) (throw _) (λ u. pure u)
          (Emits-throw _) (λ u e. Emits-pure u))

  get_user_cr-TracksOnly : (name : String) → Emits (TracksOnly sub) (get_user_cr srv name)
  unfolding get_user_cr
  get_user_cr-TracksOnly name =
      Emits-try_catch (call srv (get_user name) >>= (λ cr. pure (some cr))) _
        (Emits-bind (call srv (get_user name)) _ (Emits-call srv (get_user name) tt)
          (λ cr. Emits-pure (some cr)))
        (λ e.
          Emits-if (is_not_found e) (pure none) (throw e) (λ _. Emits-pure none)
            (λ _. Emits-throw e))

  backfilled-TracksOnly :
      (name : String) (cr : UserCr) (desired : String)
      → Emits (TracksOnly sub) (backfilled srv random fuel name cr desired)
  unfolding backfilled
  backfilled-TracksOnly name cr desired =
      Emits-option (claimed cr.spec.username) _ (λ _. pure keep)
        (Emits-bind (claim srv random fuel desired name) _ (claim-TracksOnly desired name)
          (λ u. Emits-pure (put u)))
        (λ u e. Emits-pure keep)

  -- The tracking of a login creates or patches the object of its own `sub` only; it keeps an existing
  -- role, permissions, groups and `sub`, and a new object has no role, no permissions and no groups.
  pub track_oidc_login-TracksOnly :
      (email : Option String) (display_name : String) (preferred_username : Option String)
      → Emits
          (TracksOnly sub)
          (track_oidc_login srv random fuel sub email display_name preferred_username)
  unfolding track_oidc_login
  track_oidc_login-TracksOnly email display_name preferred_username =
      Emits-bind (get_user_cr srv (oidc_cr_name sub)) _ (get_user_cr-TracksOnly (oidc_cr_name sub))
        (λ existing.
          Emits-option existing _ _
            (Emits-bind (claim srv random fuel _ (oidc_cr_name sub)) _
              (claim-TracksOnly _ (oidc_cr_name sub))
              (λ u. Emits-call srv (create_user (oidc_cr_name sub) _) (refl, refl, refl, refl)))
            (λ cr e.
              Emits-bind (backfilled srv random fuel (oidc_cr_name sub) cr _) _
                (backfilled-TracksOnly (oidc_cr_name sub) cr _)
                (λ u.
                  Emits-call srv (patch_user (oidc_cr_name sub) _) (refl, refl, refl, refl, refl))))
