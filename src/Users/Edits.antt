-- ===== src/Users/Edits.antt =====
-- `updateUser` of packages/api/src/auth/user-store.ts by its calls: the edit of a tracked identity.
use a5e.Base.{
  ◌≡◌, refl, sym, String, ◌<>◌, Option, none, some, List, [], ◌∷◌, ◌++◌, ◌⊎◌, inl, inr, append-nil,
}
use a5e.Permissions.{AppRole, Permission}
use a5e.Users.{UserPatch, Change, keep, put, no_patch}
use a5e.Users.Names.{oidc_cr_name, claimed}
use a5e.Users.Admin.{
  UserUpdate, patch_unless_empty, is_empty_patch, role_patch, update_user, update_oidc, given,
}
use a5e.Users.Rows.{not_local_id, has_prefix-append, drop_oidc}
use a5e.Api.{Server, Trace, Call, call, pure, patch_user}

-- A field of an update, and the field of the patch that carries it: absent where it is not given.
abbrev pub Carries : {A : Type 0} → Option A → Change A → Type 0
Carries none c = c ≡ keep
Carries (some a) c = c ≡ put a

abbrev pub IsGiven : {A : Type 0} → Option A → Type 0
IsGiven none = ⊥
IsGiven (some a) = Unit

abbrev pub CarriesRole : Option AppRole → Option (List Permission) → UserPatch → Type 0
CarriesRole role permissions patch =
    Carries role patch.role
    × Carries permissions patch.permissions
    × (patch.username ≡ keep)
    × (patch.sub ≡ keep)
    × (patch.email ≡ keep)
    × (patch.display_name ≡ keep)
    × (patch.impersonate_groups ≡ keep)

-- No call where neither a role nor permissions are given, and else one patch of one object, which
-- carries what is given of the two, and nothing more.
abbrev pub RoleOnly : String → Option AppRole → Option (List Permission) → List Call → Type 0
RoleOnly name role permissions new =
    ((role ≡ none) × (permissions ≡ none) × (new ≡ []))
    ⊎ ((IsGiven role ⊎ IsGiven permissions)
        × (patch : UserPatch) × (new ≡ patch_user name patch ∷ [])
        × CarriesRole role permissions patch)

module _ {W : Type 0} (srv : Server W) where
  patched :
      (name : String) (role : Option AppRole) (permissions : Option (List Permission)) (t : Trace W)
      → (new : List Call) × ((patch_unless_empty srv name
            (record no_patch { role = given role; permissions = given permissions })
            t).1.calls
          ≡ t.calls ++ new)
        × RoleOnly name role permissions new
  unfolding patch_unless_empty is_empty_patch pure call
  patched name none none t = ([], sym (append-nil t.calls), inl (refl, refl, refl))
  patched name none (some p) t =
      (_, refl, inr (inr tt, _, refl, (refl, refl, refl, refl, refl, refl, refl)))
  patched name (some r) none t =
      (_, refl, inr (inl tt, _, refl, (refl, refl, refl, refl, refl, refl, refl)))
  patched name (some r) (some p) t =
      (_, refl, inr (inl tt, _, refl, (refl, refl, refl, refl, refl, refl, refl)))

  routed :
      (sub : String) (u : UserUpdate) → update_user srv ("oidc:" <> sub) u ≡ update_oidc srv sub u
  unfolding update_user
  routed sub u = rw (not_local_id sub, has_prefix-append "oidc:" sub, drop_oidc sub) refl

  unclaimed :
      (sub : String) (u : UserUpdate)
      → claimed u.username ≡ none
      → update_oidc srv sub u ≡ patch_unless_empty srv (oidc_cr_name sub) (role_patch u)
  unfolding update_oidc
  unclaimed sub u e = rw (e, update_oidc) refl

  -- An edit of a row that stands for a tracked identity, where it gives no username, makes no call
  -- where it gives neither a role nor permissions. Else it makes one call, a patch of that identity's
  -- object, which sets the given role and the given permissions and leaves all other fields out.
  pub update_user-RoleOnly :
      (sub : String) (u : UserUpdate) (t : Trace W)
      → claimed u.username ≡ none
      → (new : List Call) × ((update_user srv ("oidc:" <> sub) u t).1.calls ≡ t.calls ++ new)
        × RoleOnly (oidc_cr_name sub) u.role u.permissions new
  update_user-RoleOnly sub u t e =
      rw (routed sub u, unclaimed sub u e) (patched (oidc_cr_name sub) u.role u.permissions t)
