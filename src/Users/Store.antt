-- ===== src/Users/Store.antt =====
-- packages/api/src/auth/user-store.ts: the `User` objects at a login. `toLowerCase` on all of Unicode
-- and the random suffixes of usernames are parameters. A username is chosen on fuel; where none of the
-- attempts is free the source goes on, and the model throws.
use a5e.Base.{
  ℕ, String, Bool, true, false, not, ◌&&◌, Option, none, some, List, [], ◌∷◌, some_of,
  keep as keep_if, find, ◌==◌, string_eq, option_eq, if◌then◌else◌,
}
use a5e.Base.Result.{thrown}
use a5e.Labels.{includes}
use a5e.Permissions.{no_role}
use a5e.Sessions.{Session, local, oidc, drop_text}
use a5e.Users.{UserCr, UserSpec, Change, keep, clear, put, no_patch, is_local_account}
use a5e.Users.Text.{trim}
use a5e.Users.Names.{local_cr_name, oidc_cr_name, claimed, derive_oidc_username}
use a5e.Users.Claims.{claim_username}
use a5e.Users.Passwords.{has_password_hash, set_password_hash, verify_password}
use a5e.Api.{
  Server, Act, call, throw, try_catch, pure, ◌>>=◌, ◌>>◌, is_not_found, get_user, list_users,
  create_user, patch_user, delete_user,
}

-- `isTrackerFor`
unfoldable pub is_tracker_for : UserCr → String → Bool
is_tracker_for cr sub =
    not (is_local_account cr) && (cr.spec.sub == some sub && cr.name == oidc_cr_name sub)

pub record LocalIdentity : Type 0 where
  pub username : Option String
  pub impersonate_groups : List String
  pub display_name : Option String
  pub email : Option String

abbrev pub to_local_identity : UserCr → LocalIdentity
to_local_identity cr = record {
  username = cr.spec.username;
  impersonate_groups = cr.spec.impersonate_groups;
  display_name = cr.spec.display_name;
  email = cr.spec.email;
}

pub data PasswordChange : Type 0 where
  changed : PasswordChange
  refused : (error : String) → PasswordChange

-- `email ?? null`
abbrev pub or_clear : Option String → Change String
or_clear none = clear
or_clear (some s) = put s

abbrev pub tracked : String → String → Option String → String → UserSpec
tracked sub username email display_name = record {
  username = some username;
  sub = some sub;
  email = email;
  display_name = some display_name;
  impersonate_groups = [];
  role = some no_role;
  permissions = some [];
}

-- `pruneSupersededOidcIdentities`: the subs that local accounts have claimed.
unfoldable pub claimed_subs : List UserCr → List String
claimed_subs [] = []
claimed_subs (u ∷ us) =
    let rest = claimed_subs us in
    if is_local_account u
    then elim (claimed u.spec.sub) [ none ↦ rest | some sub ↦ sub ∷ rest ]
    else rest

unfoldable pub is_superseded : List String → UserCr → Bool
is_superseded subs u = elim (claimed u.spec.sub) [
  | none ↦ false
  | some sub ↦ includes subs sub && is_tracker_for u sub
]

module _ {W : Type 0} (srv : Server W) where
  unfoldable pub get_user_cr : String → Act W (Option UserCr)
  get_user_cr name =
      try_catch (do cr ← call srv (get_user name); pure (some cr))
        (λ e. if is_not_found e then pure none else throw e)

  -- `createUserCRIfAbsent`: whether it was created.
  unfoldable pub create_user_cr_if_absent : String → UserSpec → Act W Bool
  create_user_cr_if_absent name spec = do
    existing ← get_user_cr name
    elim existing [ some cr ↦ pure false | none ↦ (do call srv (create_user name spec); pure true) ]

  unfoldable pub delete_user_cr : String → Act W Unit
  delete_user_cr name =
      try_catch (call srv (delete_user name)) (λ e. if is_not_found e then pure tt else throw e)

  -- `deleteTrackerFrom`
  unfoldable pub delete_tracker_from : List UserCr → String → Act W Unit
  delete_tracker_from users sub = elim (find (λ u. is_tracker_for u sub) users) [
    | none ↦ pure tt
    | some tracker ↦ delete_user_cr tracker.name
  ]

  -- `findUserBySession`
  unfoldable pub find_user_by_session : Session → Act W (Option UserCr)
  find_user_by_session session = elim session.kind [
    | local ↦ get_user_cr (local_cr_name (drop_text 6 session.impersonate_user))
    | oidc ↦ get_user_cr (oidc_cr_name session.impersonate_user)
  ]

  unfoldable pub has_any_local_account : Act W Bool
  has_any_local_account = do users ← call srv list_users; pure (some_of is_local_account users)

  identity_named : String → Bool → Act W (Option LocalIdentity)
  identity_named username false = pure none
  identity_named username true = do
    cr ← get_user_cr (local_cr_name username)
    pure (elim cr [ none ↦ none | some u ↦ some (to_local_identity u) ])

  unfoldable pub verify_local_login : String → String → Act W (Option LocalIdentity)
  unfolding identity_named
  verify_local_login username password = do
    valid ← verify_password srv username password
    identity_named username valid

  unfoldable pub find_account_by_sub : String → Act W (Option LocalIdentity)
  find_account_by_sub sub = do
    users ← call srv list_users
    elim (find (λ u. is_local_account u && u.spec.sub == some sub) users) [
      | none ↦ pure none
      | some match ↦ (do delete_tracker_from users sub; pure (some (to_local_identity match)))
    ]

  -- The check of the current password: none, or why it is refused.
  unfoldable pub check_current : String → Bool → Option String → Act W (Option String)
  check_current username false current_password = pure none
  check_current username true none = pure (some "current password is required")
  check_current username true (some current_password) = do
    correct ← verify_password srv username current_password
    pure (if correct then none else some "current password is incorrect")

  unfoldable pub change_own_password : String → Option String → String → Act W PasswordChange
  change_own_password username current_password new_password = do
    cr ← get_user_cr (local_cr_name username)
    elim cr [
      | none ↦ pure (refused "account not found")
      | some _ ↦ (do
        has ← has_password_hash srv username
        allowed ← check_current username has (claimed current_password)
        elim allowed [
          | none ↦ (do set_password_hash srv username new_password; pure changed)
          | some error ↦ pure (refused error)
        ])
    ]

  unfoldable pub delete_all : List UserCr → Act W Unit
  delete_all [] = pure tt
  delete_all (u ∷ us) = do delete_user_cr u.name; delete_all us

  unfoldable pub delete_superseded : List String → List UserCr → Act W Unit
  delete_superseded [] users = pure tt
  delete_superseded (s ∷ subs) users = delete_all (keep_if (is_superseded (s ∷ subs)) users)

  unfoldable pub prune_superseded_oidc_identities : Act W Unit
  prune_superseded_oidc_identities = do
    users ← call srv list_users
    delete_superseded (claimed_subs users) users

  module _ (to_lower : String → String) where
    -- `email?.trim().toLowerCase()`
    unfoldable pub normalized : Option String → Option String
    normalized none = none
    normalized (some email) = some (to_lower (trim email))

    unfoldable pub link : List UserCr → UserCr → String → Act W (Option LocalIdentity)
    link users match sub = elim (claimed match.spec.sub) [
      | some linked ↦ pure (if linked == sub then some (to_local_identity match) else none)
      | none ↦ (do
        call srv (patch_user match.name (record no_patch { sub = put sub }))
        delete_tracker_from users sub
        pure (some (to_local_identity match)))
    ]

    unfoldable pub has_email : String → UserCr → Bool
    unfolding normalized
    has_email email u = is_local_account u && normalized u.spec.email == some email

    unfoldable pub link_account_to_sub :
        Option String → Bool → String → Act W (Option LocalIdentity)
    unfolding link has_email normalized
    link_account_to_sub email false sub = pure none
    link_account_to_sub email true sub = elim (claimed (normalized email)) [
      | none ↦ pure none
      | some wanted ↦ (do
        users ← call srv list_users
        elim (find (has_email wanted) users) [
          | none ↦ pure none
          | some match ↦ link users match sub
        ])
    ]

  module _ (random : ℕ → String) (fuel : ℕ) where
    unfoldable pub claim : String → String → Act W String
    claim desired except = do
      users ← call srv list_users
      elim (claim_username random fuel users desired except) [
        | none ↦ throw (thrown "no attempt was free")
        | some username ↦ pure username
      ]

    unfoldable pub backfilled : String → UserCr → String → Act W (Change String)
    backfilled name existing desired = elim (claimed existing.spec.username) [
      | some _ ↦ pure keep
      | none ↦ (do username ← claim desired name; pure (put username))
    ]

    unfoldable pub track_oidc_login : String → Option String → String → Option String → Act W Unit
    unfolding claim backfilled
    track_oidc_login sub email display_name preferred_username = do
      let name = oidc_cr_name sub
      let desired = derive_oidc_username preferred_username email sub
      existing ← get_user_cr name
      elim existing [
        | some cr ↦ (do
          username ← backfilled name cr desired
          call srv (
              patch_user name (record no_patch {
                username = username;
                email = or_clear email;
                display_name = put display_name;
              })))
        | none ↦ (do
          username ← claim desired name
          call srv (create_user name (tracked sub username email display_name)))
      ]
