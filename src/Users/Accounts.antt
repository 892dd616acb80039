-- ===== src/Users/Accounts.antt =====
-- Which objects are created, in packages/api/src/auth/user-store.ts.
use a5e.Base.{ℕ, refl, String, Option, none, some, List, [], find, some_of}
use a5e.Users.{UserCr, keep, put}
use a5e.Users.Names.{local_cr_name, oidc_cr_name, claimed}
use a5e.Users.Claims.{claim_username}
use a5e.Users.Passwords.{Hashes, read_hashes, write_hashes, set_password_hash}
use a5e.Users.Store.{
  get_user_cr, delete_user_cr, delete_tracker_from, track_oidc_login, claim, backfilled,
  is_tracker_for,
}
use a5e.Users.Admin.{
  CreateAccountInput, create_local_account, create_linked_local_account, link_new, is_linked,
  set_password,
}
use a5e.Users.Rows.{IsWellNamed, named_local, named_oidc}
use a5e.Api.{
  Server, Call, call, throw, pure, ◌>>=◌, is_not_found, get_user, list_users, create_user,
  patch_user, delete_user, list_groups, read_password_secret, replace_password_secret,
  create_password_secret, hash_password, verify_hash, read_settings, get_change_request,
  create_change_request, delete_change_request, patch_change_status, create_object, patch_object,
  delete_object, get_object, replace_object, merge_object, get_group, replace_group, create_group,
  delete_group_object, patch_settings, create_settings,
}
use a5e.Effects.Emits.{
  Emits, Emits-pure, Emits-bind, Emits-call, Emits-if, Emits-try_catch, Emits-throw, Emits-option,
}

-- A `User` object that is created has the name that its fields give; nothing is said of other calls.
abbrev pub CreatesWellNamed : Call → Type 0
CreatesWellNamed (create_user name spec) = IsWellNamed (record { name = name; spec = spec })
CreatesWellNamed (get_user _) = Unit
CreatesWellNamed list_users = Unit
CreatesWellNamed (patch_user _ _) = Unit
CreatesWellNamed (delete_user _) = Unit
CreatesWellNamed list_groups = Unit
CreatesWellNamed read_password_secret = Unit
CreatesWellNamed (replace_password_secret _) = Unit
CreatesWellNamed (create_password_secret _) = Unit
CreatesWellNamed (hash_password _) = Unit
CreatesWellNamed (verify_hash _ _) = Unit
CreatesWellNamed read_settings = Unit
CreatesWellNamed (get_change_request _) = Unit
CreatesWellNamed (create_change_request _ _ _) = Unit
CreatesWellNamed (delete_change_request _) = Unit
CreatesWellNamed (patch_change_status _ _) = Unit
CreatesWellNamed (create_object _ _ _) = Unit
CreatesWellNamed (patch_object _ _ _ _) = Unit
CreatesWellNamed (delete_object _ _ _) = Unit
CreatesWellNamed (get_group _) = Unit
CreatesWellNamed (replace_group _ _) = Unit
CreatesWellNamed (create_group _ _) = Unit
CreatesWellNamed (delete_group_object _) = Unit
CreatesWellNamed (patch_settings _) = Unit
CreatesWellNamed (create_settings _) = Unit
CreatesWellNamed (get_object _ _ _) = Unit
CreatesWellNamed (replace_object _ _ _ _) = Unit
CreatesWellNamed (merge_object _ _ _ _) = Unit

module _ {W : Type 0} (srv : Server W) where
  read_hashes-Creates : Emits CreatesWellNamed (read_hashes srv)
  unfolding read_hashes
  read_hashes-Creates =
      Emits-try_catch (call srv read_password_secret >>= _) _
        (Emits-bind (call srv read_password_secret) _ (Emits-call srv read_password_secret tt)
          (λ h. Emits-pure _))
        (λ e.
          Emits-if (is_not_found e) (pure []) (throw e) (λ _. Emits-pure []) (λ _. Emits-throw e))

  write_hashes-Creates : (hashes : Hashes) → Emits CreatesWellNamed (write_hashes srv hashes)
  unfolding write_hashes
  write_hashes-Creates hashes =
      Emits-try_catch (call srv (replace_password_secret hashes)) _
        (Emits-call srv (replace_password_secret hashes) tt)
        (λ e.
          Emits-if (is_not_found e) (call srv (create_password_secret hashes)) (throw e)
            (λ _. Emits-call srv (create_password_secret hashes) tt) (λ _. Emits-throw e))

  set_password-Creates :
      (username : String) (password : Option String)
      → Emits CreatesWellNamed (set_password srv username password)
  unfolding set_password set_password_hash
  set_password-Creates username password =
      Emits-option (claimed password) (pure tt) _ (Emits-pure tt) (λ p e.
        Emits-bind (read_hashes srv) _ read_hashes-Creates (λ hashes.
          Emits-bind (call srv (hash_password p)) _ (Emits-call srv (hash_password p) tt)
            (λ hash. write_hashes-Creates _)))

  get_user_cr-Creates : (name : String) → Emits CreatesWellNamed (get_user_cr srv name)
  unfolding get_user_cr
  get_user_cr-Creates name =
      Emits-try_catch (call srv (get_user name) >>= (λ cr. pure (some cr))) _
        (Emits-bind (call srv (get_user name)) _ (Emits-call srv (get_user name) tt)
          (λ cr. Emits-pure (some cr)))
        (λ e.
          Emits-if (is_not_found e) (pure none) (throw e) (λ _. Emits-pure none)
            (λ _. Emits-throw e))

  delete_tracker_from-Creates :
      (users : List UserCr) (sub : String)
      → Emits CreatesWellNamed (delete_tracker_from srv users sub)
  unfolding delete_tracker_from delete_user_cr
  delete_tracker_from-Creates users sub =
      Emits-option (find (λ u. is_tracker_for u sub) users) (pure tt) _ (Emits-pure tt) (λ u e.
        Emits-try_catch (call srv (delete_user u.name)) _ (Emits-call srv (delete_user u.name) tt)
          (λ f.
            Emits-if (is_not_found f) (pure tt) (throw f) (λ _. Emits-pure tt)
              (λ _. Emits-throw f)))

  create_local_account-Creates :
      (input : CreateAccountInput) → Emits CreatesWellNamed (create_local_account srv input)
  unfolding create_local_account
  create_local_account-Creates input =
      Emits-bind (get_user_cr srv (local_cr_name input.username)) _ (get_user_cr-Creates _)
        (λ existing.
          Emits-option existing _ (λ cr. throw _)
            (Emits-bind (call srv (create_user (local_cr_name input.username) _)) _
              (Emits-call srv (create_user (local_cr_name input.username) _)
                (named_local input.username refl refl))
              (λ _. set_password-Creates input.username input.password))
            (λ cr e. Emits-throw _))

  link_new-Creates :
      (input : CreateAccountInput) (sub : String) (users : List UserCr)
      → Emits CreatesWellNamed (link_new srv input sub users)
  unfolding link_new
  link_new-Creates input sub users =
      Emits-if (some_of (is_linked srv sub) users) (throw _) _ (λ _. Emits-throw _)
        (λ _.
          Emits-bind (call srv (create_user (local_cr_name input.username) _)) _
            (Emits-call srv (create_user (local_cr_name input.username) _)
              (named_local input.username refl refl))
            (λ _.
              Emits-bind (set_password srv input.username input.password) _
                (set_password-Creates input.username input.password)
                (λ _. delete_tracker_from-Creates users sub)))

  create_linked_local_account-Creates :
      (input : CreateAccountInput) (sub : String)
      → Emits CreatesWellNamed (create_linked_local_account srv input sub)
  unfolding create_linked_local_account
  create_linked_local_account-Creates input sub =
      Emits-bind (get_user_cr srv (local_cr_name input.username)) _ (get_user_cr-Creates _)
        (λ existing.
          Emits-option existing _ (λ cr. throw _)
            (Emits-bind (call srv list_users) _ (Emits-call srv list_users tt)
              (λ users. link_new-Creates input sub users))
            (λ cr e. Emits-throw _))

  module _ (random : ℕ → String) (fuel : ℕ) where
    claim-Creates :
        (desired except : String) → Emits CreatesWellNamed (claim srv random fuel desired except)
    unfolding claim
    claim-Creates desired except =
        Emits-bind (call srv list_users) _ (Emits-call srv list_users tt) (λ users.
          Emits-option (claim_username random fuel users desired except) (throw _) (λ u. pure u)
            (Emits-throw _) (λ u e. Emits-pure u))

    backfilled-Creates :
        (name : String) (cr : UserCr) (desired : String)
        → Emits CreatesWellNamed (backfilled srv random fuel name cr desired)
    unfolding backfilled
    backfilled-Creates name cr desired =
        Emits-option (claimed cr.spec.username) _ (λ _. pure keep)
          (Emits-bind (claim srv random fuel desired name) _ (claim-Creates desired name)
            (λ u. Emits-pure (put u)))
          (λ u e. Emits-pure keep)

    track_oidc_login-Creates :
        (sub : String) (email : Option String) (display_name : String)
        (preferred_username : Option String)
        → Emits CreatesWellNamed
            (track_oidc_login srv random fuel sub email display_name preferred_username)
    unfolding track_oidc_login
    track_oidc_login-Creates sub email display_name preferred_username =
        Emits-bind (get_user_cr srv (oidc_cr_name sub)) _ (get_user_cr-Creates (oidc_cr_name sub))
          (λ existing.
            Emits-option existing _ _
              (Emits-bind (claim srv random fuel _ (oidc_cr_name sub)) _
                (claim-Creates _ (oidc_cr_name sub))
                (λ u. Emits-call srv (create_user (oidc_cr_name sub) _) (named_oidc sub refl refl)))
              (λ cr e.
                Emits-bind (backfilled srv random fuel (oidc_cr_name sub) cr _) _
                  (backfilled-Creates (oidc_cr_name sub) cr _)
                  (λ u. Emits-call srv (patch_user (oidc_cr_name sub) _) tt)))

    -- Each object that is created, for an account, for a linked account and for a tracked login, has the
    -- name that its own username or `sub` gives.
    pub created-IsWellNamed :
        (input : CreateAccountInput) (sub : String) (email : Option String) (display_name : String)
        (preferred_username : Option String)
        → Emits CreatesWellNamed (create_local_account srv input)
          × Emits CreatesWellNamed (create_linked_local_account srv input sub)
          × Emits CreatesWellNamed
              (track_oidc_login srv random fuel sub email display_name preferred_username)
    created-IsWellNamed input sub email display_name preferred_username = (
      create_local_account-Creates input,
      create_linked_local_account-Creates input sub,
      track_oidc_login-Creates sub email display_name preferred_username,
    )
