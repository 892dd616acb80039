-- ===== src/Tests/Users.antt =====
-- Users, logins and change requests at concrete inputs, with a server that knows one local account.
use a5e.Base.{
  ◌≡◌, ◌≢◌, refl, String, true, false, none, some, List, [], ◌∷◌, ◌++◌, ◌⊎◌, if◌then◌else◌, arith,
  ◌<>◌, ◌==◌, string_eq,
}
use a5e.Base.Result.{Result, ok, err, Failure}
use a5e.Permissions.{user}
use a5e.Users.{UserCr, put, no_patch, is_local_account}
use a5e.Sessions.{drop_text}
use a5e.Users.Text.{size, has_prefix}
use a5e.Users.Names.{local_cr_name, oidc_cr_name, sanitize_segment, claimed}
use a5e.Users.Claims.{claim_username, is_free, taken_names}
use a5e.Users.Claims.Free.{Unclaimed, claim_username-Chooses}
use a5e.Users.Claims.Long.{claim_username-none}
use a5e.Users.Store.{
  find_account_by_sub, link_account_to_sub, prune_superseded_oidc_identities, track_oidc_login,
  delete_user_cr,
}
use a5e.Users.Passwords.{delete_password_hash}
use a5e.Users.Logins.{LinksOnly, sign_on-LinksOnly}
use a5e.Users.Tracking.{TracksOnly, track_oidc_login-TracksOnly}
use a5e.Users.Admin.{
  CreateAccountInput, UserUpdate, app_user_id, delete_user, update_user, update_oidc,
  patch_unless_empty, is_empty_patch, create_local_account, create_linked_local_account,
}
use a5e.Users.Rows.{named_local, local_cr_name-oidc_cr_name, delete_user-app_user_id}
use a5e.Users.Accounts.{CreatesWellNamed, created-IsWellNamed}
use a5e.Users.Edits.{RoleOnly, update_user-RoleOnly}
use a5e.Effects.Emits.{Emits}
use a5e.Api.{
  Server, Call, Reply, Trace, call, ◌>>=◌, get_user, list_users, create_user, patch_user,
  delete_user as remove_user, list_groups, read_password_secret, replace_password_secret,
  create_password_secret, hash_password, verify_hash, read_settings, get_change_request,
  create_change_request, delete_change_request, patch_change_status, create_object, patch_object,
  delete_object, get_object, replace_object, merge_object, get_group, replace_group, create_group,
  delete_group_object, patch_settings, create_settings,
}

abbrev pub alice : UserCr
alice = record {
  name = "local-alice";
  spec = record {
    username = some "alice";
    sub = none;
    email = some "alice@example.org";
    display_name = none;
    impersonate_groups = [];
    role = some user;
    permissions = none;
  };
}

abbrev pub not_found : Failure
not_found = record { code = some 404; message = "not found" }

abbrev pub answer : (c : Call) → Result (Reply c)
answer (get_user name) = if name == "local-alice" then ok alice else err not_found
answer list_users = ok (alice ∷ [])
answer (create_user _ _) = ok tt
answer (patch_user _ _) = ok tt
answer (remove_user _) = err not_found
answer list_groups = ok []
answer read_password_secret = ok none
answer (replace_password_secret _) = err not_found
answer (create_password_secret _) = ok tt
answer (hash_password password) = ok password
answer (verify_hash password hash) = ok (password == hash)
answer read_settings = ok none
answer (get_change_request _) = err not_found
answer (create_change_request _ _ _) = ok tt
answer (delete_change_request _) = ok tt
answer (patch_change_status _ _) = ok tt
answer (create_object _ _ _) = ok tt
answer (patch_object _ _ _ _) = ok tt
answer (delete_object _ _ _) = err not_found
answer (get_object _ _ _) = err not_found
answer (get_group _) = err not_found
answer (replace_group _ _) = ok tt
answer (create_group _ _) = ok tt
answer (delete_group_object _) = ok tt
answer (patch_settings _) = ok tt
answer (create_settings _) = ok tt
answer (replace_object _ _ _ _) = ok tt
answer (merge_object _ _ _ _) = ok tt

abbrev pub server : Server (Unit {0})
server = record { perform = λ c w. (answer c, w); clock = λ w. "2026-01-01T00:00:00.000Z" }

claim_username-Chooses_example :
    (username : String) × (claim_username (λ n. "0a1b2c3d") 99 (alice ∷ []) "Alice" "oidc-1"
      ≡ some username)
    × Unclaimed (alice ∷ []) "oidc-1" username
unfolding size
claim_username-Chooses_example =
    claim_username-Chooses (λ n. "0a1b2c3d") (alice ∷ []) "Alice" "oidc-1" (omega arith)
      (omega arith)

claim_test : claim_username (λ n. "0a1b2c3d") 99 (alice ∷ []) "Alice" "oidc-1" ≡ some "Alice-2"
unfolding claim_username local_cr_name
claim_test = refl

sign_on-LinksOnly_example :
    Emits (LinksOnly "1") (find_account_by_sub server "1")
    × Emits
        (LinksOnly "1")
        (link_account_to_sub server (λ s. s) (some "alice@example.org") true "1")
    × Emits (LinksOnly "1") (prune_superseded_oidc_identities server)
sign_on-LinksOnly_example = sign_on-LinksOnly server "1" (λ s. s) (some "alice@example.org") true

track_oidc_login-TracksOnly_example :
    Emits
      (TracksOnly "1")
      (track_oidc_login server (λ n. "0a1b2c3d") 99 "1" none "Alice" (some "alice"))
track_oidc_login-TracksOnly_example =
    track_oidc_login-TracksOnly server "1" (λ n. "0a1b2c3d") 99 none "Alice" (some "alice")

named_alice : "local-alice" ≡ local_cr_name "alice"
unfolding local_cr_name
named_alice = refl

local_cr_name-oidc_cr_name_example :
    (has_prefix "local-" (local_cr_name "Alice") ≡ true)
    × (has_prefix "local-" (oidc_cr_name "Local-Alice") ≡ false)
    × (local_cr_name "Alice" ≢ oidc_cr_name "Local-Alice")
local_cr_name-oidc_cr_name_example = local_cr_name-oidc_cr_name "Alice" "Local-Alice"

delete_user-app_user_id_example :
    ((is_local_account alice ≡ true)
      × (username : String) × (alice.spec.username ≡ some username)
      × (delete_user server (app_user_id alice)
          ≡ (delete_user_cr server alice.name >>= λ _. delete_password_hash server username)))
    ⊎ ((is_local_account alice ≡ false)
        × (delete_user server (app_user_id alice) ≡ delete_user_cr server alice.name))
delete_user-app_user_id_example =
    delete_user-app_user_id server alice (named_local "alice" refl named_alice)

abbrev promote : UserUpdate
promote = record {
  username = none;
  email = none;
  display_name = none;
  impersonate_groups = none;
  role = some user;
  password = some "secret";
  permissions = none;
}

abbrev fresh : Trace (Unit {0})
fresh = record { world = tt; calls = [] }

update_user-RoleOnly_example :
    (new : List Call) × ((update_user server ("oidc:" <> "1") promote fresh).1.calls ≡ [] ++ new)
    × RoleOnly (oidc_cr_name "1") (some user) none new
unfolding claimed
update_user-RoleOnly_example = update_user-RoleOnly server "1" promote fresh refl

-- Its one call.
promote_test :
    (update_user server "oidc:1" promote fresh).1.calls
    ≡ patch_user (oidc_cr_name "1") (record no_patch { role = put user }) ∷ []
unfolding update_user update_oidc patch_unless_empty is_empty_patch claimed drop_text has_prefix
    call
promote_test = refl

abbrev bob : CreateAccountInput
bob = record {
  username = "bob";
  password = some "secret";
  email = none;
  display_name = none;
  impersonate_groups = [];
  role = user;
  permissions = none;
}

created-IsWellNamed_example :
    Emits CreatesWellNamed (create_local_account server bob)
    × Emits CreatesWellNamed (create_linked_local_account server bob "1")
    × Emits CreatesWellNamed (track_oidc_login server (λ n. "0a1b2c3d") 99 "1" none "Bob" none)
created-IsWellNamed_example =
    created-IsWellNamed server (λ n. "0a1b2c3d") 99 bob "1" none "Bob" none

-- 247 times the letter a.
abbrev long_name : String
long_name =
    "aaaaaaaaaaaaaaaaaaaaaaaaaaaaaaaaaaaaaaaaaaaaaaaaaaaaaaaaaaaaaaaaaaaaaaaaaaaaaaaaaaaaaaaaaaaaaaaaaaaaaaaaaaaaaaaaaaaaaaaaaaaaaaaaaaaaaaaaaaaaaaaaaaaaaaaaaaaaaaaaaaaaaaaaaaaaaaaaaaaaaaaaaaaaaaaaaaaaaaaaaaaaaaaaaaaaaaaaaaaaaaaaaaaaaaaaaaaaaaaaaaaaaaa"

abbrev long_user : UserCr
long_user = record alice {
  name = "local-long";
  spec = record alice.spec { username = some long_name };
}

claim_username-none_example :
    claim_username (λ n. "0a1b2c3d") 1000 (long_user ∷ []) long_name "oidc-1" ≡ none
unfolding size sanitize_segment is_free taken_names local_cr_name
claim_username-none_example =
    claim_username-none (λ n. "0a1b2c3d") 1000 (long_user ∷ []) long_name "oidc-1" (omega arith)
      refl
