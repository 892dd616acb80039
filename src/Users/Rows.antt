-- ===== src/Users/Rows.antt =====
-- Which object a row of the list of users stands for, in packages/api/src/auth/user-store.ts.
use Prim.Native.Char.{code}
use text.Mathlib.TextLemmas.{nil-append, cons-append}
use a5e.Base.{
  ◌≡◌, ◌≢◌, ◌⊎◌, inl, inr, refl, sym, ap, ◌∙◌, String, ◌<>◌, true, false, some, ==_refl, nat_eq,
  string_eq, option_eq,
}
use a5e.Labels.{or_default}
use a5e.Sessions.{drop_text}
use a5e.Users.{UserCr, is_local_account}
use a5e.Users.Text.{has_prefix, slice, size}
use a5e.Users.Text.Sizes.{slice-append}
use a5e.Users.Names.{local_cr_name, oidc_cr_name, sanitize_segment}
use a5e.Users.Passwords.{delete_password_hash}
use a5e.Users.Store.{delete_user_cr}
use a5e.Users.Admin.{app_user_id, delete_user, delete_local}
use a5e.Api.{Server, ◌>>=◌}

pub has_prefix-append : (p s : String) → has_prefix p (p <> s) ≡ true
unfolding has_prefix
has_prefix-append String.[] s = refl
has_prefix-append (String.◌∷◌ c p) s =
    rw (cons-append c p s, ==_refl (code c)) (has_prefix-append p s)

drop_text-append : (p s : String) → drop_text (size p) (p <> s) ≡ s
unfolding drop_text size
drop_text-append String.[] s = nil-append s
drop_text-append (String.◌∷◌ c p) s = rw (cons-append c p s) (drop_text-append p s)

-- The two prefixes differ in their first characters.
not_local : (s : String) → has_prefix "local-" ("oidc-" <> s) ≡ false
unfolding has_prefix
not_local s = rw (cons-append "o" "idc-" s) refl

pub not_local_id : (s : String) → has_prefix "local:" ("oidc:" <> s) ≡ false
unfolding has_prefix
not_local_id s = rw (cons-append "o" "idc:" s) refl

-- The object names of local accounts start with `local-` and those of tracked identities do not,
-- whatever the username and the `sub` are, after sanitizing and the cut at 253 characters, so that no
-- object name is both.
pub local_cr_name-oidc_cr_name :
    (username sub : String)
    → (has_prefix "local-" (local_cr_name username) ≡ true)
      × (has_prefix "local-" (oidc_cr_name sub) ≡ false)
      × (local_cr_name username ≢ oidc_cr_name sub)
unfolding local_cr_name oidc_cr_name size
local_cr_name-oidc_cr_name username sub = (named, tracked, apart)
  where
    named : has_prefix "local-" (local_cr_name username) ≡ true
    named =
        ap (has_prefix "local-") (slice-append "local-" 247 (sanitize_segment username))
        ∙ has_prefix-append "local-" (slice 247 (sanitize_segment username))

    tracked : has_prefix "local-" (oidc_cr_name sub) ≡ false
    tracked =
        ap (has_prefix "local-") (slice-append "oidc-" 248 (sanitize_segment sub))
        ∙ not_local (slice 248 (sanitize_segment sub))

    apart : local_cr_name username ≢ oidc_cr_name sub
    apart e = let same : true ≡ false = sym named ∙ (ap (has_prefix "local-") e ∙ tracked) in cc

-- The objects that this code creates.
pub data IsWellNamed (cr : UserCr) : Type 0 where
  named_local :
      (username : String)
      → cr.spec.username ≡ some username
      → cr.name ≡ local_cr_name username
      → IsWellNamed cr
  named_oidc : (sub : String) → cr.spec.sub ≡ some sub → cr.name ≡ oidc_cr_name sub → IsWellNamed cr

app_user_id-local :
    (cr : UserCr) (u : String)
    → cr.spec.username ≡ some u
    → cr.name ≡ local_cr_name u
    → (is_local_account cr ≡ true) × (app_user_id cr ≡ "local:" <> u)
unfolding app_user_id is_local_account
app_user_id-local cr u e n =
    let y : has_prefix "local-" cr.name ≡ true =
      ap (has_prefix "local-") n ∙ (local_cr_name-oidc_cr_name u "").0 in
    (y, rw y (ap (λ o. "local:" <> or_default "undefined" o) e))

app_user_id-oidc :
    (cr : UserCr) (s : String)
    → cr.spec.sub ≡ some s
    → cr.name ≡ oidc_cr_name s
    → (is_local_account cr ≡ false) × (app_user_id cr ≡ "oidc:" <> s)
unfolding app_user_id is_local_account
app_user_id-oidc cr s e n =
    let y : has_prefix "local-" cr.name ≡ false =
      ap (has_prefix "local-") n ∙ (local_cr_name-oidc_cr_name "" s).1 in
    (y, rw y (ap (λ o. "oidc:" <> or_default "undefined" o) e))

drop_local : (u : String) → drop_text 6 ("local:" <> u) ≡ u
unfolding size
drop_local u = drop_text-append "local:" u

pub drop_oidc : (s : String) → drop_text 5 ("oidc:" <> s) ≡ s
unfolding size
drop_oidc s = drop_text-append "oidc:" s

module _ {W : Type 0} (srv : Server W) where
  delete_user-local : (u : String) → delete_user srv ("local:" <> u) ≡ delete_local srv u
  unfolding delete_user
  delete_user-local u = rw (has_prefix-append "local:" u, drop_local u) refl

  delete_user-oidc :
      (s : String) → delete_user srv ("oidc:" <> s) ≡ delete_user_cr srv (oidc_cr_name s)
  unfolding delete_user
  delete_user-oidc s = rw (not_local_id s, has_prefix-append "oidc:" s, drop_oidc s) refl

  -- The identifier of a row leads back to the row's object: to delete by it deletes that object and, for
  -- a local account and no other, then the hash of its username, if the object has a name that this code
  -- gives.
  pub delete_user-app_user_id :
      (cr : UserCr)
      → IsWellNamed cr
      → ((is_local_account cr ≡ true)
          × (username : String) × (cr.spec.username ≡ some username)
          × (delete_user srv (app_user_id cr)
              ≡ (delete_user_cr srv cr.name >>= λ _. delete_password_hash srv username)))
        ⊎ ((is_local_account cr ≡ false)
            × (delete_user srv (app_user_id cr) ≡ delete_user_cr srv cr.name))
  unfolding delete_local
  delete_user-app_user_id cr (named_local u e n) =
      let (y, id) = app_user_id-local cr u e n in
      inl (
        y,
        u,
        e,
        ap (delete_user srv) id
            ∙ (delete_user-local u
                ∙ ap (λ name. delete_user_cr srv name >>= λ _. delete_password_hash srv u) (sym n)),
      )
  delete_user-app_user_id cr (named_oidc s e n) =
      let (y, id) = app_user_id-oidc cr s e n in
      inr (y, ap (delete_user srv) id ∙ (delete_user-oidc s ∙ ap (delete_user_cr srv) (sym n)))
